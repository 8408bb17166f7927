-- ===== src/Threads/Tokens.antt =====
-- How often a number is in the queue of free services or with a thread.
use server.Prelude.{
  ℕ, zero, suc, ◌+◌, ◌≤◌, ◌≡◌, ◌≢◌, refl, Bool, List, [], ◌∷◌, ◌++◌, some, ◌==◌, if◌then◌else◌,
  get_elem?, set, replicate, arith,
}
use server.Threads.{Pc, at_top, fetched, holding, polled, stopped}

abbrev pub one_if : Bool → ℕ
one_if b = if b then 1 else 0

-- How often `k` is in the queue.
unfoldable pub count : ℕ → List ℕ → ℕ
count k [] = 0
count k (x ∷ xs) = one_if (x == k) + count k xs

-- The number that a thread has taken from the queue, 0 if none.
abbrev pub token : Pc → ℕ
token at_top = 0
token (fetched id) = id
token (holding a id) = id
token (polled id) = id
token stopped = 0

-- How many threads have `k`.
unfoldable pub held : ℕ → List Pc → ℕ
held k [] = 0
held k (p ∷ ps) = one_if (token p == k) + held k ps

pub count-append : (k : ℕ) (xs ys : List ℕ) → count k (xs ++ ys) ≡ count k xs + count k ys
unfolding count
count-append k [] ys = omega arith
count-append k (x ∷ xs) ys = omega (arith, count-append k xs ys)

-- A step of thread `i` from `p` to `q`.
pub held-set :
    (k : ℕ) (ps : List Pc) (i : ℕ) (p q : Pc)
    → get_elem? ps i ≡ some p
    → held k (set ps i q) + one_if (token p == k) ≡ held k ps + one_if (token q == k)
unfolding held
held-set k [] i p q e = cc
held-set k (x ∷ ps) zero p q e = ground arith
held-set k (x ∷ ps) (suc i) p q e = omega (arith, held-set k ps i p q e)

pub held-start : (k n : ℕ) → 1 ≤ k → held k (replicate n at_top) ≡ 0
unfolding held replicate
held-start k zero h = refl
held-start k (suc n) h = ground (arith, held-start k n h)

pub held_one :
    (k : ℕ) (ps : List Pc) (i : ℕ) (p : Pc) → get_elem? ps i ≡ some p → token p ≡ k → 1 ≤ held k ps
unfolding held
held_one k [] i p e h = cc
held_one k (x ∷ ps) zero p e h = ground arith
held_one k (x ∷ ps) (suc i) p e h = omega (arith, held_one k ps i p e h)

-- Two threads that have `k` count twice.
pub held_two :
    (k : ℕ) (ps : List Pc) (i j : ℕ) (p q : Pc)
    → get_elem? ps i ≡ some p
    → get_elem? ps j ≡ some q
    → token p ≡ k
    → token q ≡ k
    → i ≢ j
    → 2 ≤ held k ps
unfolding held
held_two k [] i j p q e f a b d = cc
held_two k (x ∷ ps) zero zero p q e f a b d = absurd (d refl)
held_two k (x ∷ ps) zero (suc j) p q e f a b d = ground (arith, held_one k ps j q f b)
held_two k (x ∷ ps) (suc i) zero p q e f a b d = ground (arith, held_one k ps i p e a)
held_two k (x ∷ ps) (suc i) (suc j) p q e f a b d =
    omega (arith, held_two k ps i j p q e f a b (λ (r : i ≡ j). ground arith))
