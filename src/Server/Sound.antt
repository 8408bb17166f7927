-- ===== src/Server/Sound.antt =====
-- The invariant of the service manager: what is registered is on the heap, what waits for its
-- deletion is on the heap once and is registered no more, no mutex of the managers stays taken, and
-- a number is left for each worker that is free.
use server.Prelude.{
  ℕ, suc, ◌+◌, ◌^◌, ◌<◌, ◌≤◌, ◌≡◌, ◌≢◌, refl, sym, Bool, false, List, [], ◌∷◌, none, some, ◌==◌,
  length, ok, All, arith, inl, inr, Bool-cases, ==_iff,
}
use server.Prelude.Table.{
  Table, find, insert, erase, assign, IsAbove, IsBelow, find-insert, find-erase, find-assign,
  AllValues, erase-AllValues, erase-IsAbove, erase-IsBelow,
}
use server.Service.{Service}
use server.Server.{Server, delete_all, delete_service}
use server.Server.Steps.{IsFree}

-- The object `a` is not deleted, and nobody holds its mutex.
abbrev pub IsLive : ℕ → Table Service → Type 0
IsLive a heap = (t : Service) × (find a heap ≡ some t) × (t.locked ≡ false)

abbrev pub Distinct : List ℕ → Type 0
Distinct [] = Unit
Distinct (x ∷ xs) = All (λ y. y ≢ x) xs × Distinct xs

-- Nobody holds the mutex of an object.
abbrev pub IsUnlocked : Service → Type 0
IsUnlocked t = t.locked ≡ false

-- An entry of `mFreeWorkers` names a worker of `mWorkers`.
abbrev pub IsWorker : ℕ → ℕ × Bool → Type 0
IsWorker n e = (0 < e.0) × (e.0 ≤ n)

pub record IsSound (s : Server) : Type 0 where
  pub free : IsFree s
  pub services_sorted : IsAbove 1 s.mgr.services
  pub services_below : IsBelow s.mgr.auto_id s.mgr.services
  pub heap_sorted : IsAbove 1 s.heap
  pub heap_below : IsBelow s.mgr.auto_id s.heap
  pub unlocked : AllValues IsUnlocked s.heap
  pub positive : 0 < s.mgr.auto_id
  pub budget : s.mgr.auto_id + length s.worker_mgr.free_workers ≡ suc (length s.worker_mgr.workers)
  pub few_workers : length s.worker_mgr.workers < 2 ^ 31
  pub workers_known : All (IsWorker (length s.worker_mgr.workers)) s.worker_mgr.free_workers
  pub live : (k a : ℕ) → find k s.mgr.services ≡ some a → (a ≡ k) × IsLive a s.heap
  pub retired : All (λ a. (find a s.mgr.services ≡ none) × IsLive a s.heap) s.mgr.pre_destroy
  pub distinct : Distinct s.mgr.pre_destroy

pub assign-IsLive :
    (a b : ℕ) (t : Service) (heap : Table Service)
    → t.locked ≡ false
    → IsLive b heap
    → IsLive b (assign a t heap)
assign-IsLive a b t heap u (old, e, f) = elim (Bool-cases (a == b)) [
  | inl same ↦ (t, ground (arith, find-assign a b t heap, (==_iff a b).0 same), u)
  | inr other ↦ (old, ground (arith, find-assign a b t heap), f)
]

pub insert-IsLive :
    (a b : ℕ) (t : Service) (heap : Table Service)
    → find a heap ≡ none
    → IsLive b heap
    → IsLive b (insert a t heap)
insert-IsLive a b t heap n (old, e, f) = (old, ground (arith, find-insert a b t heap n), f)

pub erase-IsLive :
    (n a b : ℕ) (heap : Table Service)
    → IsAbove n heap
    → b ≢ a
    → IsLive b heap
    → IsLive b (erase a heap)
erase-IsLive n a b heap up h (old, e, f) = (old, ground (arith, find-erase n a b heap up), f)

erase-IsLive_list :
    (n a : ℕ) (xs : List ℕ) (heap : Table Service)
    → IsAbove n heap
    → All (λ y. y ≢ a) xs
    → All (λ y. IsLive y heap) xs
    → All (λ y. IsLive y (erase a heap)) xs
erase-IsLive_list n a [] heap up d l = tt
erase-IsLive_list n a (x ∷ xs) heap up d l =
    (erase-IsLive n a x heap up d.0 l.0, erase-IsLive_list n a xs heap up d.1 l.1)

flip : (x : ℕ) (xs : List ℕ) → All (λ y. y ≢ x) xs → All (λ y. x ≢ y) xs
flip x [] h = tt
flip x (y ∷ ys) h = (λ p. h.0 (sym p), flip x ys h.1)

-- Deleting distinct live objects succeeds, takes them off the heap and leaves every other object as it
-- was.
pub record Deletes (xs : List ℕ) (hi : ℕ) (heap heap' : Table Service) : Type 0 where
  pub deleted : delete_all xs heap ≡ ok heap'
  pub sorted : IsAbove 1 heap'
  pub below : IsBelow hi heap'
  pub unlocked : AllValues IsUnlocked heap'
  pub gone : All (λ x. find x heap' ≡ none) xs
  pub others : (b : ℕ) → All (λ x. b ≢ x) xs → find b heap' ≡ find b heap

pub delete_all_lem :
    (hi : ℕ) (xs : List ℕ) (heap : Table Service)
    → IsAbove 1 heap
    → IsBelow hi heap
    → AllValues IsUnlocked heap
    → All (λ x. IsLive x heap) xs
    → Distinct xs
    → (heap' : Table Service) × Deletes xs hi heap heap'
unfolding delete_all
delete_all_lem hi [] heap up low un l d = (
  heap,
  record {
    deleted = refl;
    sorted = up;
    below = low;
    unlocked = un;
    gone = tt;
    others = λ b h. refl;
  },
)
delete_all_lem hi (x ∷ xs) heap up low un ((t, e, f), l) (apart, d) =
    let first : delete_service x heap ≡ ok (erase x heap) = unfold delete_service in ground arith in
    let (heap', r) =
      delete_all_lem hi xs (erase x heap) (erase-IsAbove 1 x heap up) (erase-IsBelow hi x heap low)
        (erase-AllValues IsUnlocked x heap un) (erase-IsLive_list 1 x xs heap up apart l) d in
    (
      heap',
      record {
        deleted = ground (arith, first, r.deleted);
        sorted = r.sorted;
        below = r.below;
        unlocked = r.unlocked;
        gone = (ground (arith, r.others x (flip x xs apart), find-erase 1 x x heap up), r.gone);
        others = λ b h. ground (arith, r.others b h.1, find-erase 1 x b heap up, h.0);
      },
    )
