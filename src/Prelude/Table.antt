-- ===== src/Prelude/Table.antt =====
-- `std::map` with numbers for keys: a list of entries by ascending key, and its laws.
use Prim.Native.Nat.{ℕ, ◌+◌, ◌≤◌, ◌<◌}
use mathlib.Core.Path.{◌≡◌, refl, subst}
use mathlib.Core.Option.{Option, none, some}
use mathlib.Core.List.{List, [], ◌∷◌}
use native.Mathlib.Omega.{arith}
use mathlib.Core.Logic.{inl, inr}
use server.Prelude.Tests.{Bool-cases, ltb, ◌==◌, if◌then◌else◌}

abbrev pub Table {ℓ} : Type ℓ → Type ℓ
Table V = List (ℕ × V)

-- The keys ascend, from `n` on.
abbrev pub IsAbove {ℓ} : {V : Type ℓ} → ℕ → Table V → Type 0
IsAbove n [] = Unit
IsAbove n ((k, v) ∷ m) = (n ≤ k) × IsAbove (k + 1) m

-- Every value is as `P` says.
abbrev pub AllValues {ℓ κ} : {V : Type ℓ} → (V → Type κ) → Table V → Type κ
AllValues P [] = Unit
AllValues P ((k, v) ∷ m) = P v × AllValues P m

-- Every key is below `n`.
abbrev pub IsBelow {ℓ} : {V : Type ℓ} → ℕ → Table V → Type 0
IsBelow n [] = Unit
IsBelow n ((k, v) ∷ m) = (k < n) × IsBelow n m

module _ {ℓ} {V : Type ℓ} where
  unfoldable pub find : ℕ → Table V → Option V
  find k [] = none
  find k ((j, v) ∷ m) = if j == k then some v else find k m

  -- `map::insert` leaves an entry that is there already.
  unfoldable pub insert : ℕ → V → Table V → Table V
  insert k v [] = (k, v) ∷ []
  insert k v ((j, w) ∷ m) =
      if k == j then (j, w) ∷ m else if ltb k j then (k, v) ∷ (j, w) ∷ m else (j, w) ∷ insert k v m

  unfoldable pub erase : ℕ → Table V → Table V
  erase k [] = []
  erase k ((j, w) ∷ m) = if j == k then m else (j, w) ∷ erase k m

  -- A write to the value of an entry that is there.
  unfoldable pub assign : ℕ → V → Table V → Table V
  assign k v [] = []
  assign k v ((j, w) ∷ m) = if j == k then (j, v) ∷ m else (j, w) ∷ assign k v m

  unfoldable pub keys : Table V → List ℕ
  keys [] = []
  keys ((k, v) ∷ m) = k ∷ keys m

  pub find-insert :
      (k j : ℕ) (v : V) (m : Table V)
      → find k m ≡ none
      → find j (insert k v m) ≡ (if k == j then some v else find j m)
  unfolding find insert
  find-insert k j v [] h = refl
  find-insert k j v ((i, w) ∷ m) h = ground (arith, find-insert k j v m)

  pub find_early : (n k : ℕ) (m : Table V) → IsAbove n m → k < n → find k m ≡ none
  unfolding find
  find_early n k [] a h = refl
  find_early n k ((i, w) ∷ m) a h = ground (arith, find_early (i + 1) k m a.1)

  pub insert_present :
      (n k : ℕ) (w v : V) (m : Table V) → IsAbove n m → find k m ≡ some w → insert k v m ≡ m
  unfolding find insert
  insert_present n k w v [] a h = cc
  insert_present n k w v ((i, u) ∷ m) a h =
      ground (arith, insert_present (i + 1) k w v m a.1, find_early (i + 1) k m a.1)

  pub find_late : (n k : ℕ) (m : Table V) → IsBelow n m → n ≤ k → find k m ≡ none
  unfolding find
  find_late n k [] b h = refl
  find_late n k ((i, w) ∷ m) b h = ground (arith, find_late n k m b.1)

  pub find-erase :
      (n k j : ℕ) (m : Table V)
      → IsAbove n m
      → find j (erase k m) ≡ (if k == j then none else find j m)
  unfolding find erase
  find-erase n k j [] a = ground arith
  find-erase n k j ((i, w) ∷ m) a =
      ground (arith, find-erase (i + 1) k j m a.1, find_early (i + 1) j m a.1)

  pub find-assign :
      (k j : ℕ) (v : V) (m : Table V)
      → find j (assign k v m)
        ≡ (if k == j then elim (find k m) [ none ↦ none | some _ ↦ some v ] else find j m)
  unfolding find assign
  find-assign k j v [] = ground arith
  find-assign k j v ((i, w) ∷ m) = ground (arith, find-assign k j v m)

  pub insert_front : (k : ℕ) (v : V) (m : Table V) → IsAbove (k + 1) m → insert k v m ≡ (k, v) ∷ m
  unfolding insert
  insert_front k v [] a = refl
  insert_front k v ((i, w) ∷ m) a = ground arith

  IsAbove-mono : (n n' : ℕ) (m : Table V) → IsAbove n m → n' ≤ n → IsAbove n' m
  IsAbove-mono n n' [] a h = tt
  IsAbove-mono n n' ((i, w) ∷ m) a h = (omega arith, a.1)

  pub insert-IsAbove :
      (n k : ℕ) (v : V) (m : Table V) → n ≤ k → IsAbove n m → IsAbove n (insert k v m)
  unfolding insert
  insert-IsAbove n k v [] h a = (h, tt)
  insert-IsAbove n k v ((i, w) ∷ m) h a = ground (arith, insert-IsAbove (i + 1) k v m)

  pub erase-IsAbove : (n k : ℕ) (m : Table V) → IsAbove n m → IsAbove n (erase k m)
  unfolding erase
  erase-IsAbove n k [] a = tt
  erase-IsAbove n k ((i, w) ∷ m) a =
      ground (arith, erase-IsAbove (i + 1) k m a.1, IsAbove-mono (i + 1) n m a.1)

  pub IsBelow-mono : (n n' : ℕ) (m : Table V) → n ≤ n' → IsBelow n m → IsBelow n' m
  IsBelow-mono n n' [] h b = tt
  IsBelow-mono n n' ((i, w) ∷ m) h b = (omega arith, IsBelow-mono n n' m h b.1)

  pub insert-IsBelow :
      (n k : ℕ) (v : V) (m : Table V) → k < n → IsBelow n m → IsBelow n (insert k v m)
  unfolding insert
  insert-IsBelow n k v [] h b = (h, tt)
  insert-IsBelow n k v ((i, w) ∷ m) h b = ground (arith, insert-IsBelow n k v m h b.1)

  pub erase-IsBelow : (n k : ℕ) (m : Table V) → IsBelow n m → IsBelow n (erase k m)
  unfolding erase
  erase-IsBelow n k [] b = tt
  erase-IsBelow n k ((i, w) ∷ m) b = ground (arith, erase-IsBelow n k m b.1)

  pub assign-IsAbove : (n k : ℕ) (v : V) (m : Table V) → IsAbove n m → IsAbove n (assign k v m)
  unfolding assign
  assign-IsAbove n k v [] a = tt
  assign-IsAbove n k v ((i, w) ∷ m) a = ground (arith, assign-IsAbove (i + 1) k v m a.1)

  pub assign-IsBelow : (n k : ℕ) (v : V) (m : Table V) → IsBelow n m → IsBelow n (assign k v m)
  unfolding assign
  assign-IsBelow n k v [] b = tt
  assign-IsBelow n k v ((i, w) ∷ m) b = ground (arith, assign-IsBelow n k v m b.1)

module _ {ℓ κ} {V : Type ℓ} (P : V → Type κ) where
  pub find-AllValues : (k : ℕ) (v : V) (m : Table V) → AllValues P m → find k m ≡ some v → P v
  unfolding find
  find-AllValues k v [] h e = cc
  find-AllValues k v ((j, w) ∷ m) h e = elim (Bool-cases (j == k)) [
    | inl same ↦ let p : w ≡ v = ground arith in subst P p h.0
    | inr other ↦ find-AllValues k v m h.1 (ground arith)
  ]

  pub insert-AllValues :
      (k : ℕ) (v : V) (m : Table V) → P v → AllValues P m → AllValues P (insert k v m)
  unfolding insert
  insert-AllValues k v [] p h = (p, tt)
  insert-AllValues k v ((j, w) ∷ m) p h = elim (Bool-cases (k == j)) [
    | inl same ↦ rw same h
    | inr other ↦ elim (Bool-cases (ltb k j)) [
      | inl before ↦ rw (other, before) (p, h)
      | inr later ↦ rw (other, later) (h.0, insert-AllValues k v m p h.1)
    ]
  ]

  pub erase-AllValues : (k : ℕ) (m : Table V) → AllValues P m → AllValues P (erase k m)
  unfolding erase
  erase-AllValues k [] h = tt
  erase-AllValues k ((j, w) ∷ m) h = elim (Bool-cases (j == k)) [
    | inl same ↦ rw same h.1
    | inr other ↦ rw other (h.0, erase-AllValues k m h.1)
  ]

  pub assign-AllValues :
      (k : ℕ) (v : V) (m : Table V) → P v → AllValues P m → AllValues P (assign k v m)
  unfolding assign
  assign-AllValues k v [] p h = tt
  assign-AllValues k v ((j, w) ∷ m) p h = elim (Bool-cases (j == k)) [
    | inl same ↦ rw same (p, h.1)
    | inr other ↦ rw other (h.0, assign-AllValues k v m p h.1)
  ]
