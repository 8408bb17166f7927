-- ===== src/Prelude/Dict.antt =====
-- `std::unordered_map` with texts (lists of bytes) for keys: a list of entries in the order in which
-- they were inserted.
use Prim.Native.Nat.{ℕ}
use mathlib.Core.Path.{◌≡◌, refl}
use mathlib.Core.Bool.{Bool, true, false, ◌&&◌}
use mathlib.Core.Option.{Option, none, some}
use mathlib.Core.List.{List, [], ◌∷◌}
use native.Mathlib.Omega.{arith}
use server.Prelude.Tests.{◌==◌, if◌then◌else◌}

unfoldable pub same_text : List ℕ → List ℕ → Bool
same_text [] [] = true
same_text [] (d ∷ ds) = false
same_text (c ∷ cs) [] = false
same_text (c ∷ cs) (d ∷ ds) = c == d && same_text cs ds

pub same_text-eq : (cs ds : List ℕ) → same_text cs ds ≡ true → cs ≡ ds
unfolding same_text
same_text-eq [] [] h = refl
same_text-eq [] (d ∷ ds) h = cc
same_text-eq (c ∷ cs) [] h = cc
same_text-eq (c ∷ cs) (d ∷ ds) h = ground (arith, same_text-eq cs ds)

pub same_text_self : (cs : List ℕ) → same_text cs cs ≡ true
unfolding same_text
same_text_self [] = refl
same_text_self (c ∷ cs) = ground (arith, same_text_self cs)

abbrev pub Dict {ℓ} : Type ℓ → Type ℓ
Dict V = List (List ℕ × V)

module _ {ℓ} {V : Type ℓ} where
  unfoldable pub find_key : List ℕ → Dict V → Option V
  find_key k [] = none
  find_key k ((j, v) ∷ m) = if same_text j k then some v else find_key k m

  -- `insert` leaves an entry that is there already.
  unfoldable pub insert_key : List ℕ → V → Dict V → Dict V
  insert_key k v [] = (k, v) ∷ []
  insert_key k v ((j, w) ∷ m) = if same_text j k then (j, w) ∷ m else (j, w) ∷ insert_key k v m

  pub find_key-insert_key :
      (k j : List ℕ) (v : V) (m : Dict V)
      → find_key j (insert_key k v m)
        ≡ elim (find_key j m) [ some w ↦ some w | none ↦ (if same_text k j then some v else none) ]
  unfolding find_key insert_key
  find_key-insert_key k j v [] = ground arith
  find_key-insert_key k j v ((i, w) ∷ m) = ground (
    arith,
    same_text-eq i k,
    same_text-eq i j,
    same_text-eq k j,
    same_text_self i,
    same_text_self j,
    same_text_self k,
    find_key-insert_key k j v m,
  )
