-- ===== src/Server/Query.antt =====
-- `queryService`: the smallest number under which a service of the name is registered, or 0.
use Prim.Native.String.{String}
use text.Mathlib.Text.{◌==◌ as str_eq}
use text.Mathlib.TextEquality.{eq_iff}
use server.Prelude.{
  ℕ, ◌+◌, ◌<◌, ◌≡◌, ◌≢◌, refl, [], ◌∷◌, none, some, ok, All, arith, inl, inr, Bool-cases, ◌==◌,
}
use server.Prelude.Table.{Table, find, IsAbove, find_early}
use server.Service.{Service}
use server.Server.{Server, name_loop, query_service}
use server.Server.Sound.{IsSound, IsLive}

-- A statement of every entry of a table, from one of what is found in it.
entries_of_find {ℓ κ} :
    {V : Type ℓ} (P : ℕ → V → Type κ) (n : ℕ) (m : Table V)
    → IsAbove n m
    → ((k : ℕ) (v : V) → find k m ≡ some v → P k v)
    → All (λ e. P e.0 e.1) m
unfolding find
entries_of_find P n [] up h = tt
entries_of_find P n ((k, v) ∷ m) up h = (
  h k v (ground arith),
  entries_of_find P (k + 1) m up.1 (λ j w e. h j w (ground (arith, find_early (k + 1) j m up.1))),
)

-- Whatever is registered under `k` has another name.
abbrev pub Differs : String → Table Service → Table ℕ → ℕ → Type 0
Differs name heap m k =
    (a : ℕ) (t : Service) → find k m ≡ some a → find a heap ≡ some t → t.name ≢ name

-- `id` is the first number with a service of that name, or 0 and there is none.
pub data FirstNamed (name : String) (heap : Table Service) (m : Table ℕ) (id : ℕ) : Type 0 where
  found :
      (a : ℕ) (t : Service)
      → find id m ≡ some a
      → find a heap ≡ some t
      → t.name ≡ name
      → ((k : ℕ) → k < id → Differs name heap m k)
      → FirstNamed name heap m id
  missing : id ≡ 0 → ((k : ℕ) → Differs name heap m k) → FirstNamed name heap m id

-- An entry of another name in front changes nothing.
skip-Differs :
    (name : String) (heap : Table Service) (j b : ℕ) (u : Service) (m : Table ℕ) (k : ℕ)
    → find b heap ≡ some u
    → u.name ≢ name
    → Differs name heap m k
    → Differs name heap ((j, b) ∷ m) k
unfolding find
skip-Differs name heap j b u m k at other d a t e f p = elim (Bool-cases (j == k)) [
  | inl same ↦ other (ground arith)
  | inr apart ↦ d a t (ground arith) f p
]

skip-FirstNamed :
    (name : String) (heap : Table Service) (j b : ℕ) (u : Service) (m : Table ℕ) (id : ℕ)
    → IsAbove (j + 1) m
    → find b heap ≡ some u
    → u.name ≢ name
    → FirstNamed name heap m id
    → FirstNamed name heap ((j, b) ∷ m) id
unfolding find
skip-FirstNamed name heap j b u m id up at other (found a t e f p early) =
    found a t (ground (arith, find_early (j + 1) id m up)) f p
      (λ k h. skip-Differs name heap j b u m k at other (early k h))
skip-FirstNamed name heap j b u m id up at other (missing z d) =
    missing z (λ k. skip-Differs name heap j b u m k at other (d k))

name_loop_lem :
    (name : String) (heap : Table Service) (n : ℕ) (m : Table ℕ)
    → IsAbove n m
    → All (λ e. IsLive e.1 heap) m
    → (id : ℕ) × (name_loop name heap m ≡ ok id) × FirstNamed name heap m id
unfolding name_loop
name_loop_lem name heap n [] up l = (0, refl, missing refl (λ k a t e f p. unfold find in cc))
name_loop_lem name heap n ((j, b) ∷ m) up ((u, at, free), l) =
    elim (Bool-cases (str_eq u.name name)) [
      | inl same ↦ (
        j,
        ground arith,
        found b u (unfold find in ground arith) at ((eq_iff u.name name).0 same) (λ k h a t e f p.
            let none_there : find k ((j, b) ∷ m) ≡ none =
              find_early j k ((j, b) ∷ m) (omega arith, up.1) h in
            ground arith),
      )
      | inr other ↦
          let (id, e, first) = name_loop_lem name heap (j + 1) m up.1 l in
          let different : u.name ≢ name = λ p. ground (arith, (eq_iff u.name name).1 p) in
          (id, ground arith, skip-FirstNamed name heap j b u m id up.1 at different first)
    ]

-- `queryService` returns and changes nothing.  It answers the smallest number under which a service
-- of that name is registered, and 0 exactly if there is none.
pub query_service_lem :
    (name : String) (s : Server)
    → IsSound s
    → (id : ℕ) × (query_service name s ≡ ok (id, s)) × FirstNamed name s.heap s.mgr.services id
unfolding query_service
query_service_lem name s v =
    let all_live =
      entries_of_find (λ k a. IsLive a s.heap) 1 s.mgr.services v.services_sorted
        (λ k a e. (v.live k a e).1) in
    let (id, e, first) = name_loop_lem name s.heap 1 s.mgr.services v.services_sorted all_live in
    (id, ground (arith, v.free.services), first)
