-- ===== src/Registry.antt =====
-- The managers of src/websocket/server/websocketServerMgr.cpp and src/socket/tcp/server/tcpServerMgr.cpp
-- by what their callers see: a map from numbers to objects. A manager keeps pointers in a map and never
-- deletes an object; its callers reach an object by its number only.
pub mod Links
pub mod Calls
pub mod Websockets
pub mod TcpServers
use server.Prelude.{
  ℕ, ◌+◌, ◌^◌, ◌<◌, ◌≡◌, Option, none, some, if◌then◌else◌, ◌==◌, Outcome, ok, blocks, fault,
}

-- What the callers see: the number that comes next, and the objects by their numbers.
pub record View (O : Type 0) : Type 0 where
  pub next : ℕ
  pub object : ℕ → Option O

-- Two views with the same objects are the same.
pub same_view :
    {O : Type 0} (n : ℕ) (f g : ℕ → Option O)
    → ((j : ℕ) → f j ≡ g j)
    → ◌≡◌ {A = View O} (record { next = n; object = f }) (record { next = n; object = g })
same_view n f g h = λ i. record { next = n; object = λ j. h j i }

-- The object under one number becomes `o`.
abbrev pub put : {O : Type 0} → ℕ → Option O → View O → View O
put k o v = record { next = v.next; object = λ j. if k == j then o else v.object j }

-- A new object under the next number.
abbrev pub grown : {O : Type 0} → O → View O → View O
grown o v = record { next = v.next + 1; object = λ j. if v.next == j then some o else v.object j }

-- What a method on the object under `k` leaves.
abbrev pub write_view : {O A : Type 0} → ℕ → View O → Outcome (A × O) → Outcome (A × View O)
write_view k v (ok (r, p)) = ok (r, put k (some p) v)
write_view k v blocks = blocks
write_view k v fault = fault

-- A call by number on the view: the method on the object, or an answer where there is none.
abbrev pub call_view :
    {O A : Type 0} → ℕ → A → (O → Outcome (A × O)) → View O → Outcome (A × View O)
call_view k missing f v = elim (v.object k) [
  | none ↦ ok (missing, v)
  | some o ↦ write_view k v (f o)
]

-- The two ways to carry out a call end alike: with the same result in a manager that is valid and has
-- the view, or without one.
abbrev pub Agrees :
    {M O A : Type 0} (IsValid : M → Type 0) (view : M → View O)
    → Outcome (A × M)
    → Outcome (A × View O)
    → Type 0
Agrees IsValid view (ok (r, m)) (ok (q, v)) = (r ≡ q) × IsValid m × (view m ≡ v)
Agrees IsValid view blocks blocks = Unit
Agrees IsValid view fault fault = Unit
Agrees IsValid view _ _ = ⊥

-- A manager and what makes it one; a number is an `int32_t`.
pub record Registry (M O : Type 0) : Type 1 where
  pub fresh : O
  pub make : M → Outcome (ℕ × M)
  pub destroy : ℕ → M → Outcome (Unit {0} × M)
  pub by_number : {A : Type 0} → ℕ → A → (O → Outcome (A × O)) → M → Outcome (A × M)
  pub IsValid : M → Type 0
  pub view : M → View O
  pub make_lem :
      (m : M)
      → IsValid m
      → (view m).next + 1 < 2 ^ 31
      → Agrees IsValid view (make m) (ok ((view m).next, grown fresh (view m)))
  pub destroy_lem :
      (k : ℕ) (m : M) → IsValid m → Agrees IsValid view (destroy k m) (ok (tt, put k none (view m)))
  pub by_number_lem :
      {A : Type 0} (k : ℕ) (missing : A) (f : O → Outcome (A × O)) (m : M)
      → IsValid m
      → Agrees IsValid view (by_number k missing f m) (call_view k missing f (view m))
