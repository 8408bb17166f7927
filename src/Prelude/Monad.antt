-- ===== src/Prelude/Monad.antt =====
-- What a call does to the state it works on. A C++ method that takes a `std::mutex` by a loop over
-- `try_lock` returns (`ok`), or never leaves the loop since nobody gives the mutex back (`blocks`).
-- `fault` is undefined behaviour: a null or freed pointer, or a write out of bounds.
use mathlib.Core.Path.{◌≡◌, refl}
use mathlib.Core.Option.{Option, none, some}

pub data Outcome {ℓ} (A : Type ℓ) : Type ℓ where
  ok : A → Outcome A
  blocks : Outcome A
  fault : Outcome A

infixl 5 ◌>>=◌ ◌>>◌
abbrev pub ◌>>=◌ {ℓ κ ι} :
    {S : Type ℓ} {A : Type κ} {B : Type ι}
    → (S → Outcome (A × S))
    → (A → S → Outcome (B × S))
    → S
    → Outcome (B × S)
◌>>=◌ m f s = elim (m s) [ ok (a, t) ↦ f a t | blocks ↦ blocks | fault ↦ fault ]

abbrev pub ◌>>◌ {ℓ ι} :
    {S : Type ℓ} {B : Type ι}
    → (S → Outcome (Unit {0} × S))
    → (S → Outcome (B × S))
    → S
    → Outcome (B × S)
◌>>◌ m k s = elim (m s) [ ok (a, t) ↦ k t | blocks ↦ blocks | fault ↦ fault ]

abbrev pub return {ℓ κ} : {S : Type ℓ} {A : Type κ} → A → S → Outcome (A × S)
return a s = ok (a, s)

abbrev pub get {ℓ} : {S : Type ℓ} → S → Outcome (S × S)
get s = ok (s, s)

abbrev pub modify {ℓ} : {S : Type ℓ} → (S → S) → S → Outcome (Unit {0} × S)
modify f s = ok (tt, f s)

-- An action on a part of the state.
abbrev pub zoom {ℓ κ ι} :
    {S : Type ℓ} {T : Type κ} {A : Type ι}
    → (S → T)
    → (T → S → S)
    → (T → Outcome (A × T))
    → S
    → Outcome (A × S)
zoom part put m s = elim (m (part s)) [
  | ok (a, t) ↦ ok (a, put t s)
  | blocks ↦ blocks
  | fault ↦ fault
]

-- The state in which an action ends, if it does.
abbrev pub EndsIn {ℓ κ} : {S : Type ℓ} {A : Type κ} → (A → S → Type 0) → Outcome (A × S) → Type 0
EndsIn P (ok (a, s)) = P a s
EndsIn P blocks = ⊥
EndsIn P fault = ⊥

-- A chain of options.
abbrev pub bind {ℓ κ} : {A : Type ℓ} {B : Type κ} → Option A → (A → Option B) → Option B
bind none f = none
bind (some a) f = f a

-- A chain of options that has a result has one of its first link; and chains nest either way.
pub bind_inv {ℓ κ} :
    {A : Type ℓ} {B : Type κ} (o : Option A) (f : A → Option B) (b : B)
    → bind o f ≡ some b
    → (a : A) × (o ≡ some a) × (f a ≡ some b)
bind_inv none f b h = cc
bind_inv (some a) f b h = (a, refl, h)

pub bind-bind {ℓ κ ι} :
    {A : Type ℓ} {B : Type κ} {C : Type ι} (o : Option A) (f : A → Option B) (g : B → Option C)
    → bind (bind o f) g ≡ bind o (λ a. bind (f a) g)
bind-bind none f g = refl
bind-bind (some a) f g = refl
