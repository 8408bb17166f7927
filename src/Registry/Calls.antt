-- ===== src/Registry/Calls.antt =====
-- Any calls of a manager's operations, one after another, and the same calls on the view.
use server.Prelude.{
  ℕ, ◌+◌, ◌^◌, ◌<◌, ◌≡◌, refl, ap, List, [], ◌∷◌, Outcome, ok, blocks, fault, ◌>>=◌, return, arith,
  none, some, Option-cases, inl, inr,
}
use server.Registry.{View, Registry, Agrees, put, grown, write_view, call_view}

-- A call by Lua: `new`, `destroy`, or a function on the object with a number.
pub data Call (O A : Type 0) : Type 0 where
  make_call : Call O A
  destroy_call : ℕ → Call O A
  object_call : ℕ → (missing : A) → (O → Outcome (A × O)) → Call O A

pub data Answer (A : Type 0) : Type 0 where
  made : ℕ → Answer A
  destroyed : Answer A
  returned : A → Answer A

-- How many of the calls make an object.
abbrev pub cost : {O A : Type 0} → Call O A → ℕ
cost make_call = 1
cost (destroy_call k) = 0
cost (object_call k missing f) = 0

abbrev pub makes : {O A : Type 0} → List (Call O A) → ℕ
makes [] = 0
makes (c ∷ calls) = cost c + makes calls

abbrev pub answer : {A B S : Type 0} → (A → Answer B) → Outcome (A × S) → Outcome (Answer B × S)
answer g (ok (a, s)) = ok (g a, s)
answer g blocks = blocks
answer g fault = fault

module _ {M O : Type 0} (reg : Registry M O) where
  answer-Agrees :
      {B C : Type 0} (g : B → Answer C) (x : Outcome (B × M)) (y : Outcome (B × View O))
      → Agrees reg.IsValid reg.view x y
      → Agrees reg.IsValid reg.view (answer g x) (answer g y)
  answer-Agrees g (ok (r, m)) (ok (q, v)) h = (ap g h.0, h.1, h.2)
  answer-Agrees g blocks blocks h = tt
  answer-Agrees g fault fault h = tt
  answer-Agrees g (ok x) blocks h = absurd h
  answer-Agrees g (ok x) fault h = absurd h
  answer-Agrees g blocks (ok y) h = absurd h
  answer-Agrees g blocks fault h = absurd h
  answer-Agrees g fault (ok y) h = absurd h
  answer-Agrees g fault blocks h = absurd h

  answer-ok :
      {B C : Type 0} (y : Outcome (B × View O)) (g : B → Answer C) (w : View O) (r : Answer C)
      → answer g y ≡ ok (r, w)
      → (a : B) × (y ≡ ok (a, w))
  answer-ok (ok (a, v)) g w r e = (a, let same : v ≡ w = cc in rw same refl)
  answer-ok blocks g w r e = cc
  answer-ok fault g w r e = cc

  -- Calls that agree, followed by what agrees.
  bind-Agrees :
      {B C : Type 0} (x : Outcome (B × M)) (y : Outcome (B × View O)) (f : B → M → Outcome (C × M))
      (g : B → View O → Outcome (C × View O))
      → Agrees reg.IsValid reg.view x y
      → ((r : B) (m : M)
          → y ≡ ok (r, reg.view m)
          → reg.IsValid m
          → Agrees reg.IsValid reg.view (f r m) (g r (reg.view m)))
      → Agrees reg.IsValid reg.view
          (elim x [ ok (r, m) ↦ f r m | blocks ↦ blocks | fault ↦ fault ])
          (elim y [ ok (q, v) ↦ g q v | blocks ↦ blocks | fault ↦ fault ])
  bind-Agrees (ok (r, m)) (ok (q, v)) f g h k = rw (← h.0, ← h.2) (k r m (rw (h.0, h.2) refl) h.1)
  bind-Agrees blocks blocks f g h k = tt
  bind-Agrees fault fault f g h k = tt
  bind-Agrees (ok x) blocks f g h k = absurd h
  bind-Agrees (ok x) fault f g h k = absurd h
  bind-Agrees blocks (ok y) f g h k = absurd h
  bind-Agrees blocks fault f g h k = absurd h
  bind-Agrees fault (ok y) f g h k = absurd h
  bind-Agrees fault blocks f g h k = absurd h

module _ {M O A : Type 0} (reg : Registry M O) where
  abbrev pub step : Call O A → M → Outcome (Answer A × M)
  step make_call m = answer made (reg.make m)
  step (destroy_call k) m = answer (λ _. destroyed) (reg.destroy k m)
  step (object_call k missing f) m = answer returned (reg.by_number k missing f m)

  abbrev pub step_view : Call O A → View O → Outcome (Answer A × View O)
  step_view make_call v = ok (made v.next, grown reg.fresh v)
  step_view (destroy_call k) v = ok (destroyed, put k none v)
  step_view (object_call k missing f) v = answer returned (call_view k missing f v)

  abbrev pub run : List (Call O A) → M → Outcome (List (Answer A) × M)
  run [] = return []
  run (c ∷ calls) = do a ← step c; later ← run calls; return (a ∷ later)

  abbrev pub replay : List (Call O A) → View O → Outcome (List (Answer A) × View O)
  replay [] = return []
  replay (c ∷ calls) = do a ← step_view c; later ← replay calls; return (a ∷ later)

  step-Agrees :
      (c : Call O A) (m : M)
      → reg.IsValid m
      → (reg.view m).next + cost c < 2 ^ 31
      → Agrees reg.IsValid reg.view (step c m) (step_view c (reg.view m))
  step-Agrees make_call m w b = answer-Agrees reg made _ _ (reg.make_lem m w b)
  step-Agrees (destroy_call k) m w b =
      answer-Agrees reg (λ _. destroyed) _ _ (reg.destroy_lem k m w)
  step-Agrees (object_call k missing f) m w b =
      answer-Agrees reg returned _ _ (reg.by_number_lem k missing f m w)

  write_view_next :
      (k : ℕ) (x : Outcome (A × O)) (v w : View O) (r : A)
      → write_view k v x ≡ ok (r, w)
      → w.next ≡ v.next
  write_view_next k (ok (q, p)) v w r e = let same : w ≡ put k (some p) v = cc in rw same refl
  write_view_next k blocks v w r e = cc
  write_view_next k fault v w r e = cc

  next_lem :
      (c : Call O A) (v w : View O) (r : Answer A)
      → step_view c v ≡ ok (r, w)
      → w.next ≡ v.next + cost c
  next_lem make_call v w r e = let p : w ≡ grown reg.fresh v = cc in rw p refl
  next_lem (destroy_call k) v w r e = let p : w ≡ put k none v = cc in rw p (omega arith)
  next_lem (object_call k missing f) v w r e =
      let (a, e) = answer-ok reg (call_view k missing f v) returned w r e in
      elim (Option-cases (v.object k)) [
        | inl gone ↦
            let same : ◌≡◌ {A = Outcome (A × View O)} (ok (missing, v)) (ok (a, w)) =
              rw (call_view, gone) at e in
            let same : w ≡ v = cc in rw same (omega arith)
        | inr (o, there) ↦
            let e : write_view k v (f o) ≡ ok (a, w) = rw (call_view, there) at e in
            omega (arith, write_view_next k (f o) v w a e)
      ]

  -- From a valid manager, any calls end as they do on its view, with the same answers, in a valid
  -- manager.
  pub run-Agrees :
      (calls : List (Call O A)) (m : M)
      → reg.IsValid m
      → (reg.view m).next + makes calls < 2 ^ 31
      → Agrees reg.IsValid reg.view (run calls m) (replay calls (reg.view m))
  run-Agrees [] m w b = (refl, w, refl)
  run-Agrees (c ∷ calls) m w b =
      bind-Agrees reg (step c m) (step_view c (reg.view m)) _ _ (step-Agrees c m w (omega arith))
        (λ r t e valid.
          bind-Agrees reg (run calls t) (replay calls (reg.view t)) _ _
            (run-Agrees calls t valid (omega (arith, next_lem c (reg.view m) (reg.view t) r e)))
            (λ later u f valid. (refl, valid, refl)))
