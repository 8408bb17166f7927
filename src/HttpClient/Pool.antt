-- ===== src/HttpClient/Pool.antt =====
-- src/http/client/httpClientMgr.cpp: the invariant of the pool of clients with the requests that wait.
use server.Prelude.{
  ℕ, zero, suc, ◌+◌, ◌%◌, ◌^◌, ◌≤◌, ◌<◌, ◌≡◌, ◌≢◌, ◌⊎◌, refl, Bool, true, false, List, [], ◌∷◌,
  ◌++◌, Option, none, some, if◌then◌else◌, ◌==◌, Outcome, ok, blocks, fault, ◌>>=◌, ◌>>◌, zoom,
  EndsIn, Option-cases, Bool-cases, inl, inr, arith,
}
use server.Prelude.Int.{ℤ}
use server.Prelude.Table.{find, insert, find-insert}
use server.Lua.{Result, raise, undefined}
use server.HttpRequest.{RequestArgs, is_empty}
use server.HttpClient.{
  Http, Request, on_mgr, new_client, get_client, destroy_client, with_client, perform, packed,
  take_at, finish_request,
}

abbrev count : ℕ → List ℕ → ℕ
count k [] = 0
count k (x ∷ xs) = let rest = count k xs in if x == k then suc rest else rest

abbrev waits : ℕ → List Request → ℕ
waits k [] = 0
waits k (r ∷ rs) = let rest = waits k rs in if r.client == k then suc rest else rest

-- How often this client is free or used by a request that waits.
abbrev pub uses : ℕ → Http → ℕ
uses k h = count k h.mgr.free_clients + waits k h.waiting

pub record IsSound (h : Http) : Type 0 where
  pub unlocked : h.mgr.locked ≡ false
  pub once : (k : ℕ) → uses k h ≤ 1
  pub made : (k : ℕ) → 0 < uses k h → find k h.mgr.clients ≡ some k
  pub fresh : (k : ℕ) → h.mgr.auto_id ≤ k → find k h.mgr.clients ≡ none

-- A client that is neither free nor used by a request that waits.
abbrev pub IsHeld : ℕ → Http → Type 0
IsHeld id h = IsSound h × (uses id h ≡ 0) × (find id h.mgr.clients ≡ some id)

List-cases {ℓ} : {A : Type ℓ} (xs : List A) → (xs ≡ []) ⊎ ((y : A) × (ys : List A) × (xs ≡ y ∷ ys))
List-cases [] = inl refl
List-cases (y ∷ ys) = inr (y, ys, refl)

count-append :
    (k x : ℕ) (xs : List ℕ) → count k (xs ++ x ∷ []) ≡ count k xs + (if x == k then 1 else 0)
count-append k x [] = ground arith
count-append k x (y ∷ ys) = ground (arith, count-append k x ys)

waits-append :
    (k : ℕ) (r : Request) (rs : List Request)
    → waits k (rs ++ r ∷ []) ≡ waits k rs + (if r.client == k then 1 else 0)
waits-append k r [] = ground arith
waits-append k r (q ∷ qs) = ground (arith, waits-append k r qs)

waits-take_at :
    (k i : ℕ) (rs qs : List Request) (r : Request)
    → take_at rs i ≡ some (r, qs)
    → waits k rs ≡ waits k qs + (if r.client == k then 1 else 0)
waits-take_at k i [] qs r h = cc
waits-take_at k zero (q ∷ rs) qs r h =
    let a : q ≡ r = cc in let b : rs ≡ qs = cc in rw (a, b) (ground arith)
waits-take_at k (suc i) (q ∷ rs) qs r h = elim (Option-cases (take_at rs i)) [
  | inl e ↦ let h : ◌≡◌ {A = Option (Request × List Request)} none (some (r, qs)) = rw e at h in cc
  | inr (p, e) ↦
      let h : ◌≡◌ {A = Option (Request × List Request)} (some (p.0, q ∷ p.1)) (some (r, qs)) =
        rw e at h in
      let a : p.0 ≡ r = cc in
      let b : q ∷ p.1 ≡ qs = cc in
      let rest = waits-take_at k i rs p.1 p.0 e in rw (← b, ← a) (ground arith)
]

unused : (h : Http) → IsSound h → uses h.mgr.auto_id h ≡ 0
unused h v = grind (arith, v.made h.mgr.auto_id, v.fresh h.mgr.auto_id (omega arith))

abbrev pub IsTaken : Http → Type 0
IsTaken h =
    (id : ℕ) × (h' : Http) × IsHeld id h'
    × (h'.mgr.auto_id ≤ h.mgr.auto_id + 1)
    × ((f : ℕ → Http → Outcome (Result Bool × Http)) → with_client f h ≡ f id h')

take_new : (h : Http) → IsSound h → h.mgr.auto_id + 1 < 2 ^ 32 → h.mgr.free_clients ≡ [] → IsTaken h
unfolding with_client new_client get_client
take_new h v low none_free =
    let a = h.mgr.auto_id in
    let next : (a + 1) % 2 ^ 32 ≡ a + 1 = omega arith in
    let found : (k : ℕ)
        → find k (insert a a h.mgr.clients) ≡ (if a == k then some a else find k h.mgr.clients) =
      λ k. find-insert a k a h.mgr.clients (v.fresh a (omega arith)) in
    let here : find a (insert a a h.mgr.clients) ≡ some a = ground (arith, found a) in
    let h' : Http = record h {
      mgr = record {
        free_clients = h.mgr.free_clients;
        auto_id = (a + 1) % 2 ^ 32;
        clients = insert a a h.mgr.clients;
        locked = false;
      };
    } in
    (
      a,
      h',
      (
        record {
          unlocked = refl;
          once = v.once;
          made = λ k used. ground (arith, found k, v.made k used);
          fresh = λ k le. ground (arith, found k, v.fresh k (omega arith));
        },
        unused h v,
        here,
      ),
      omega arith,
      λ f. rw (v.unlocked, none_free, ◌>>=◌, get_client, here) refl,
    )

take_old :
    (h : Http) (id : ℕ) (ids : List ℕ) → IsSound h → h.mgr.free_clients ≡ id ∷ ids → IsTaken h
unfolding with_client new_client get_client
take_old h id ids v free =
    let h' : Http = record h {
      mgr = record {
        free_clients = ids;
        auto_id = h.mgr.auto_id;
        clients = h.mgr.clients;
        locked = false;
      };
    } in
    let total : (k : ℕ) → uses k h ≡ uses k h' + (if id == k then 1 else 0) =
      λ k. rw free (ground arith) in
    let here : find id h.mgr.clients ≡ some id = v.made id (ground (arith, total id)) in
    (
      id,
      h',
      (
        record {
          unlocked = refl;
          once = λ k. ground (arith, total k, v.once k);
          made = λ k used. v.made k (ground (arith, total k));
          fresh = v.fresh;
        },
        ground (arith, total id, v.once id),
        here,
      ),
      omega arith,
      λ f. rw (v.unlocked, free, ◌>>=◌, get_client, here) refl,
    )

-- A client that nobody uses is taken.
pub taken : (h : Http) → IsSound h → h.mgr.auto_id + 1 < 2 ^ 32 → IsTaken h
taken h v low = elim (List-cases h.mgr.free_clients) [
  | inl e ↦ take_new h v low e
  | inr (id, ids, e) ↦ take_old h id ids v e
]

-- A client that nobody uses is given back.
gives_back :
    (id : ℕ) (h : Http)
    → IsHeld id h
    → (h' : Http) × IsSound h'
      × (h'.mgr.auto_id ≡ h.mgr.auto_id)
      × (on_mgr (destroy_client id) h ≡ ok (tt, h'))
unfolding destroy_client
gives_back id h (v, none_uses, here) =
    let total : (k : ℕ)
        → count k (h.mgr.free_clients ++ id ∷ [])
          ≡ count k h.mgr.free_clients + (if id == k then 1 else 0) =
      λ k. count-append k id h.mgr.free_clients in
    (
      record h {
        mgr = record {
          free_clients = h.mgr.free_clients ++ id ∷ [];
          auto_id = h.mgr.auto_id;
          clients = h.mgr.clients;
          locked = false;
        };
      },
      record {
        unlocked = refl;
        once = λ k. ground (arith, total k, v.once k);
        made = λ k used. ground (arith, total k, v.made k);
        fresh = v.fresh;
      },
      refl,
      rw (v.unlocked, zoom, destroy_client, here) refl,
    )

-- The call returns or raises, the pool is sound after it and has this next number.
abbrev Keeps {ℓ} : {A : Type ℓ} → ℕ → Outcome (A × Http) → Type 0
Keeps n o = EndsIn (λ r h. IsSound h × (h.mgr.auto_id ≡ n)) o

-- What follows on a request with a url.
abbrev asked : ℕ → ℤ → Option ℤ → Bool → Http → Outcome (Result Bool × Http)
asked id session service ret =
    perform id session service ret (record { url = 0 ∷ []; extra_headers = [] })

requested :
    (id : ℕ) (session : ℤ) (service : Option ℤ) (ret : Bool) (h : Http)
    → IsHeld id h
    → Keeps h.mgr.auto_id (asked id session service ret h)
unfolding perform
requested id session none ret h held = (held.0, refl)
requested id session (some service) false h held =
    let (h', v, same, e) = gives_back id h held in rw (perform, ◌>>◌, e) (v, same)
requested id session (some service) true h (v, none_uses, here) =
    let total : (k : ℕ)
        → waits k (h.waiting ++ (record { session = session; service = service; client = id }) ∷ [])
          ≡ waits k h.waiting + (if id == k then 1 else 0) =
      λ k.
        waits-append k (record { session = session; service = service; client = id }) h.waiting in
    (
      record {
        unlocked = v.unlocked;
        once = λ k. ground (arith, total k, v.once k);
        made = λ k used. ground (arith, total k, v.made k);
        fresh = v.fresh;
      },
      refl,
    )

perform-Keeps :
    (id : ℕ) (session : ℤ) (service : Option ℤ) (ret : Bool) (request : RequestArgs) (h : Http)
    → IsHeld id h
    → Keeps h.mgr.auto_id (perform id session service ret request h)
unfolding perform
perform-Keeps id session service ret request h held = elim (Bool-cases (is_empty request.url)) [
  | inl e ↦ rw e (held.0, refl)
  | inr e ↦ rw e (requested id session service ret h held)
]

abbrev pub KeepsUpTo {ℓ} : {A : Type ℓ} → ℕ → Outcome (A × Http) → Type 0
KeepsUpTo n o = EndsIn (λ r h. IsSound h × (h.mgr.auto_id ≤ n)) o

Keeps-weaken {ℓ} :
    {A : Type ℓ} (m n : ℕ) (o : Outcome (A × Http)) → m ≤ n → Keeps m o → KeepsUpTo n o
Keeps-weaken m n (ok (a, h)) le (v, same) = (v, omega arith)
Keeps-weaken m n blocks le k = k
Keeps-weaken m n fault le k = k

packed-Keeps :
    (r : Result RequestArgs) (id : ℕ) (session : ℤ) (service : Option ℤ) (ret : Bool) (h : Http)
    → r ≢ undefined
    → IsHeld id h
    → Keeps h.mgr.auto_id (packed r (perform id session service ret) h)
packed-Keeps (Result.ok request) id session service ret h fine held =
    perform-Keeps id session service ret request h held
packed-Keeps raise id session service ret h fine held = (held.0, refl)
packed-Keeps undefined id session service ret h fine held = absurd (fine refl)

pub request-KeepsUpTo :
    (r : Result RequestArgs) (session : ℤ) (service : Option ℤ) (ret : Bool) (h : Http)
    → IsSound h
    → h.mgr.auto_id + 1 < 2 ^ 32
    → r ≢ undefined
    → KeepsUpTo
        (h.mgr.auto_id + 1)
        (with_client (λ id. packed r (perform id session service ret)) h)
request-KeepsUpTo r session service ret h v low fine =
    let (id, h', held, le, same) = taken h v low in
    rw (same (λ id. packed r (perform id session service ret))) (
      Keeps-weaken h'.mgr.auto_id (h.mgr.auto_id + 1) (packed r (perform id session service ret) h')
        le (packed-Keeps r id session service ret h' fine held))

pub finish_request-KeepsUpTo :
    (k : ℕ) (h : Http) → IsSound h → KeepsUpTo (h.mgr.auto_id + 1) (finish_request k h)
unfolding finish_request
finish_request-KeepsUpTo k h v = elim (Option-cases (take_at h.waiting k)) [
  | inl e ↦ rw (finish_request, e) (v, omega arith)
  | inr (p, e) ↦
      let r = p.0 in
      let total : (j : ℕ) → waits j h.waiting ≡ waits j p.1 + (if r.client == j then 1 else 0) =
        λ j. waits-take_at j k h.waiting p.1 r e in
      let rest : Http = record h { waiting = p.1 } in
      let rest-IsSound : IsSound rest = record {
        unlocked = v.unlocked;
        once = λ j. ground (arith, total j, v.once j);
        made = λ j used. v.made j (ground (arith, total j));
        fresh = v.fresh;
      } in
      let held : IsHeld r.client rest = (
        rest-IsSound,
        ground (arith, total r.client, v.once r.client),
        v.made r.client (ground (arith, total r.client)),
      ) in
      let (h', w, same, g) = gives_back r.client rest held in
      rw (finish_request, e, g) (w, omega arith)
]
