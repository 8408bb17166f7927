-- ===== src/HttpClient/Answers.antt =====
-- src/http/client/luaHttpClient.cpp: the callback of a request, with the pool and the services that it
-- uses. What it writes into its message is in Msg/Fill and a parameter here.
use server.Prelude.{
  ℕ, ◌+◌, ◌≤◌, ◌≡◌, refl, ap, true, false, Option, none, some, List, Outcome, ok, blocks, fault,
  ◌>>=◌, ◌>>◌, return, zoom, EndsIn,
}
use server.Prelude.Int.{to_u32}
use server.Msg.{ServiceMsg}
use server.MsgPool.{MsgPool}
use server.MsgPool
use server.MsgPool.Laws.{front, rest}
use server.Server.{Server, on_pool, send}
use server.Server.Sound
use server.Server.Keeps.{send-Keeps}
use server.Server.Shutdown.{with_pool, popped, pop_taken}
use server.HttpClient.{Http, Request, take_at, finish_request}
use server.HttpClient.Pool.{IsSound, finish_request-KeepsUpTo}

pub record HttpSystem : Type 0 where
  pub http : Http
  pub server : Server

abbrev pub on_http {ℓ} :
    {A : Type ℓ} → (Http → Outcome (A × Http)) → HttpSystem → Outcome (A × HttpSystem)
on_http = zoom (λ c. c.http) (λ h c. record c { http = h })

abbrev pub on_server {ℓ} :
    {A : Type ℓ} → (Server → Outcome (A × Server)) → HttpSystem → Outcome (A × HttpSystem)
on_server = zoom (λ c. c.server) (λ s c. record c { server = s })

-- The library answers a request: the callback takes a message, sends it, and gives the client back.
unfoldable pub on_response :
    (fill : Request → ServiceMsg → ServiceMsg)
    → ℕ
    → HttpSystem
    → Outcome (Option Request × HttpSystem)
unfolding finish_request
on_response fill k c = elim (take_at c.http.waiting k) [
  | none ↦ ok (none, c)
  | some (request, others) ↦
      (do
        msg ← on_server (on_pool MsgPool.pop)
        on_server (send (to_u32 request.service) (fill request msg))
        on_http (finish_request k)
        return (some request))
        c
]

-- Both parts satisfy their invariants.
pub record IsSoundSystem (c : HttpSystem) : Type 0 where
  pub clients : IsSound c.http
  pub services : Sound.IsSound c.server

-- The callback has returned: it has counted no number up, and has taken the pool's mutex.
pub record Answered (c t : HttpSystem) : Type 0 where
  pub sound : IsSoundSystem t
  pub number : t.http.mgr.auto_id ≤ c.http.mgr.auto_id + 1
  pub taken : t.server.pool.locked ≡ true

ends_ok :
    (bound : ℕ) (o : Outcome (Unit {0} × Http))
    → EndsIn (λ r h. IsSound h × (h.mgr.auto_id ≤ bound)) o
    → (h : Http) × (o ≡ ok (tt, h)) × IsSound h × (h.mgr.auto_id ≤ bound)
ends_ok bound (ok (a, h)) (v, le) = (h, refl, v, le)
ends_ok bound blocks k = absurd k
ends_ok bound fault k = absurd k

-- The callback of a request that waits, where the pool is free and where it is taken.
pub on_response-free :
    (fill : Request → ServiceMsg → ServiceMsg) (k : ℕ) (request : Request) (others : List Request)
    (c : HttpSystem)
    → IsSoundSystem c
    → take_at c.http.waiting k ≡ some (request, others)
    → c.server.pool.locked ≡ false
    → (t : HttpSystem) × (on_response fill k c ≡ ok (some request, t)) × Answered c t
unfolding on_response
on_response-free fill k request others c v e free =
    let pool : MsgPool = record { locked = true; msgs = rest c.server.pool.msgs } in
    let (a, s, sends, w, steady) =
      send-Keeps (to_u32 request.service) (fill request (front c.server.pool.msgs))
        (record c.server { pool = pool }) (with_pool c.server pool v.services) in
    let (h, finishes, u, le) =
      ends_ok (c.http.mgr.auto_id + 1) (finish_request k c.http)
        (finish_request-KeepsUpTo k c.http v.clients) in
    (
      record { http = h; server = s },
      rw (on_response, e)
          (rw (popped c.server free, ◌>>=◌) (rw (sends, ◌>>◌) (rw (finishes, ◌>>◌) refl))),
      record {
        sound = record { clients = u; services = w };
        number = le;
        taken = ap (λ p. p.locked) steady.pool;
      },
    )

pub on_response-taken :
    (fill : Request → ServiceMsg → ServiceMsg) (k : ℕ) (request : Request) (others : List Request)
    (c : HttpSystem)
    → take_at c.http.waiting k ≡ some (request, others)
    → c.server.pool.locked ≡ true
    → on_response fill k c ≡ blocks
unfolding on_response
on_response-taken fill k request others c e u =
    rw (on_response, e) (rw (pop_taken c.server u, ◌>>=◌) refl)

pub on_response-none :
    (fill : Request → ServiceMsg → ServiceMsg) (k : ℕ) (c : HttpSystem)
    → take_at c.http.waiting k ≡ none
    → on_response fill k c ≡ ok (none, c)
unfolding on_response
on_response-none fill k c e = rw (on_response, e) refl

-- A request waits at this place.
abbrev pub IsWaiting : ℕ → Http → Type 0
IsWaiting k h =
    (request : Request) × (others : List Request) × (take_at h.waiting k ≡ some (request, others))
