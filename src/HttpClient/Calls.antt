-- ===== src/HttpClient/Calls.antt =====
-- src/http/client: any sequence of calls of `httpGet` and `httpPost` and of answers of the library.
use server.Prelude.{
  ℕ, ◌+◌, ◌^◌, ◌≤◌, ◌<◌, ◌≡◌, ◌≢◌, refl, Bool, true, false, List, [], ◌∷◌, Option, none, some,
  Outcome, suc, ◌++◌, ◌⊎◌, ◌||◌, ltb, if◌then◌else◌, ok, blocks, fault, EndsIn,
}
use server.Prelude.Int.{ℤ}
use server.Prelude.Table.{find}
use server.Lua.{LuaValue, LuaTable, table, Result, undefined}
use server.Config.{Numbers}
use server.HttpRequest.{RequestArgs, is_empty, no_args, pack_request_args, pack_post}
use server.HttpClient.{Http, Request, perform, packed, http_get, http_post}
use server.HttpClient.Answers.{HttpSystem, IsSoundSystem, Answered, IsWaiting, on_http, on_response}
use server.Msg.{ServiceMsg}
use server.HttpClient.Pool.{IsSound, taken, uses}

-- A call from Lua with what it reads and the library's answer, or the answer to a request that waits.
pub data HttpCall (F : Type 0) : Type 0 where
  call_get : (session : ℤ) (arg : LuaValue F) (service : Option ℤ) (ret : Bool) → HttpCall F
  call_post : (session : ℤ) (form arg : LuaValue F) (service : Option ℤ) (ret : Bool) → HttpCall F
  response : ℕ → HttpCall F

-- The state alone.
abbrev forget : {A : Type 0} → Outcome (A × Http) → Outcome (Unit {0} × Http)
forget (ok (a, h)) = ok (tt, h)
forget blocks = blocks
forget fault = fault

-- A call that answers no request, and a callback, with whether it answers one.
abbrev quiet : Outcome (Unit {0} × HttpSystem) → Outcome (Bool × HttpSystem)
quiet (ok (a, c)) = ok (false, c)
quiet blocks = blocks
quiet fault = fault

abbrev told : Outcome (Option Request × HttpSystem) → Outcome (Bool × HttpSystem)
told (ok (none, c)) = ok (false, c)
told (ok (some request, c)) = ok (true, c)
told blocks = blocks
told fault = fault

abbrev one_if : Bool → ℕ
one_if b = if b then 1 else 0

abbrev add : Bool → Outcome (ℕ × HttpSystem) → Outcome (ℕ × HttpSystem)
add true (ok (n, c)) = ok (suc n, c)
add false (ok (n, c)) = ok (n, c)
add b blocks = blocks
add b fault = fault

module _ {F G : Type 0} (n : Numbers F G) where
  -- A call from Lua.
  abbrev pub lua_call : HttpCall F → Http → Outcome (Unit {0} × Http)
  lua_call (call_get session arg service ret) h = forget (http_get n session arg service ret h)
  lua_call (call_post session form arg service ret) h =
      forget (http_post n session form arg service ret h)
  lua_call (response k) h = ok (tt, h)

  -- No call gives something that is no table for the headers.
  abbrev pub HasTables : HttpCall F → Type 0
  HasTables (call_get session (table t) service ret) = pack_request_args n t no_args ≢ undefined
  HasTables (call_get session arg service ret) = Unit
  HasTables (call_post session (table form) (table t) service ret) = pack_post n form t ≢ undefined
  HasTables (call_post session form arg service ret) = Unit
  HasTables (response k) = Unit

  module _ (fill : Request → ServiceMsg → ServiceMsg) where
    -- Whether a request was answered.
    abbrev pub step : HttpCall F → HttpSystem → Outcome (Bool × HttpSystem)
    step (response k) c = told (on_response fill k c)
    step call c = quiet (on_http (lua_call call) c)

    -- How many requests were answered.
    unfoldable pub run_calls : List (HttpCall F) → HttpSystem → Outcome (ℕ × HttpSystem)
    run_calls [] c = ok (0, c)
    run_calls (call ∷ calls) c = elim (step call c) [
      | ok (answered, t) ↦ add answered (run_calls calls t)
      | blocks ↦ blocks
      | fault ↦ fault
    ]

    -- What one call does: it counts no answer and leaves the services, or it is the first answer, or it is
    -- one too many.
    data Stepped (call : HttpCall F) (c : HttpSystem) : Type 0 where
      silent :
          (t : HttpSystem)
          → step call c ≡ ok (false, t)
          → IsSoundSystem t
          → t.http.mgr.auto_id ≤ c.http.mgr.auto_id + 1
          → t.server ≡ c.server
          → Stepped call c
      answer :
          (t : HttpSystem)
          → step call c ≡ ok (true, t)
          → c.server.pool.locked ≡ false
          → Answered c t
          → Stepped call c
      stuck :
          (k : ℕ)
          → call ≡ response k
          → IsWaiting k c.http
          → c.server.pool.locked ≡ true
          → step call c ≡ blocks
          → Stepped call c

    -- All calls return, with at most one answer in all, or the callback for one that waits finds the
    -- pool's mutex taken.
    abbrev pub Runs : List (HttpCall F) → HttpSystem → Type 0
    Runs calls c =
        ((answers : ℕ) × (t : HttpSystem) × (run_calls calls c ≡ ok (answers, t))
          × IsSoundSystem t
          × (one_if c.server.pool.locked + answers ≤ 1)
          × (t.server.pool.locked ≡ (c.server.pool.locked || ltb 0 answers)))
        ⊎ ((before : List (HttpCall F)) × (k : ℕ) × (after : List (HttpCall F)) × (answers : ℕ)
            × (t : HttpSystem) × (calls ≡ before ++ response k ∷ after)
            × (run_calls before c ≡ ok (answers, t))
            × IsSoundSystem t
            × (one_if c.server.pool.locked + answers ≡ 1)
            × IsWaiting k t.http
            × (run_calls calls c ≡ blocks))

  -- On a sound pool whose next number does not wrap, a request whose arguments are read and have no url
  -- is refused, and its client is lost: it stays in the map, but is neither free nor used by a request.
  http_get_leaks :
      (session : ℤ) (t : LuaTable F) (service : Option ℤ) (ret : Bool) (request : RequestArgs)
      (h : Http)
      → IsSound h
      → h.mgr.auto_id + 1 < 2 ^ 32
      → pack_request_args n t no_args ≡ Result.ok request
      → is_empty request.url ≡ true
      → EndsIn
          (λ r h'.
            (r ≡ Result.ok false)
            × (id : ℕ) × (uses id h' ≡ 0)
            × (find id h'.mgr.clients ≡ some id))
          (http_get n session (table t) service ret h)
  unfolding http_get perform
  http_get_leaks session t service ret request h v low e no_url =
      let (id, h', held, le, same) = taken h v low in
      rw
        (
          http_get,
          same (λ id. packed (pack_request_args n t no_args) (perform id session service ret)),
          e,
          perform,
          no_url,
        )
        (refl, id, held.1, held.2)
