-- ===== src/HttpClient.antt =====
-- src/http/client/httpClientMgr.hpp and .cpp, and `httpGet` and `httpPost` of
-- src/http/client/luaHttpClient.cpp. An `ix::HttpClient*` is the number that the client was made with,
-- and none is ever deleted. The library's requests that are not answered yet are a part of the state;
-- what a callback writes into its message is in Msg/Fill, and the callback in HttpClient/Answers.
pub mod Pool
pub mod Answers
pub mod Calls
use server.Prelude.{
  ℕ, zero, suc, ◌+◌, ◌%◌, ◌^◌, Bool, true, false, List, [], ◌∷◌, ◌++◌, Option, none, some,
  if◌then◌else◌, Outcome, ok, blocks, fault, ◌>>=◌, ◌>>◌, return, get, modify, zoom,
}
use server.Prelude.Int.{ℤ}
use server.Prelude.Table.{Table, find, insert}
use server.Lua.{LuaValue, table, Result}
use server.Config.{Numbers}
use server.HttpRequest.{RequestArgs, no_args, is_empty, pack_request_args, pack_post}

pub record HttpClientMgr : Type 0 where
  pub free_clients : List ℕ
  pub clients : Table ℕ
  pub locked : Bool
  pub auto_id : ℕ

abbrev pub new_mgr : HttpClientMgr
new_mgr = record { free_clients = []; clients = []; locked = false; auto_id = 1 }

abbrev pub lock : HttpClientMgr → Outcome (Unit {0} × HttpClientMgr)
lock m = elim m.locked [ true ↦ blocks | false ↦ ok (tt, record m { locked = true }) ]

abbrev pub unlock : HttpClientMgr → Outcome (Unit {0} × HttpClientMgr)
unlock m = ok (tt, record m { locked = false })

-- `newClient`: the front of the free ones, or a new one.
unfoldable pub new_client : HttpClientMgr → Outcome (ℕ × HttpClientMgr)
new_client = do
  lock
  m ← get
  elim m.free_clients [
    | [] ↦ (do
      modify (λ m. record m {
        auto_id = (m.auto_id + 1) % 2 ^ 32;
        clients = insert m.auto_id m.auto_id m.clients;
      })
      unlock
      return m.auto_id)
    | id ∷ ids ↦ (do modify (λ m. record m { free_clients = ids }); unlock; return id)
  ]

unfoldable pub get_client : (id : ℕ) → HttpClientMgr → Outcome (Option ℕ × HttpClientMgr)
get_client id = do lock; m ← get; unlock; return (find id m.clients)

unfoldable pub destroy_client : (id : ℕ) → HttpClientMgr → Outcome (Unit {0} × HttpClientMgr)
destroy_client id = do
  lock
  m ← get
  elim (find id m.clients) [
    | none ↦ unlock
    | some client ↦ (do modify (λ m. record m { free_clients = m.free_clients ++ id ∷ [] }); unlock)
  ]

-- What is captured by the callback of a request.
pub record Request : Type 0 where
  pub session : ℤ
  pub service : ℤ
  pub client : ℕ

pub record Http : Type 0 where
  pub mgr : HttpClientMgr
  pub waiting : List Request

abbrev pub on_mgr {ℓ} :
    {A : Type ℓ} → (HttpClientMgr → Outcome (A × HttpClientMgr)) → Http → Outcome (A × Http)
on_mgr = zoom (λ h. h.mgr) (λ m h. record h { mgr = m })

-- From the test of the url on; `service` is what `luaL_checkinteger` reads of SERVICE_ID, `ret` what
-- the library's `performRequest` returns.
unfoldable pub perform :
    (id : ℕ) (session : ℤ) (service : Option ℤ) (ret : Bool)
    → RequestArgs
    → Http
    → Outcome (Result Bool × Http)
unfolding destroy_client
perform id session service ret request =
    if is_empty request.url then return (Result.ok false) else elim service [
      | none ↦ return Result.raise
      | some service ↦ elim ret [
        | true ↦ (do
          modify (λ h. record h {
            waiting =
                h.waiting ++ (record { session = session; service = service; client = id }) ∷ [];
          })
          return (Result.ok true))
        | false ↦ (do on_mgr (destroy_client id); return (Result.ok false))
      ]
    ]

-- What follows the reading of the arguments, where no error was raised.
abbrev pub packed :
    Result RequestArgs
    → (RequestArgs → Http → Outcome (Result Bool × Http))
    → Http
    → Outcome (Result Bool × Http)
packed (Result.ok request) f = f request
packed Result.raise f = return Result.raise
packed Result.undefined f = λ h. fault

-- A client is taken, and `createRequest` is called on it.
unfoldable pub with_client :
    (ℕ → Http → Outcome (Result Bool × Http)) → Http → Outcome (Result Bool × Http)
unfolding new_client get_client
with_client f = do
  id ← on_mgr new_client
  client ← on_mgr (get_client id)
  elim client [ none ↦ (λ h. fault) | some client ↦ f id ]

module _ {F G : Type 0} (n : Numbers F G) where
  unfoldable pub http_get :
      (session : ℤ) (arg : LuaValue F) (service : Option ℤ) (ret : Bool)
      → Http
      → Outcome (Result Bool × Http)
  unfolding with_client perform
  http_get session (table t) service ret =
      with_client (λ id. packed (pack_request_args n t no_args) (perform id session service ret))
  http_get session v service ret = return (Result.ok false)

  -- The form is made the body by the library.
  unfoldable pub http_post :
      (session : ℤ) (form arg : LuaValue F) (service : Option ℤ) (ret : Bool)
      → Http
      → Outcome (Result Bool × Http)
  unfolding with_client perform
  http_post session (table form) (table t) service ret =
      with_client (λ id. packed (pack_post n form t) (perform id session service ret))
  http_post session form arg service ret = return (Result.ok false)

-- The request at this place of those that wait, and the others.
abbrev pub take_at : List Request → ℕ → Option (Request × List Request)
take_at [] k = none
take_at (r ∷ rs) zero = some (r, rs)
take_at (r ∷ rs) (suc k) = elim (take_at rs k) [ none ↦ none | some (q, qs) ↦ some (q, r ∷ qs) ]

-- The end of a request's callback, after the message is sent: the client is given back, and the request
-- waits no more.
unfoldable pub finish_request : ℕ → Http → Outcome (Unit {0} × Http)
unfolding destroy_client
finish_request k h = elim (take_at h.waiting k) [
  | none ↦ ok (tt, h)
  | some (request, others) ↦ on_mgr (destroy_client request.client) (record h { waiting = others })
]
