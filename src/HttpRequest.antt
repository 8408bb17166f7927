-- ===== src/HttpRequest.antt =====
-- src/http/client/luaHttpClient.cpp: `packRequestArgs`, and the form of `httpPost`, whose text the
-- library makes.
use server.Prelude.{ℕ, Bool, true, false, List, [], ◌∷◌, ◌++◌, if◌then◌else◌}
use server.Prelude.Dict.{same_text}
use server.Lua.{LuaValue, table, LuaTable, done, entry, Result, ok, undefined, ◌>>=◌}
use server.Config.{Numbers, check_key, check_string}

-- `HttpRequestArgs` as far as the code writes it.
pub record RequestArgs : Type 0 where
  pub url : List ℕ
  pub extra_headers : List (List ℕ × List ℕ)

abbrev pub no_args : RequestArgs
no_args = record { url = []; extra_headers = [] }

abbrev pub is_empty : List ℕ → Bool
is_empty [] = true
is_empty (c ∷ cs) = false

module _ {F G : Type 0} (n : Numbers F G) where
  -- The loop over headers or over a form. A key that is a number is made a text in place, and the
  -- next step of the iteration raises an error.
  unfoldable pub pack_pairs : LuaTable F → List (List ℕ × List ℕ) → Result (List (List ℕ × List ℕ))
  pack_pairs done pairs = ok pairs
  pack_pairs (entry k v t) pairs =
      check_key k
      >>= (λ key. check_string n v >>= (λ value. pack_pairs t (pairs ++ (key, value) ∷ [])))

  -- "headers" and "url"
  abbrev pub headers_key : List ℕ
  headers_key = 104 ∷ 101 ∷ 97 ∷ 100 ∷ 101 ∷ 114 ∷ 115 ∷ []

  abbrev pub url_key : List ℕ
  url_key = 117 ∷ 114 ∷ 108 ∷ []

  -- `lua_next` on a value that is no table is undefined.
  abbrev pub pack_headers : LuaValue F → RequestArgs → Result RequestArgs
  pack_headers (table t) request =
      pack_pairs t request.extra_headers
      >>= (λ pairs. ok (record request { extra_headers = pairs }))
  pack_headers _ request = undefined

  -- One entry of the request's table.
  unfoldable pub pack_entry : List ℕ → LuaValue F → RequestArgs → Result RequestArgs
  unfolding pack_pairs
  pack_entry key v request =
      if same_text key headers_key
      then pack_headers v request
      else if same_text key url_key
      then check_string n v >>= (λ url. ok (record request { url = url }))
      else ok request

  unfoldable pub pack_request_args : LuaTable F → RequestArgs → Result RequestArgs
  unfolding pack_entry
  pack_request_args done request = ok request
  pack_request_args (entry k v t) request =
      check_key k >>= (λ key. pack_entry key v request >>= (λ packed. pack_request_args t packed))

  -- The form of `httpPost` is read, and then the request's table.
  unfoldable pub pack_post : (form t : LuaTable F) → Result RequestArgs
  unfolding pack_pairs pack_request_args
  pack_post form t = pack_pairs form [] >>= (λ pairs. pack_request_args t no_args)
