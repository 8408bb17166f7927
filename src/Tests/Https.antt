-- ===== src/Tests/Https.antt =====
-- The theorem on the HTTP clients at concrete calls.
use server.Prelude.{ℕ, true, List, [], ◌∷◌, some}
use server.Prelude.Int.{pos}
use server.Lua.{string, table, LuaTable, done, entry}
use server.HttpClient.{Http, Request, new_mgr}
use server.HttpClient.Calls.{HttpCall, call_get, response}
use server.HttpClient.Answers.{HttpSystem}
use server.Msg.{ServiceMsg}
use server.Tests.Data.{echo_server}

abbrev idle : Http
idle = record { mgr = new_mgr; waiting = [] }

-- No request, and a server with one service.
abbrev start : HttpSystem
start = record { http = idle; server = echo_server }

-- {url = "h", headers = {a = "b"}}
abbrev arguments : LuaTable ℕ
arguments = entry (string (117 ∷ 114 ∷ 108 ∷ [])) (string (104 ∷ [])) (
    entry (string (104 ∷ 101 ∷ 97 ∷ 100 ∷ 101 ∷ 114 ∷ 115 ∷ []))
      (table (entry (string (97 ∷ [])) (string (98 ∷ [])) done)) done)

-- Two requests, an answer, a third request that gets the client of the first, one without a url, after
-- which its client is lost, and a second answer.
abbrev calls : List (HttpCall ℕ)
calls =
    call_get (pos 1) (table arguments) (some (pos 7)) true
    ∷ call_get (pos 2) (table arguments) (some (pos 7)) true
    ∷ response 0
    ∷ call_get (pos 3) (table arguments) (some (pos 8)) true
    ∷ call_get (pos 4) (table done) (some (pos 8)) true
    ∷ response 0
    ∷ []

-- What the callback writes does not matter here.
abbrev left : Request → ServiceMsg → ServiceMsg
left request m = m
