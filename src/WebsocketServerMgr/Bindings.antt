-- ===== src/WebsocketServerMgr/Bindings.antt =====
-- src/websocket/server/luaWebsocketServer.cpp: the functions that Lua calls with a server's number.
-- What the callbacks that `listen` sets write into their messages is in Msg/Fill.
use server.Prelude.{
  ℕ, ◌%◌, ◌^◌, Bool, true, false, List, [], ◌∷◌, Option, none, if◌then◌else◌, ◌==◌, Outcome, ok,
}
use server.Prelude.Int.{ℤ, to_u32, to_u64}
use server.Lua.{LuaValue, integer, number, string}
use server.Msg.{c_str}
use server.Websocket.{
  WebsocketServer, set_on_connect_func, set_on_msg_func, set_on_close_func, listen, send, close_fd,
}
use server.WebsocketServerMgr.{WebsocketServerMgr, destroy_server, by_number}

-- `WebsocketDefaultHost` ("127.0.0.1") and `WebsocketMaxConnection`
abbrev pub default_host : List ℕ
default_host = 49 ∷ 50 ∷ 55 ∷ 46 ∷ 48 ∷ 46 ∷ 48 ∷ 46 ∷ 49 ∷ []

abbrev pub default_max_connection : ℕ
default_max_connection = 1000

-- The three callbacks.
abbrev pub set_funcs : WebsocketServer → WebsocketServer
set_funcs s = set_on_close_func true (set_on_msg_func true (set_on_connect_func true s))

-- `listen` on a server that is there, where the library answers with `listens`.
unfoldable pub listen_server : (listens : Bool) → WebsocketServer → Outcome (Bool × WebsocketServer)
unfolding listen
listen_server listens s =
    let (ret, t) = listen listens s in ok (ret, if ret then set_funcs t else t)

module _ {F : Type 0} (to_integer : F → ℤ) where
  -- The third argument, or the default.
  abbrev pub host_of : LuaValue F → List ℕ
  host_of (string s) = c_str s
  host_of _ = default_host

  -- The fourth argument as an `int`, where 0 stands for the default.
  abbrev pub max_connection_of : LuaValue F → ℕ
  max_connection_of (integer z) = if to_u32 z == 0 then default_max_connection else to_u32 z
  max_connection_of (number x) =
      if to_u32 (to_integer x) == 0 then default_max_connection else to_u32 (to_integer x)
  max_connection_of _ = default_max_connection

  -- The library's answer to a port (a `uint16_t`), a host and a number of connections.
  unfoldable pub listen_websocket_server :
      (listens : ℕ → List ℕ → ℕ → Bool) (id port : ℤ) (host max_connection : LuaValue F)
      → WebsocketServerMgr
      → Outcome (Bool × WebsocketServerMgr)
  unfolding by_number listen_server
  listen_websocket_server listens id port host max_connection = by_number (to_u32 id) false (
      listen_server
        (listens (to_u32 port % 2 ^ 16) (host_of host) (max_connection_of max_connection)))

unfoldable pub destroy_websocket_server :
    (id : ℤ) → WebsocketServerMgr → Outcome (Unit {0} × WebsocketServerMgr)
unfolding destroy_server
destroy_websocket_server id = destroy_server (to_u32 id)

unfoldable pub send_websocket_server :
    (deliver : ℕ → List ℕ → Bool) (id fd : ℤ)
    → List ℕ
    → WebsocketServerMgr
    → Outcome (Bool × WebsocketServerMgr)
unfolding by_number send
send_websocket_server deliver id fd text =
    by_number (to_u32 id) false (send deliver (to_u64 fd) text)

-- The session whose `close` is called, if any.
unfoldable pub close_websocket_server :
    (id fd : ℤ) → WebsocketServerMgr → Outcome (Option ℕ × WebsocketServerMgr)
unfolding by_number close_fd
close_websocket_server id fd = by_number (to_u32 id) none (close_fd (to_u64 fd))
