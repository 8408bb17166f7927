-- ===== src/TcpServerMgr/Bindings.antt =====
-- src/socket/tcp/server/luaTcpServer.cpp: the functions that Lua calls with a server's number, which is
-- an integer already. What the callbacks that `listen` sets write into their messages is in Msg/Fill.
use server.Prelude.{
  ℕ, Bool, true, false, List, [], ◌∷◌, Option, none, some, if◌then◌else◌, Outcome, ok, fault, ◌>>=◌,
  return,
}
use server.Prelude.Int.{ℤ, to_u32, to_u64}
use server.Lua.{LuaValue, string}
use server.Msg.{c_str}
use server.TcpServer.{
  TcpServer, TcpEvent, Network, RemoteInfo, set_funcs, listen, send, close,
  get_remote_info_tcp_server,
}
use server.TcpServerMgr.{TcpServerMgr, destroy_server, by_number}

-- `TcpServerDefaultHost` ("127.0.0.1")
abbrev pub default_host : List ℕ
default_host = 49 ∷ 50 ∷ 55 ∷ 46 ∷ 48 ∷ 46 ∷ 48 ∷ 46 ∷ 49 ∷ []

-- `listen` on a server that is there; the library takes the endpoint, or throws.
unfoldable pub listen_server : (takes : Bool) → TcpServer → Outcome (Bool × TcpServer)
unfolding listen
listen_server takes s =
    let (ret, t) = listen s in
    if ret then (if takes then ok (true, set_funcs t) else fault) else ok (false, s)

-- The third argument, or the default.
abbrev pub host_of : {F : Type 0} → LuaValue F → List ℕ
host_of (string s) = c_str s
host_of _ = default_host

-- `takes` is the library's answer to a port (the bits of an `int32_t`) and a host.
unfoldable pub listen_tcp_server :
    {F : Type 0} (takes : ℕ → List ℕ → Bool) (id port : ℤ) (host : LuaValue F)
    → TcpServerMgr
    → Outcome (Bool × TcpServerMgr)
unfolding by_number listen_server
listen_tcp_server takes id port host =
    by_number (to_u32 id) false (listen_server (takes (to_u32 port) (host_of host)))

unfoldable pub destroy_tcp_server : (id : ℤ) → TcpServerMgr → Outcome (Unit {0} × TcpServerMgr)
unfolding destroy_server
destroy_tcp_server id = destroy_server (to_u32 id)

unfoldable pub send_tcp_server :
    Network → (id fd : ℤ) → List ℕ → TcpServerMgr → Outcome ((Bool × List TcpEvent) × TcpServerMgr)
unfolding by_number send
send_tcp_server network id fd text =
    by_number (to_u32 id) (false, []) (send network (to_u64 fd) text)

unfoldable pub close_tcp_server :
    (id fd : ℤ) → TcpServerMgr → Outcome (List TcpEvent × TcpServerMgr)
unfolding by_number close
close_tcp_server id fd = by_number (to_u32 id) [] (close (to_u64 fd))

-- none where nothing is returned.
unfoldable pub get_remote_info :
    Network → (id fd : ℤ) → TcpServerMgr → Outcome (Option RemoteInfo × TcpServerMgr)
unfolding by_number get_remote_info_tcp_server
get_remote_info network id fd =
    by_number (to_u32 id) none
      (do info ← get_remote_info_tcp_server network (to_u64 fd); return (some info))
