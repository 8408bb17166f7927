-- ===== src/Tests/Registries.antt =====
-- The managers that are registries at concrete calls.
use server.Prelude.{Bool, ◌≡◌, refl, true, false, List, [], ◌∷◌, arith, ok}
use server.Prelude.Int.{pos, to_u32}
use server.Prelude.Table.{find, insert, erase, assign}
use server.Lua.{nil}
use server.Websocket.{WebsocketServer, new_server, listen}
use server.WebsocketServerMgr.{WebsocketServerMgr}
use server.WebsocketServerMgr
use server.WebsocketServerMgr.Bindings.{listen_server, listen_websocket_server}
use server.TcpServer.{TcpServer, TcpEvent, close}
use server.TcpServerMgr
use server.Registry.{Agrees}
use server.Registry.Calls.{
  Call, make_call, destroy_call, object_call, made, destroyed, returned, run, replay,
}
use server.Registry.Links.{empty-IsLinked}
use server.Registry.Websockets.{websockets, websockets-Agrees}
use server.Registry.Websockets
use server.Registry.TcpServers.{tcp_servers, tcp_servers-Agrees}
use server.Registry.TcpServers

abbrev listening : List (Call WebsocketServer Bool)
listening =
    make_call
    ∷ object_call 1 false (listen_server true)
    ∷ object_call 1 false (listen_server true)
    ∷ destroy_call 1
    ∷ object_call 1 false (listen_server true)
    ∷ []

-- One server.
abbrev one_made : WebsocketServerMgr
one_made = record {
  servers = (1, 1) ∷ [];
  locked = false;
  auto_id = 2;
  heap = (1, new_server) ∷ [];
}

websockets-Agrees_example :
    Agrees Websockets.IsValid Websockets.view
      (run websockets listening WebsocketServerMgr.new_mgr)
      (replay websockets listening (Websockets.view WebsocketServerMgr.new_mgr))
websockets-Agrees_example =
    websockets-Agrees listening WebsocketServerMgr.new_mgr (refl, empty-IsLinked 1) (omega arith)

-- A second `listen` fails, and so does a call after `destroy`.
listening_answers :
    (m : WebsocketServerMgr) × (run websockets listening WebsocketServerMgr.new_mgr
      ≡ ok (made 1 ∷ returned true ∷ returned false ∷ destroyed ∷ returned false ∷ [], m))
unfolding WebsocketServerMgr.make_server WebsocketServerMgr.destroy_server
    WebsocketServerMgr.by_number WebsocketServerMgr.get_server WebsocketServerMgr.on_server
    WebsocketServerMgr.lock WebsocketServerMgr.unlock listen_server listen find insert erase assign
listening_answers = (_, refl)

-- A server closes a connection that it does not have, and reports nothing without its callbacks.
abbrev closing : List (Call TcpServer (List TcpEvent))
closing = make_call ∷ object_call 1 [] (close 7) ∷ destroy_call 2 ∷ []

tcp_servers-Agrees_example :
    Agrees TcpServers.IsValid TcpServers.view
      (run tcp_servers closing TcpServerMgr.new_mgr)
      (replay tcp_servers closing (TcpServers.view TcpServerMgr.new_mgr))
tcp_servers-Agrees_example =
    tcp_servers-Agrees closing TcpServerMgr.new_mgr (refl, empty-IsLinked 1) (omega arith)

-- By a Lua number, with defaults: 4294967297 is 1 as an `int32_t`.
listen_wraps :
    (m : WebsocketServerMgr) × (listen_websocket_server {F = Unit {0}}
        (λ u. pos 0)
        (λ port host max. true)
        (pos 4294967297)
        (pos 80)
        nil
        nil
        one_made
      ≡ ok (true, m))
unfolding listen_websocket_server to_u32 WebsocketServerMgr.by_number WebsocketServerMgr.get_server
    WebsocketServerMgr.on_server WebsocketServerMgr.lock WebsocketServerMgr.unlock listen_server
    listen find assign
listen_wraps = (_, refl)
