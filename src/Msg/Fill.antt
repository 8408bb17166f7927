-- ===== src/Msg/Fill.antt =====
-- How each handler fills a message that it popped from the pool. `none` is a write past the end of
-- the buffer. An id or session that comes from Lua is a `lua_Integer`, converted to 32 bits.
--   src/lua/luaApi.cpp (timer), src/service/luaService.cpp (send), src/http/client/luaHttpClient.cpp
--   (get, post), src/socket/tcp/server/luaTcpServer.cpp, src/socket/tcp/client/luaTcpClient.cpp and
--   src/websocket/server/luaWebsocketServer.cpp (the callbacks set after `listen` and `connect`)
use server.Prelude.{
  ℕ, ◌+◌, ◌-◌, ◌%◌, ◌^◌, zero, suc, Bool, true, false, Option, none, some, List, ltb, ◌==◌,
  if◌then◌else◌, length,
}
use server.Prelude.Int.{ℤ, pos, negsuc, to_u32}
use server.Msg.{ServiceMsg, ServiceMsgType, type_code, resize, copy_in}
use mathlib.Core.Option

-- `TcpMsgType` of src/define.hpp
pub data TcpMsgType : Type 0 where
  connect connect_error close msg : TcpMsgType

abbrev pub tcp_code : TcpMsgType → ℕ
tcp_code connect = 1
tcp_code connect_error = 2
tcp_code close = 3
tcp_code msg = 4

-- `WebsocketMsgType` of src/websocket/server/websocketServer.hpp
pub data WebsocketMsgType : Type 0 where
  ws_open ws_close ws_msg : WebsocketMsgType

abbrev pub ws_code : WebsocketMsgType → ℕ
ws_code ws_open = 1
ws_code ws_close = 2
ws_code ws_msg = 3

-- `dataLen`, a `resize` where `too_small` says so, and the `memcpy`.
unfoldable pub store_payload : Bool → List ℕ → ServiceMsg → Option ServiceMsg
store_payload too_small payload m =
    let room = if too_small then resize (length payload + 1) m.buffer else m.buffer in
    Option.map (λ b. record m { data_len = length payload; buffer = b }) (copy_in payload room)

-- The timer's handler.
unfoldable pub fill_timer : ℤ → ServiceMsg → ServiceMsg
fill_timer session m = record m {
  session = to_u32 session;
  msg_type = type_code ServiceMsgType.timer;
}

-- `sendService` after `pop`, up to `send`. The size is a `size_t`, so `size() - 1` wraps at 0.
unfoldable pub fill_send :
    (msg_type session : ℤ) (is_ok : Bool) (source : ℤ) → List ℕ → ServiceMsg → Option ServiceMsg
fill_send msg_type session is_ok source payload m =
    let m₁ = record m { msg_type = to_u32 msg_type; data_len = length payload; is_ok = is_ok } in
    let stored =
      if ltb 0 (length payload)
      then store_payload (ltb ((length m.buffer + 2 ^ 64 - 1) % 2 ^ 64) (length payload)) payload m₁
      else some m₁ in
    Option.map {A = ServiceMsg}
      (λ m₂. record m₂ { source = to_u32 source; session = to_u32 session }) stored

abbrev pub is_positive : ℤ → Bool
is_positive (pos zero) = false
is_positive (pos (suc n)) = true
is_positive (negsuc n) = false

-- `sendService` from the test of the type up to `send`: the message that is sent, made of the one that
-- the pool hands out, or nothing at all where the type is not positive, before a message is taken.
unfoldable pub send_service :
    (msg_type session : ℤ) (is_ok : Bool) (source : ℤ)
    → List ℕ
    → ServiceMsg
    → Option (Option ServiceMsg)
unfolding fill_send
send_service msg_type session is_ok source payload m =
    if is_positive msg_type then some (fill_send msg_type session is_ok source payload m) else none

-- The response of `httpGet`. The status code is an `int`.
unfoldable pub fill_http_get :
    (session status : ℤ) (body error : List ℕ) → ServiceMsg → Option ServiceMsg
fill_http_get session status body error m =
    let m₁ = record m {
      msg_type = type_code ServiceMsgType.http_client;
      session = to_u32 session;
      status = to_u32 status;
    } in
    Option.map {A = ServiceMsg} (λ m₂. record m₂ { error = error })
      (store_payload (ltb (length m.buffer) (length body + 1)) body m₁)

-- The response of `httpPost`: the length stays in a local variable.
unfoldable pub fill_http_post :
    (session status : ℤ) (body error : List ℕ) → ServiceMsg → Option ServiceMsg
fill_http_post session status body error m =
    let m₁ = record m {
      msg_type = type_code ServiceMsgType.http_client;
      session = to_u32 session;
      status = to_u32 status;
    } in
    let room =
      if ltb (length m.buffer) (length body + 1)
      then resize (length body + 1) m.buffer
      else m.buffer in
    let stored =
      if length body == 0
      then some m₁
      else Option.map (λ b. record m₁ { buffer = b }) (copy_in body room) in
    Option.map {A = ServiceMsg} (λ m₂. record m₂ { error = error }) stored

-- Connect and close callbacks of a TCP server.
unfoldable pub fill_tcp_server : TcpMsgType → (id : ℤ) (fd : ℕ) → ServiceMsg → ServiceMsg
fill_tcp_server event id fd m = record m {
  msg_type = type_code ServiceMsgType.tcp_server;
  status = tcp_code event;
  session = to_u32 id;
  fd = fd % 2 ^ 32;
}

unfoldable pub fill_tcp_server_msg : (id : ℤ) (fd : ℕ) → List ℕ → ServiceMsg → Option ServiceMsg
unfolding fill_tcp_server
fill_tcp_server_msg id fd payload m =
    store_payload (ltb (length m.buffer) (length payload)) payload (fill_tcp_server msg id fd m)

-- Connect and close callbacks of a TCP client, which leave `fd`.
unfoldable pub fill_tcp_client : TcpMsgType → (id : ℤ) → ServiceMsg → ServiceMsg
fill_tcp_client event id m = record m {
  msg_type = type_code ServiceMsgType.tcp_client;
  status = tcp_code event;
  session = to_u32 id;
}

unfoldable pub fill_tcp_client_error : (id : ℤ) → List ℕ → ServiceMsg → ServiceMsg
unfolding fill_tcp_client
fill_tcp_client_error id error m = record (fill_tcp_client connect_error id m) { error = error }

unfoldable pub fill_tcp_client_msg : (id : ℤ) → List ℕ → ServiceMsg → Option ServiceMsg
unfolding fill_tcp_client
fill_tcp_client_msg id payload m =
    store_payload (ltb (length m.buffer) (length payload)) payload (fill_tcp_client msg id m)

-- Open and close callbacks of a websocket server.
unfoldable pub fill_websocket : WebsocketMsgType → (id : ℤ) (fd : ℕ) → ServiceMsg → ServiceMsg
fill_websocket event id fd m = record m {
  msg_type = type_code ServiceMsgType.websocket_server;
  status = ws_code event;
  session = to_u32 id;
  fd = fd % 2 ^ 32;
}

unfoldable pub fill_websocket_msg : (id : ℤ) (fd : ℕ) → List ℕ → ServiceMsg → Option ServiceMsg
unfolding fill_websocket
fill_websocket_msg id fd payload m =
    store_payload (ltb (length m.buffer) (length payload)) payload (fill_websocket ws_msg id fd m)
