-- ===== src/Msg/Delivery.antt =====
-- What Lua sees of a message that a handler filled: the payload, whole, whatever the size of the
-- buffer that the pool handed out.
use server.Prelude.{
  ℕ, ◌+◌, ◌-◌, ◌%◌, ◌^◌, ◌≤◌, ◌<◌, ◌≡◌, ◌⊎◌, inl, inr, zero, suc, refl, Bool, false, Option, none,
  some, List, [], ◌∷◌, ◌++◌, ltb, length, drop, arith,
}
use server.Prelude.Int.{ℤ, pos, negsuc, to_u32}
use server.Msg.{ServiceMsg, LuaMsg, lua_view, reset, c_str, signed32, IsReset}
use server.Msg.Fill.{
  fill_timer, fill_send, send_service, fill_http_get, fill_http_post, fill_tcp_server_msg,
  fill_tcp_client_msg, fill_websocket_msg,
}
use server.Msg.Payload.{
  room, store_payload_lem, room_below, room_below_suc, room_send, lua_view_lem, Delivers,
  Delivers-stored, Delivers-eq, copy_in_lem,
}

-- What Lua sees of a payload that a socket of kind `type` received.
abbrev pub socket_msg : (type status session fd : ℕ) → List ℕ → LuaMsg
socket_msg type status session fd payload = record {
  msg_type = type;
  session = session;
  source = 0;
  bytes = payload;
  error = [];
  status = pos status;
  fd = fd;
  is_ok = false;
}

-- The message callbacks of TCP servers, TCP clients and websocket servers deliver exactly the bytes
-- received, under the server's or client's id and the connection's number modulo 2 ^ 32 (a client
-- leaves the number that the message has), from any message that was reset.
pub socket_payload_delivered :
    (id : ℤ) (fd : ℕ) (payload : List ℕ) (m : ServiceMsg)
    → IsReset m
    → Delivers
        (fill_tcp_server_msg id fd payload m)
        (socket_msg 8 4 (to_u32 id) (fd % 2 ^ 32) payload)
      × Delivers (fill_tcp_client_msg id payload m) (socket_msg 9 4 (to_u32 id) m.fd payload)
      × Delivers
          (fill_websocket_msg id fd payload m)
          (socket_msg 6 3 (to_u32 id) (fd % 2 ^ 32) payload)
unfolding fill_tcp_server_msg fill_tcp_client_msg fill_websocket_msg c_str
socket_payload_delivered id fd payload m r = (
  Delivers-eq (ground arith) (Delivers-stored _ payload _ (room_below payload m)),
  Delivers-eq (ground arith) (Delivers-stored _ payload _ (room_below payload m)),
  Delivers-eq (ground arith) (Delivers-stored _ payload _ (room_below payload m)),
)

fill_send_lem :
    (type session : ℤ) (is_ok : Bool) (source : ℤ) (payload : List ℕ) (m : ServiceMsg)
    → IsReset m
    → 0 < length m.buffer
    → length m.buffer < 2 ^ 64
    → Delivers (fill_send type session is_ok source payload m) (record {
      msg_type = to_u32 type;
      session = to_u32 session;
      source = to_u32 source;
      bytes = payload;
      error = [];
      status = pos 0;
      fd = m.fd;
      is_ok = is_ok;
    })
unfolding fill_send c_str lua_view
fill_send_lem type session is_ok source [] m r h k = (_, refl, ground arith)
fill_send_lem type session is_ok source (x ∷ xs) m r h k = (
  record named { source = to_u32 source; session = to_u32 session; buffer = x ∷ xs ++ rest },
  ground (arith, store_payload_lem too_small (x ∷ xs) named fits),
  ground (
    arith,
    lua_view_lem (record named { source = to_u32 source; session = to_u32 session }) (x ∷ xs) rest,
  ),
)
  where
    named : ServiceMsg
    named = record m { msg_type = to_u32 type; data_len = length (x ∷ xs); is_ok = is_ok }

    too_small : Bool
    too_small = ltb ((length m.buffer + 2 ^ 64 - 1) % 2 ^ 64) (length (x ∷ xs))

    fits : length (x ∷ xs) ≤ length (room too_small (x ∷ xs) m)
    fits = room_send (x ∷ xs) m h k

    rest : List ℕ
    rest = drop (length (x ∷ xs)) (room too_small (x ∷ xs) m)

-- A message of a positive type that another service sends arrives with its bytes, type, session, flag
-- and sender, from any message that was reset and whose buffer is not empty, and nothing is written past
-- the buffer; for a type of 0 or below no message is taken or sent.
pub send_delivered :
    (type session : ℤ) (is_ok : Bool) (source : ℤ) (payload : List ℕ) (m : ServiceMsg)
    → IsReset m
    → 0 < length m.buffer
    → length m.buffer < 2 ^ 64
    → ((k : ℕ) × (type ≡ pos (suc k))
        × (sent : Option ServiceMsg) × (send_service type session is_ok source payload m
            ≡ some sent)
        × Delivers sent (record {
          msg_type = to_u32 type;
          session = to_u32 session;
          source = to_u32 source;
          bytes = payload;
          error = [];
          status = pos 0;
          fd = m.fd;
          is_ok = is_ok;
        }))
      ⊎ (((type ≡ pos 0) ⊎ ((k : ℕ) × (type ≡ negsuc k)))
          × (send_service type session is_ok source payload m ≡ none))
unfolding send_service
send_delivered (pos zero) session is_ok source payload m r h k = inr (inl refl, refl)
send_delivered (negsuc j) session is_ok source payload m r h k = inr (inr (j, refl), refl)
send_delivered (pos (suc j)) session is_ok source payload m r h k = inl (
  j,
  refl,
  fill_send (pos (suc j)) session is_ok source payload m,
  refl,
  fill_send_lem (pos (suc j)) session is_ok source payload m r h k,
)

-- The response to a GET arrives with its whole body, for any body and any message that was reset.
http_get_delivered :
    (session status : ℤ) (body error : List ℕ) (m : ServiceMsg)
    → IsReset m
    → Delivers (fill_http_get session status body error m) (record {
      msg_type = 5;
      session = to_u32 session;
      source = 0;
      bytes = body;
      error = c_str error;
      status = signed32 (to_u32 status);
      fd = m.fd;
      is_ok = false;
    })
unfolding fill_http_get c_str
http_get_delivered session status body error m r = (
  record named { data_len = length body; buffer = body ++ rest; error = error },
  ground (arith, store_payload_lem too_small body named (room_below_suc body m)),
  ground (arith, lua_view_lem (record named { error = error }) body rest),
)
  where
    named : ServiceMsg
    named = record m { msg_type = 5; session = to_u32 session; status = to_u32 status }

    too_small : Bool
    too_small = ltb (length m.buffer) (length body + 1)

    rest : List ℕ
    rest = drop (length body) (room too_small body m)

-- The response to a POST arrives with no body at all, whatever the server sent.
http_post_drops_body :
    (session status : ℤ) (body error : List ℕ) (m : ServiceMsg)
    → IsReset m
    → Delivers (fill_http_post session status body error m) (record {
      msg_type = 5;
      session = to_u32 session;
      source = 0;
      bytes = [];
      error = c_str error;
      status = signed32 (to_u32 status);
      fd = m.fd;
      is_ok = false;
    })
unfolding fill_http_post lua_view
http_post_drops_body session status [] error m r = (_, refl, ground arith)
http_post_drops_body session status (x ∷ xs) error m r = (
  record m {
    msg_type = 5;
    session = to_u32 session;
    status = to_u32 status;
    error = error;
    buffer = x ∷ xs ++ rest;
  },
  ground (arith, copy_in_lem (x ∷ xs) room_for_body (room_below_suc (x ∷ xs) m)),
  ground arith,
)
  where
    room_for_body : List ℕ
    room_for_body = room (ltb (length m.buffer) (length (x ∷ xs) + 1)) (x ∷ xs) m

    rest : List ℕ
    rest = drop (length (x ∷ xs)) room_for_body

-- A message that is used again shows the connection number of its last use: `reset` leaves `fd`, and
-- neither a timer nor a TCP client writes it.
timer_shows_old_fd :
    (session : ℤ) (m : ServiceMsg)
    → Delivers (some (fill_timer session (reset m))) (record {
      msg_type = 2;
      session = to_u32 session;
      source = 0;
      bytes = [];
      error = [];
      status = pos 0;
      fd = m.fd;
      is_ok = false;
    })
unfolding fill_timer reset lua_view c_str
timer_shows_old_fd session m = (_, refl, ground arith)
