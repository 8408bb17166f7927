-- ===== src/Tests/Messages.antt =====
-- The theorems on messages, the pool and the service's queue at concrete inputs.
use server.Prelude.{
  ℕ, suc, none, ◌⊎◌, ◌≡◌, ◌^◌, ◌%◌, ◌*◌, refl, true, false, List, [], ◌∷◌, Option, some, ok, blocks,
  arith, length, All, ◌↔◌, length-replicate,
}
use server.Prelude.Int.{pos, negsuc, to_u32}
use server.Msg.{ServiceMsg, IsReset, make_msg}
use server.Msg.Fill.{fill_tcp_server_msg, fill_tcp_client_msg, fill_websocket_msg, send_service}
use server.Msg.Payload.{Delivers}
use server.Msg.Delivery.{socket_msg, socket_payload_delivered, send_delivered}
use server.MsgPool.{MsgPool}
use server.MsgPool
use server.MsgPool.Laws.{IsPool}
use server.MsgPool.Blocking.{push_call, pop_call, run, run-blocks}
use server.Service.{Service, poll, push_msg}
use server.Service.Poll.{IsReady, pop-push_msg-poll}
use server.Crypto.Hex
use server.Crypto.Hex.{HexResult, data_to_hex, hex_to_data}
use server.Crypto.RoundTrip.{IsHexDigit, hex_to_data-data_to_hex, hex_to_data-ok_iff}
use server.Tests.Data.{host, lua_state, ping, echo}

-- A message that was reset, with a small buffer.
abbrev blank : ServiceMsg
blank = record {
  source = 0;
  session = 0;
  msg_type = 0;
  status = 0;
  fd = 5;
  data_len = 0;
  is_ok = false;
  buffer = 0 ∷ 0 ∷ [];
  error = [];
}

blank-IsReset : IsReset blank
blank-IsReset = ground arith

abbrev text : List ℕ
text = 72 ∷ 105 ∷ 33 ∷ []

socket_payload_delivered_example :
    Delivers
      (fill_tcp_server_msg (pos 1) 9 text blank)
      (socket_msg 8 4 (to_u32 (pos 1)) (9 % 2 ^ 32) text)
    × Delivers (fill_tcp_client_msg (pos 1) text blank) (socket_msg 9 4 (to_u32 (pos 1)) 5 text)
    × Delivers
        (fill_websocket_msg (pos 1) 9 text blank)
        (socket_msg 6 3 (to_u32 (pos 1)) (9 % 2 ^ 32) text)
socket_payload_delivered_example = socket_payload_delivered (pos 1) 9 text blank blank-IsReset

send_delivered_example :
    ((k : ℕ) × (pos 3 ≡ pos (suc k))
      × (sent : Option ServiceMsg) × (send_service (pos 3) (pos 12) true (pos 4) text blank
          ≡ some sent)
      × Delivers sent (record {
        msg_type = to_u32 (pos 3);
        session = to_u32 (pos 12);
        source = to_u32 (pos 4);
        bytes = text;
        error = [];
        status = pos 0;
        fd = 5;
        is_ok = true;
      }))
    ⊎ (((pos 3 ≡ pos 0) ⊎ ((k : ℕ) × (pos 3 ≡ negsuc k)))
        × (send_service (pos 3) (pos 12) true (pos 4) text blank ≡ none))
send_delivered_example =
    send_delivered (pos 3) (pos 12) true (pos 4) text blank blank-IsReset (omega arith)
      (omega arith)

-- A pool whose mutex is free, with one message.
abbrev pool_of : ServiceMsg → MsgPool
pool_of m = record { locked = false; msgs = m ∷ [] }

make_msg-IsPool : IsPool (pool_of make_msg)
unfolding make_msg
make_msg-IsPool =
    (record { clean = ground arith; roomy = omega (arith, length-replicate {A = ℕ} 4096 0) }, tt)

run-blocks_example : run (pop_call ∷ push_call ping ∷ []) (pool_of ping) ≡ blocks
run-blocks_example = (run-blocks (pop_call ∷ push_call ping ∷ []) (pool_of ping) refl).1 (λ h. h)

echo-IsReady : IsReady host echo
echo-IsReady = record { started = refl; free = refl; on_poll = (lua_state, refl, refl) }

-- A message is taken and pushed to an idle service.
taken_pool : MsgPool.pop (pool_of ping) ≡ ok (ping, record { locked = true; msgs = [] })
unfolding MsgPool.pop
taken_pool = refl

pop-push_msg-poll_example :
    (t : Service) × (push_msg ping echo ≡ ok (tt, t))
    × (t.msgs ≡ ping ∷ [])
    × (poll host (record { service = t; pool = record { locked = true; msgs = [] } }) ≡ blocks)
pop-push_msg-poll_example =
    pop-push_msg-poll host echo (pool_of ping) (record { locked = true; msgs = [] }) ping ping
      echo-IsReady taken_pool tt (omega arith)

hex_to_data-data_to_hex_example : hex_to_data (data_to_hex (10 ∷ 255 ∷ [])) ≡ Hex.ok (10 ∷ 255 ∷ [])
hex_to_data-data_to_hex_example = hex_to_data-data_to_hex (10 ∷ 255 ∷ []) (omega arith)

abbrev not_hex : List ℕ
not_hex = b'0' ∷ b'G' ∷ []

hex_to_data-ok_iff_example :
    ((xs : List ℕ) × (hex_to_data not_hex ≡ Hex.ok xs) × (length not_hex ≡ 2 * length xs))
    ↔ ((length not_hex % 2 ≡ 0) × All IsHexDigit not_hex)
hex_to_data-ok_iff_example = hex_to_data-ok_iff not_hex
