-- ===== src/Tests/Clients.antt =====
-- The theorems on the TCP client at concrete calls.
use server.Prelude.{◌≡◌, refl, true, false, List, [], ◌∷◌, some}
use server.TcpClient.{
  TcpClient, new_client, connect_returned, send_returned, connected, received, closed, connect,
  connect_tcp_client, close, send, on_connect, on_msg, failure, success, call_connect, call_close,
  call_send, complete, ClientCall, Reports, step, run, connecting,
}
use server.TcpClient.Ends.{Balanced, run-Balanced}

-- Two connections, of which the first is closed by the other side.
abbrev calls : List ClientCall
calls =
    call_connect (some true)
    ∷ complete 0 (success [])
    ∷ call_send true
    ∷ complete 0 (success (104 ∷ []))
    ∷ complete 0 (failure [])
    ∷ call_close
    ∷ call_connect (some true)
    ∷ call_connect (some true)
    ∷ []

abbrev reports : Reports
reports =
    connect_returned true
    ∷ connected
    ∷ send_returned true
    ∷ received (104 ∷ [])
    ∷ closed
    ∷ connect_returned true
    ∷ connect_returned false
    ∷ []

abbrev last_state : TcpClient
last_state = record { is_open = true; has_funcs = true; pending = connecting ∷ [] }

ran : run calls new_client ≡ some (reports, last_state)
unfolding run step connect_tcp_client connect close send on_connect on_msg
ran = refl

run-Balanced_example : Balanced new_client (reports, last_state)
run-Balanced_example = run-Balanced calls new_client last_state reports (λ h. cc) ran
