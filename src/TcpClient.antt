-- ===== src/TcpClient.antt =====
-- src/socket/tcp/client/tcpClient.hpp and .cpp, with the calls of luaTcpClient.cpp on one client. The
-- operations of the network library that are not completed yet are a part of the state: a closed
-- socket completes those that it had with an error, at some later time. What a callback writes into its
-- message is in Msg/Fill.
pub mod Ends
use server.Prelude.{
  ℕ, zero, suc, Bool, true, false, List, [], ◌∷◌, ◌++◌, Option, none, some, if◌then◌else◌, bind,
}

-- A handler that the library holds: `onConnect` or `onMsg`.
pub data Operation : Type 0 where
  connecting : Operation
  reading : Operation

-- `has_funcs` says whether the four callbacks are set, which `connectTcpClient` does together.
pub record TcpClient : Type 0 where
  pub is_open : Bool
  pub has_funcs : Bool
  pub pending : List Operation

abbrev pub new_client : TcpClient
new_client = record { is_open = false; has_funcs = false; pending = [] }

-- What Lua sees: the result of a `connect` or of a `send`, or a call of one of the four callbacks.
pub data Report : Type 0 where
  connect_returned : Bool → Report
  send_returned : Bool → Report
  connected : Report
  connect_error : List ℕ → Report
  received : List ℕ → Report
  closed : Report

abbrev pub Reports : Type 0
Reports = List Report

abbrev pub call_back : Report → TcpClient → Reports
call_back r c = if c.has_funcs then r ∷ [] else []

-- `connect`, where the library resolves the endpoint or not.
unfoldable pub connect : (resolves : Bool) → TcpClient → Bool × TcpClient
connect resolves c =
    if c.is_open
    then (false, c)
    else if resolves
    then (true, record c { is_open = true; pending = c.pending ++ connecting ∷ [] })
    else (false, c)

-- `connectTcpClient`; none where `make_address` throws, as it does on a name that is no address.
unfoldable pub connect_tcp_client :
    (resolves : Option Bool) → TcpClient → Option (Reports × TcpClient)
unfolding connect
connect_tcp_client resolves c = elim resolves [
  | none ↦ if c.is_open then some (connect_returned false ∷ [], c) else none
  | some resolves ↦
      let (ret, d) = connect resolves c in
      some (connect_returned ret ∷ [], if ret then record d { has_funcs = true } else d)
]

unfoldable pub close : TcpClient → Reports × TcpClient
close c = if c.is_open then (call_back closed c, record c { is_open = false }) else ([], c)

-- `send`, where `write_some` sets no error or does.
unfoldable pub send : (written : Bool) → TcpClient → Bool × TcpClient
send written c = if c.is_open then (written, c) else (false, c)

abbrev pub do_read : TcpClient → TcpClient
do_read c = record c { pending = c.pending ++ reading ∷ [] }

-- How the library completes an operation: with an error's text, or with the bytes that it read.
pub data Completion : Type 0 where
  failure : List ℕ → Completion
  success : List ℕ → Completion

unfoldable pub on_connect : Completion → TcpClient → Reports × TcpClient
on_connect (failure error) c = (call_back (connect_error error) c, c)
on_connect (success data_) c = (call_back connected c, do_read c)

unfoldable pub on_msg : Completion → TcpClient → Reports × TcpClient
unfolding close
on_msg (failure error) c = close c
on_msg (success data_) c = (call_back (received data_) c, do_read c)

abbrev pub handle : Operation → Completion → TcpClient → Reports × TcpClient
handle connecting = on_connect
handle reading = on_msg

-- The operation at this place of those that are not completed, and the others.
abbrev pub take_at : List Operation → ℕ → Option (Operation × List Operation)
take_at [] k = none
take_at (o ∷ os) zero = some (o, os)
take_at (o ∷ os) (suc k) = bind (take_at os k) (λ (p, ps). some (p, o ∷ ps))

-- A call from Lua, or a completion by the library.
pub data ClientCall : Type 0 where
  call_connect : (resolves : Option Bool) → ClientCall
  call_close : ClientCall
  call_send : (written : Bool) → ClientCall
  complete : ℕ → Completion → ClientCall

-- None is an exception that nothing catches.
unfoldable pub step : ClientCall → TcpClient → Option (Reports × TcpClient)
unfolding connect_tcp_client send on_connect on_msg
step (call_connect resolves) c = connect_tcp_client resolves c
step call_close c = some (close c)
step (call_send written) c = let (ret, d) = send written c in some (send_returned ret ∷ [], d)
step (complete k completion) c = elim (take_at c.pending k) [
  | none ↦ some ([], c)
  | some (operation, others) ↦ some (handle operation completion (record c { pending = others }))
]

unfoldable pub run : List ClientCall → TcpClient → Option (Reports × TcpClient)
unfolding step
run [] c = some ([], c)
run (call ∷ calls) c =
    bind (step call c) (λ (now, d). bind (run calls d) (λ (later, e). some (now ++ later, e)))
