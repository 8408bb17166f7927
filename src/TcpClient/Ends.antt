-- ===== src/TcpClient/Ends.antt =====
-- src/socket/tcp/client/tcpClient.cpp: the ends of connections over sequences of calls.
use server.Prelude.{
  subst, ℕ, ◌+◌, ◌≡◌, refl, sym, ◌∙◌, Bool, true, false, List, [], ◌∷◌, ◌++◌, Option, none, some,
  if◌then◌else◌, bind, bind_inv, arith, Option-cases, Bool-cases, inl, inr,
}
use server.TcpClient.{
  Operation, connecting, reading, TcpClient, Report, connect_returned, send_returned, connected,
  connect_error, received, closed, Reports, call_back, connect, connect_tcp_client, close, send,
  Completion, failure, success, on_connect, on_msg, handle, take_at, ClientCall, call_connect,
  call_close, call_send, complete, step, run,
}

-- How many connections began, and how many ends were reported.
abbrev pub begins : Report → ℕ
begins (connect_returned true) = 1
begins r = 0

abbrev pub ends : Report → ℕ
ends closed = 1
ends r = 0

abbrev pub total : (Report → ℕ) → Reports → ℕ
total f [] = 0
total f (r ∷ rs) = f r + total f rs

abbrev pub open_count : TcpClient → ℕ
open_count c = if c.is_open then 1 else 0

abbrev pub IsReady : TcpClient → Type 0
IsReady c = c.is_open ≡ true → c.has_funcs ≡ true

abbrev pub Balanced : TcpClient → Reports × TcpClient → Type 0
Balanced c p = (total ends p.0 + open_count p.1 ≡ open_count c + total begins p.0) × IsReady p.1

total-append : (f : Report → ℕ) (rs ss : Reports) → total f (rs ++ ss) ≡ total f rs + total f ss
total-append f [] ss = omega arith
total-append f (r ∷ rs) ss = omega (arith, total-append f rs ss)

close-Balanced : (c : TcpClient) → IsReady c → Balanced c (close c)
unfolding close
close-Balanced c ready = elim (Bool-cases c.is_open) [
  | inl e ↦ rw (e, ready e) (refl, λ h. cc)
  | inr e ↦ rw e (refl, λ h. cc)
]

total-call_back :
    (f : Report → ℕ) (r : Report) (c : TcpClient) → f r ≡ 0 → total f (call_back r c) ≡ 0
total-call_back f r c h = elim (Bool-cases c.has_funcs) [
  | inl e ↦ rw (e, h) refl
  | inr e ↦ rw e refl
]

handle-Balanced :
    (o : Operation) (completion : Completion) (c : TcpClient)
    → IsReady c
    → Balanced c (handle o completion c)
unfolding on_connect on_msg
handle-Balanced connecting (failure error) c ready = (
  rw
      (
        total-call_back ends (connect_error error) c refl,
        total-call_back begins (connect_error error) c refl,
      )
      (omega arith),
  ready,
)
handle-Balanced connecting (success data_) c ready = (
  rw (total-call_back ends connected c refl, total-call_back begins connected c refl) (omega arith),
  ready,
)
handle-Balanced reading (failure error) c ready = close-Balanced c ready
handle-Balanced reading (success data_) c ready = (
  rw (total-call_back ends (received data_) c refl, total-call_back begins (received data_) c refl)
      (omega arith),
  ready,
)

moved : (c : TcpClient) (p q : Reports × TcpClient) → some p ≡ some q → Balanced c p → Balanced c q
moved c p q e h = let e : p ≡ q = cc in subst (Balanced c) e h

connect-Balanced :
    (resolves : Option Bool) (c : TcpClient) (p : Reports × TcpClient)
    → IsReady c
    → connect_tcp_client resolves c ≡ some p
    → Balanced c p
unfolding connect_tcp_client connect
connect-Balanced none c p ready h = elim (Bool-cases c.is_open) [
  | inl e ↦
      let g : connect_tcp_client none c ≡ some (connect_returned false ∷ [], c) = rw e refl in
      moved c (connect_returned false ∷ [], c) p (sym g ∙ h) (omega arith, ready)
  | inr e ↦ let h : ◌≡◌ {A = Option (Reports × TcpClient)} none (some p) = rw e at h in cc
]
connect-Balanced (some false) c p ready h = elim (Bool-cases c.is_open) [
  | inl e ↦
      let g : connect_tcp_client (some false) c ≡ some (connect_returned false ∷ [], c) =
        rw e refl in
      moved c (connect_returned false ∷ [], c) p (sym g ∙ h) (omega arith, ready)
  | inr e ↦
      let g : connect_tcp_client (some false) c ≡ some (connect_returned false ∷ [], c) =
        rw e refl in
      moved c (connect_returned false ∷ [], c) p (sym g ∙ h) (omega arith, ready)
]
connect-Balanced (some true) c p ready h = elim (Bool-cases c.is_open) [
  | inl e ↦
      let g : connect_tcp_client (some true) c ≡ some (connect_returned false ∷ [], c) =
        rw e refl in
      moved c (connect_returned false ∷ [], c) p (sym g ∙ h) (omega arith, ready)
  | inr e ↦
      let d : TcpClient = record {
        is_open = true;
        has_funcs = true;
        pending = c.pending ++ connecting ∷ [];
      } in
      let g : connect_tcp_client (some true) c ≡ some (connect_returned true ∷ [], d) = rw e refl in
      moved c (connect_returned true ∷ [], d) p (sym g ∙ h) (rw e refl, λ h. refl)
]

send_total :
    (written : Bool) (c : TcpClient) (p : Reports × TcpClient)
    → IsReady c
    → some (send_returned (send written c).0 ∷ [], (send written c).1) ≡ some p
    → Balanced c p
unfolding send
send_total written c p ready h = elim (Bool-cases c.is_open) [
  | inl e ↦
      let g : some (send_returned (send written c).0 ∷ [], (send written c).1)
          ≡ some (send_returned written ∷ [], c) =
        rw e refl in
      moved c (send_returned written ∷ [], c) p (sym g ∙ h) (omega arith, ready)
  | inr e ↦
      let g : some (send_returned (send written c).0 ∷ [], (send written c).1)
          ≡ some (send_returned false ∷ [], c) =
        rw e refl in
      moved c (send_returned false ∷ [], c) p (sym g ∙ h) (omega arith, ready)
]

step-Balanced :
    (call : ClientCall) (c : TcpClient) (p : Reports × TcpClient)
    → IsReady c
    → step call c ≡ some p
    → Balanced c p
unfolding step send
step-Balanced (call_connect resolves) c p ready h = connect-Balanced resolves c p ready h
step-Balanced call_close c p ready h = moved c (close c) p h (close-Balanced c ready)
step-Balanced (call_send written) c p ready h = send_total written c p ready h
step-Balanced (complete k completion) c p ready h = elim (Option-cases (take_at c.pending k)) [
  | inl e ↦
      let g : step (complete k completion) c ≡ some ([], c) = rw (step, e) refl in
      moved c ([], c) p (sym g ∙ h) (omega arith, ready)
  | inr (q, e) ↦
      let g : step (complete k completion) c
          ≡ some (handle q.0 completion (record c { pending = q.1 })) =
        rw (step, e) refl in
      moved c (handle q.0 completion (record c { pending = q.1 })) p (sym g ∙ h)
        (handle-Balanced q.0 completion (record c { pending = q.1 }) ready)
]

-- From a client that has its callbacks if it is open, however the calls of Lua and the completions of
-- the library follow each other, as long as no exception is thrown: the connections that were open or
-- that `connect` began are as many as those that are reported closed and the one that is open at the end.
pub run-Balanced :
    (calls : List ClientCall) (c d : TcpClient) (reports : Reports)
    → IsReady c
    → run calls c ≡ some (reports, d)
    → Balanced c (reports, d)
unfolding run
run-Balanced [] c d reports ready h = moved c ([], c) (reports, d) h (omega arith, ready)
run-Balanced (call ∷ calls) c d reports ready h =
    let (now, e, h) =
      bind_inv (step call c) (λ (now, d). bind (run calls d) (λ (later, e). some (now ++ later, e)))
        (reports, d) h in
    let (later, f, h) =
      bind_inv (run calls now.1) (λ (later, e). some (now.0 ++ later, e)) (reports, d) h in
    let first = step-Balanced call c now ready e in
    let rest = run-Balanced calls now.1 later.1 later.0 first.1 f in
    moved c (now.0 ++ later.0, later.1) (reports, d) h
      (
        omega (
          arith,
          total-append ends now.0 later.0,
          total-append begins now.0 later.0,
          first.0,
          rest.0,
        ),
        rest.1,
      )

-- A client that reads is closed and connected again before the library completes the read that the
-- close ended: this completion closes the new connection.
reconnect_closed :
    (error : List ℕ) (others : List Operation)
    → run
        (call_close ∷ call_connect (some true) ∷ complete 0 (failure error) ∷ [])
        (record { is_open = true; has_funcs = true; pending = reading ∷ others })
      ≡ some (
        closed ∷ connect_returned true ∷ closed ∷ [],
        record { is_open = false; has_funcs = true; pending = others ++ connecting ∷ [] },
      )
unfolding run step connect_tcp_client connect close on_msg
reconnect_closed error others = refl
