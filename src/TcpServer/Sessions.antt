-- ===== src/TcpServer/Sessions.antt =====
-- The life of a connection: what is reported of it, and what its number finds.
use server.Prelude.{
  ℕ, ◌+◌, ◌%◌, ◌^◌, ◌<◌, ◌≡◌, refl, ◌↔◌, true, false, [], ◌∷◌, none, some, inl, inr, if◌then◌else◌,
  ok, fault, ◌>>=◌, ◌>>◌, arith, ◌==◌, Option-cases, subst, sym,
}
use server.Prelude.Table.{
  find, insert, erase, IsAbove, IsBelow, find-insert, find_late, insert-IsAbove, insert-IsBelow,
  IsBelow-mono,
}
use server.TcpServer.{
  TcpServer, connected, Network, lock, unlock, find_session, as_int32, get_remote_info,
  get_remote_info_tcp_server, on_acceptor,
}

-- A server with its callbacks whose mutex is free, and whose numbers from `auto_id` on are not used.
pub record IsListening (s : TcpServer) : Type 0 where
  pub free : s.locked ≡ false
  pub ordered : IsAbove 0 s.sessions
  pub used : IsBelow s.auto_id s.sessions
  pub calls : (s.on_connect ≡ true) × (s.on_close ≡ true) × (s.on_message ≡ true)

abbrev pub without : (fd : ℕ) → TcpServer → TcpServer
without fd s = record s { sessions = erase fd s.sessions }

find_session_lem :
    (fd : ℕ) (s : TcpServer) → s.locked ≡ false → find_session fd s ≡ ok (find fd s.sessions, s)
unfolding find_session lock unlock
find_session_lem fd s u = rw (u, ◌>>◌, ◌>>=◌) refl

-- `getRemoteInfo` from Lua reads through a null pointer exactly if no connection has the number that
-- is left of the argument as an `int32_t`, on a server whose mutex is free.
get_remote_info_tcp_server-fault_iff :
    (network : Network) (fd : ℕ) (s : TcpServer)
    → s.locked ≡ false
    → (get_remote_info_tcp_server network fd s ≡ fault) ↔ (find (as_int32 fd) s.sessions ≡ none)
unfolding get_remote_info_tcp_server get_remote_info
get_remote_info_tcp_server-fault_iff network fd s u =
    let e = find_session_lem (as_int32 fd) s u in
    elim (Option-cases (find (as_int32 fd) s.sessions)) [
      | inl none_there ↦ (λ p. none_there, λ p. rw (◌>>=◌, e) (ground arith))
      | inr (socket, there) ↦ (λ p. absurd (ground (arith, e)), λ p. cc)
    ]

-- The server after a connection.
abbrev pub joined : (socket : ℕ) → TcpServer → TcpServer
joined socket s = record s {
  auto_id = (s.auto_id + 1) % 2 ^ 64;
  sessions = insert s.auto_id socket s.sessions;
}

-- On a listening server a new connection gets a number that no connection has, is reported under it
-- and found under it, and leaves the others and the server's invariant as they were, as long as the
-- numbers last.
on_acceptor_lem :
    (socket : ℕ) (s : TcpServer)
    → IsListening s
    → s.auto_id + 1 < 2 ^ 64
    → (on_acceptor socket s ≡ ok (connected s.auto_id ∷ [], joined socket s))
      × (find s.auto_id s.sessions ≡ none)
      × ((fd : ℕ)
          → find fd (joined socket s).sessions
            ≡ (if s.auto_id == fd then some socket else find fd s.sessions))
      × IsListening (joined socket s)
unfolding on_acceptor lock unlock
on_acceptor_lem socket s w b =
    let bound : (s.auto_id + 1) % 2 ^ 64 ≡ s.auto_id + 1 = ground arith in
    let new : find s.auto_id s.sessions ≡ none =
      find_late s.auto_id s.auto_id s.sessions w.used (omega arith) in
    (
      ground (arith, w.calls, w.free),
      new,
      λ fd. find-insert s.auto_id fd socket s.sessions new,
      record {
        free = w.free;
        ordered = insert-IsAbove 0 s.auto_id socket s.sessions (omega arith) w.ordered;
        used =
            subst (λ k. IsBelow k (insert s.auto_id socket s.sessions)) (sym bound)
              (insert-IsBelow (s.auto_id + 1) s.auto_id socket s.sessions (omega arith)
                (IsBelow-mono s.auto_id (s.auto_id + 1) s.sessions (omega arith) w.used));
        calls = w.calls;
      },
    )
