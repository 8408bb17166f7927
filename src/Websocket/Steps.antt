-- ===== src/Websocket/Steps.antt =====
-- The invariant of the two maps, and what each message of the library does to it.
use server.Prelude.{
  Bool, ℕ, ◌+◌, ◌%◌, ◌^◌, ◌<◌, ◌≡◌, refl, sym, subst, false, List, [], ◌∷◌, none, some,
  if◌then◌else◌, ok, ◌>>=◌, ◌>>◌, arith,
}
use server.Prelude.Table.{
  find, insert, IsAbove, IsBelow, find-insert, find-erase, find_late, insert-IsAbove, erase-IsAbove,
  insert-IsBelow, erase-IsBelow, IsBelow-mono,
}
use server.Websocket.{
  WebsocketServer, connected, received, closed, lock, unlock, send, join, next_fd, on_open,
  on_closed, on_message, forget,
}

-- The two maps are inverse to each other, and no number from `auto_id` on is used.
pub record IsPaired (s : WebsocketServer) : Type 0 where
  pub free : s.locked ≡ false
  pub ordered : IsAbove 0 s.sessions
  pub reverse_ordered : IsAbove 0 s.reverse_sessions
  pub used : IsBelow s.auto_id s.sessions
  pub there :
      (fd socket : ℕ) → find fd s.sessions ≡ some socket → find socket s.reverse_sessions ≡ some fd
  pub back :
      (socket fd : ℕ) → find socket s.reverse_sessions ≡ some fd → find fd s.sessions ≡ some socket

-- The server after a new session.
abbrev pub joined : ℕ → WebsocketServer → WebsocketServer
joined socket s = record s {
  auto_id = (s.auto_id + 1) % 2 ^ 64;
  sessions = insert s.auto_id socket s.sessions;
  reverse_sessions = insert socket s.auto_id s.reverse_sessions;
}

pub on_open_lem :
    (socket : ℕ) (s : WebsocketServer)
    → s.locked ≡ false
    → on_open socket s
      ≡ ok (if s.on_connection then connected s.auto_id ∷ [] else [], joined socket s)
unfolding on_open next_fd join lock unlock
on_open_lem socket s u = rw (u, ◌>>◌, ◌>>=◌) refl

pub on_closed-none :
    (socket : ℕ) (s : WebsocketServer)
    → s.locked ≡ false
    → find socket s.reverse_sessions ≡ none
    → on_closed socket s ≡ ok ([], s)
unfolding on_closed lock unlock
on_closed-none socket s u h = ground arith

pub on_closed-some :
    (socket fd : ℕ) (s : WebsocketServer)
    → s.locked ≡ false
    → find socket s.reverse_sessions ≡ some fd
    → on_closed socket s ≡ ok (if s.on_close then closed fd ∷ [] else [], forget socket fd s)
unfolding on_closed lock unlock
on_closed-some socket fd s u h = ground arith

pub on_message-none :
    (socket : ℕ) (text : List ℕ) (s : WebsocketServer)
    → s.locked ≡ false
    → find socket s.reverse_sessions ≡ none
    → on_message socket text s ≡ ok ([], s)
unfolding on_message lock unlock
on_message-none socket text s u h = ground arith

pub on_message-some :
    (socket fd : ℕ) (text : List ℕ) (s : WebsocketServer)
    → s.locked ≡ false
    → find socket s.reverse_sessions ≡ some fd
    → on_message socket text s ≡ ok (if s.on_msg then received fd text ∷ [] else [], s)
unfolding on_message lock unlock
on_message-some socket fd text s u h = ground arith

-- The next number is not in use.
pub next-fresh : (s : WebsocketServer) → IsPaired s → find s.auto_id s.sessions ≡ none
next-fresh s w = find_late s.auto_id s.auto_id s.sessions w.used (omega arith)

pub joined-IsPaired :
    (socket : ℕ) (s : WebsocketServer)
    → IsPaired s
    → find socket s.reverse_sessions ≡ none
    → s.auto_id + 1 < 2 ^ 64
    → IsPaired (joined socket s)
joined-IsPaired socket s w h b =
    let bound : (s.auto_id + 1) % 2 ^ 64 ≡ s.auto_id + 1 = ground arith in
    record {
      free = w.free;
      ordered = insert-IsAbove 0 s.auto_id socket s.sessions (omega arith) w.ordered;
      reverse_ordered =
          insert-IsAbove 0 socket s.auto_id s.reverse_sessions (omega arith) w.reverse_ordered;
      used =
          subst (λ k. IsBelow k (insert s.auto_id socket s.sessions)) (sym bound)
            (insert-IsBelow (s.auto_id + 1) s.auto_id socket s.sessions (omega arith)
              (IsBelow-mono s.auto_id (s.auto_id + 1) s.sessions (omega arith) w.used));
      there = λ fd p e.
          let f = find-insert s.auto_id fd socket s.sessions (next-fresh s w) in
          let g = find-insert socket p s.auto_id s.reverse_sessions h in
          ground (arith, f, g, w.there fd p, w.there fd socket);
      back = λ p fd e.
          let f = find-insert s.auto_id fd socket s.sessions (next-fresh s w) in
          let g = find-insert socket p s.auto_id s.reverse_sessions h in
          ground (arith, f, g, w.back p fd, w.back p s.auto_id, next-fresh s w);
    }

pub forget-IsPaired :
    (socket fd : ℕ) (s : WebsocketServer)
    → IsPaired s
    → find socket s.reverse_sessions ≡ some fd
    → IsPaired (forget socket fd s)
forget-IsPaired socket fd s w h = record {
  free = w.free;
  ordered = erase-IsAbove 0 fd s.sessions w.ordered;
  reverse_ordered = erase-IsAbove 0 socket s.reverse_sessions w.reverse_ordered;
  used = erase-IsBelow s.auto_id fd s.sessions w.used;
  there = λ gd p e.
      let f = find-erase 0 fd gd s.sessions w.ordered in
      let g = find-erase 0 socket p s.reverse_sessions w.reverse_ordered in
      ground (arith, f, g, w.there gd p, h);
  back = λ p gd e.
      let f = find-erase 0 fd gd s.sessions w.ordered in
      let g = find-erase 0 socket p s.reverse_sessions w.reverse_ordered in
      ground (arith, f, g, w.back p gd, w.back socket fd h, h);
}

pub send-some :
    (deliver : ℕ → List ℕ → Bool) (fd socket : ℕ) (text : List ℕ) (s : WebsocketServer)
    → s.locked ≡ false
    → find fd s.sessions ≡ some socket
    → send deliver fd text s ≡ ok (deliver socket text, s)
unfolding send lock unlock
send-some deliver fd socket text s u h = ground arith
