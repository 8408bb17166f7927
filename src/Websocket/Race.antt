-- ===== src/Websocket/Race.antt =====
-- Two threads of the library that report an opening at the same time: `mAutoId++` is done without the
-- mutex, so both can read the same number.
use server.Prelude.{
  ℕ, ◌≡◌, ◌≢◌, refl, ◌∙◌, Bool, true, List, [], ◌∷◌, none, some, ok, ◌>>=◌, ◌>>◌, arith, ==_self,
  ap,
}
use server.Prelude.Table.{find, insert, find-insert, insert_present, insert-IsAbove}
use server.Websocket.{WebsocketServer, received, lock, unlock, join, send, on_message}
use server.Websocket.Steps.{IsPaired, on_message-some, send-some}

-- The server after both openings.
abbrev pub joined_twice : (fd p q : ℕ) → WebsocketServer → WebsocketServer
joined_twice fd p q s = record s {
  sessions = insert fd q (insert fd p s.sessions);
  reverse_sessions = insert q fd (insert p fd s.reverse_sessions);
}

-- On a server with its message callback, a free mutex and inverse maps, two threads that read the
-- same number, not in use, for two new sockets both get through; then what the second socket receives
-- is reported under that number, and what is sent to the number goes to the first socket.
pub join_twice :
    (deliver : ℕ → List ℕ → Bool) (fd p q : ℕ) (text : List ℕ) (s : WebsocketServer)
    → IsPaired s
    → s.on_msg ≡ true
    → p ≢ q
    → find fd s.sessions ≡ none
    → find p s.reverse_sessions ≡ none
    → find q s.reverse_sessions ≡ none
    → ((do join fd p; join fd q) s ≡ ok (tt, joined_twice fd p q s))
      × (on_message q text (joined_twice fd p q s)
          ≡ ok (received fd text ∷ [], joined_twice fd p q s))
      × (send deliver fd text (joined_twice fd p q s) ≡ ok (deliver p text, joined_twice fd p q s))
unfolding join lock unlock
join_twice deliver fd p q text s w c d h hp hq =
    let first : find fd (insert fd p s.sessions) ≡ some p =
      find-insert fd fd p s.sessions h ∙ (rw (==_self fd) refl) in
    let kept : insert fd q (insert fd p s.sessions) ≡ insert fd p s.sessions =
      insert_present 0 fd p q (insert fd p s.sessions)
        (insert-IsAbove 0 fd p s.sessions (omega arith) w.ordered) first in
    let fresh : find q (insert p fd s.reverse_sessions) ≡ none =
      ground (arith, find-insert p q fd s.reverse_sessions hp) in
    let found : find q (insert q fd (insert p fd s.reverse_sessions)) ≡ some fd =
      find-insert q q fd (insert p fd s.reverse_sessions) fresh ∙ (rw (==_self q) refl) in
    (
      rw (w.free, ◌>>◌, ◌>>=◌) refl,
      on_message-some q fd text (joined_twice fd p q s) w.free found ∙ (rw c refl),
      send-some deliver fd p text (joined_twice fd p q s) w.free (ap (find fd) kept ∙ first),
    )
