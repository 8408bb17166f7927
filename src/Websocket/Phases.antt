-- ===== src/Websocket/Phases.antt =====
-- The life of one connection number, as the callbacks report it.
use server.Prelude.{
  ℕ, ◌+◌, ◌%◌, ◌^◌, ◌<◌, ◌≡◌, List, [], ◌∷◌, ◌++◌, Option, none, some, if◌then◌else◌, arith, ◌==◌,
  ltb, Bool-cases, inl, inr,
}
use server.Prelude.Table.{find, find-insert, find-erase, find_late}
use server.Websocket.{WebsocketServer, Event, connected, received, closed, forget}
use server.Websocket.Steps.{IsPaired, joined}

-- A connection before it is reported, while it lasts, and after its end.
pub data Phase : Type 0 where
  unborn : Phase
  live : Phase
  gone : Phase

-- A connection is reported once, receives while it lasts, and ends once; other events are none of its.
abbrev pub starts : Phase → Option Phase
starts unborn = some live
starts _ = none

abbrev pub goes_on : Phase → Phase → Option Phase
goes_on q live = some q
goes_on q _ = none

unfoldable pub advance : (fd : ℕ) → Event → Phase → Option Phase
advance fd (connected g) p = if g == fd then starts p else some p
advance fd (received g text) p = if g == fd then goes_on live p else some p
advance fd (closed g) p = if g == fd then goes_on gone p else some p

abbrev pub resume : Option Phase → (Phase → Option Phase) → Option Phase
resume none f = none
resume (some q) f = f q

unfoldable pub follows : (fd : ℕ) → List Event → Phase → Option Phase
follows fd [] p = some p
follows fd (e ∷ es) p = resume (advance fd e p) (follows fd es)

abbrev pub is_live : Option ℕ → Phase
is_live (some socket) = live
is_live none = gone

-- Where the server has the connection.
unfoldable pub phase_of : WebsocketServer → ℕ → Phase
phase_of s fd = if ltb fd s.auto_id then is_live (find fd s.sessions) else unborn

pub used_before :
    (gd socket : ℕ) (s : WebsocketServer)
    → IsPaired s
    → find gd s.sessions ≡ some socket
    → gd < s.auto_id
used_before gd socket s w h = elim (Bool-cases (ltb gd s.auto_id)) [
  | inl less ↦ ground arith
  | inr more ↦ absurd (ground (arith, find_late s.auto_id gd s.sessions w.used))
]

pub open_phase :
    (fd socket : ℕ) (s : WebsocketServer)
    → find s.auto_id s.sessions ≡ none
    → (s.auto_id + 1) % 2 ^ 64 ≡ s.auto_id + 1
    → follows fd (connected s.auto_id ∷ []) (phase_of s fd) ≡ some (phase_of (joined socket s) fd)
unfolding follows advance phase_of
open_phase fd socket s h b = rw (b, find-insert s.auto_id fd socket s.sessions h) (ground arith)

pub close_phase :
    (fd gd socket : ℕ) (s : WebsocketServer)
    → IsPaired s
    → find gd s.sessions ≡ some socket
    → gd < s.auto_id
    → follows fd (closed gd ∷ []) (phase_of s fd) ≡ some (phase_of (forget socket gd s) fd)
unfolding follows advance phase_of
close_phase fd gd socket s w h b = rw (find-erase 0 gd fd s.sessions w.ordered) (ground arith)

pub message_phase :
    (fd gd socket : ℕ) (text : List ℕ) (s : WebsocketServer)
    → find gd s.sessions ≡ some socket
    → gd < s.auto_id
    → follows fd (received gd text ∷ []) (phase_of s fd) ≡ some (phase_of s fd)
unfolding follows advance phase_of
message_phase fd gd socket text s h b = ground arith

resume_both :
    (o : Option Phase) (k l : Phase → Option Phase) (q : Phase) (r : Option Phase)
    → ((p : Phase) → k p ≡ some q → l p ≡ r)
    → resume o k ≡ some q
    → resume o l ≡ r
resume_both none k l q r step h = cc
resume_both (some p) k l q r step h = step p h

pub follows-append :
    (fd : ℕ) (es fs : List Event) (p q : Phase)
    → follows fd es p ≡ some q
    → follows fd (es ++ fs) p ≡ follows fd fs q
unfolding follows
follows-append fd [] fs p q h = ground arith
follows-append fd (e ∷ es) fs p q h =
    resume_both (advance fd e p) (follows fd es) (follows fd (es ++ fs)) q (follows fd fs q)
      (λ r. follows-append fd es fs r q) h
