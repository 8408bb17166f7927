-- ===== src/Websocket/Callbacks.antt =====
-- src/websocket/server/luaWebsocketServer.cpp: the three callbacks of a server, with the pool and the
-- services that they use. What they write into their messages is in Msg/Fill and a parameter here.
use server.Prelude.{
  ℕ, ◌+◌, ◌^◌, ◌≤◌, ◌<◌, ◌≡◌, refl, ap, ◌∙◌, Bool, true, false, List, [], ◌∷◌, ◌++◌, some,
  if◌then◌else◌, Outcome, ok, blocks, fault, ◌>>=◌, ◌>>◌, return, zoom, length, length-append,
  Bool-cases, inl, inr, ◌⊎◌, arith, sym, ltb,
}
use server.Msg.{ServiceMsg}
use server.MsgPool.{MsgPool}
use server.MsgPool
use server.MsgPool.Laws.{front, rest}
use server.Server.{Server, on_pool, send}
use server.Server.Sound.{IsSound}
use server.Server.Keeps.{send-Keeps}
use server.Server.Shutdown.{with_pool, popped, pop_taken}
use server.Websocket.{WebsocketServer, Event, SocketMsg, on_server_msg, serve}
use server.Websocket.Phases.{follows, phase_of}
use server.Websocket.Conversations.{IsServing, IsProper, after_all, serve_conversations}

-- The websocket server, and the services.
pub record SocketSystem : Type 0 where
  pub socket : WebsocketServer
  pub services : Server

abbrev pub on_socket {ℓ} :
    {A : Type ℓ}
    → (WebsocketServer → Outcome (A × WebsocketServer))
    → SocketSystem
    → Outcome (A × SocketSystem)
on_socket = zoom (λ c. c.socket) (λ s c. record c { socket = s })

abbrev pub on_services {ℓ} :
    {A : Type ℓ} → (Server → Outcome (A × Server)) → SocketSystem → Outcome (A × SocketSystem)
on_services = zoom (λ c. c.services) (λ s c. record c { services = s })

-- The result of a chain that returns, in its two parts.
next_inv :
    {A B : Type 0} (m : Outcome (A × WebsocketServer))
    (f : A → WebsocketServer → Outcome (B × WebsocketServer)) (b : B) (t : WebsocketServer)
    → (elim m [ ok (a, u) ↦ f a u | blocks ↦ blocks | fault ↦ fault ]) ≡ ok (b, t)
    → (a : A) × (u : WebsocketServer) × (m ≡ ok (a, u)) × (f a u ≡ ok (b, t))
next_inv (ok (a, u)) f b t h = (a, u, refl, h)
next_inv blocks f b t h = cc
next_inv fault f b t h = cc

few_or_many : (n : ℕ) → (n ≤ 1) ⊎ (1 < n)
few_or_many n = elim (Bool-cases (ltb 1 n)) [
  | inl h ↦ inr (ground arith)
  | inr h ↦ inl (ground arith)
]

module _ (service_id : ℕ) (fill : Event → ServiceMsg → ServiceMsg) where
  -- The callbacks for some events: each takes a message from the pool and sends it to the service.
  unfoldable pub report : List Event → Server → Outcome (Unit {0} × Server)
  report [] = return tt
  report (event ∷ events) = do
    msg ← on_pool MsgPool.pop
    send service_id (fill event msg)
    report events

  -- `onServerMsg` for one message after another; a callback is the last that a call does, after the mutex
  -- is given back.
  unfoldable pub serve_reporting :
      List (ℕ × SocketMsg) → SocketSystem → Outcome (List Event × SocketSystem)
  unfolding report
  serve_reporting [] = return []
  serve_reporting ((socket, msg) ∷ inputs) = do
    events ← on_socket (on_server_msg socket msg)
    on_services (report events)
    later ← serve_reporting inputs
    return (events ++ later)

  -- Messages that were taken from the pool: 1 where its mutex is taken.
  abbrev used : Server → ℕ
  used s = if s.pool.locked then 1 else 0

  used_le : (s : Server) → used s ≤ 1
  used_le s = ground arith

  report_lem :
      (events : List Event) (s : Server)
      → IsSound s
      → (used s + length events ≤ 1
          → (t : Server) × (report events s ≡ ok (tt, t))
            × IsSound t
            × (used t ≡ used s + length events))
        × (1 < used s + length events → report events s ≡ blocks)
  unfolding report
  report_lem [] s v =
      let le = used_le s in (λ few. (s, refl, v, omega arith), λ many. absurd (omega arith))
  report_lem (event ∷ events) s v = elim (Bool-cases s.pool.locked) [
    | inl u ↦ (
      λ few. let few : 1 + length (event ∷ events) ≤ 1 = rw u at few in absurd (omega arith),
      λ many. rw (report, pop_taken s u, ◌>>=◌) refl,
    )
    | inr u ↦
        let pool : MsgPool = record { locked = true; msgs = rest s.pool.msgs } in
        let (a, t, e, w, steady) =
          send-Keeps service_id (fill event (front s.pool.msgs)) (record s { pool = pool })
            (with_pool s pool v) in
        let held : t.pool.locked ≡ true = ap (λ p. p.locked) steady.pool in
        let (ends, stuck) = report_lem events t w in
        let goes : report (event ∷ events) s ≡ report events t =
          rw (report, popped s u, ◌>>=◌) (rw (e, ◌>>◌) refl) in
        (
          λ few.
              let few : 0 + length (event ∷ events) ≤ 1 = rw u at few in
              let (r, f, x, n) = ends (rw held (omega arith)) in
              let n : used r ≡ 1 + length events = rw held at n in
              (r, goes ∙ f, x, rw u (omega arith)),
          λ many.
              let many : 1 < 0 + length (event ∷ events) = rw u at many in
              goes ∙ stuck (rw held (omega arith)),
        )
  ]

  module _ (p : ℕ) (msg : SocketMsg) (inputs : List (ℕ × SocketMsg)) (w v : WebsocketServer)
      (s : Server) (first : List Event) (served : on_server_msg p msg w ≡ ok (first, v)) where
    reporting_ends :
        (t r : Server) (u : WebsocketServer) (later : List Event)
        → report first s ≡ ok (tt, t)
        → serve_reporting inputs (record { socket = v; services = t })
          ≡ ok (later, record { socket = u; services = r })
        → serve_reporting ((p, msg) ∷ inputs) (record { socket = w; services = s })
          ≡ ok (first ++ later, record { socket = u; services = r })
    unfolding serve_reporting
    reporting_ends t r u later g k =
        rw (serve_reporting, ◌>>=◌, served) (rw (g, ◌>>◌) (rw (k, ◌>>=◌) refl))

    reporting_blocks :
        (t : Server)
        → report first s ≡ ok (tt, t)
        → serve_reporting inputs (record { socket = v; services = t }) ≡ blocks
        → serve_reporting ((p, msg) ∷ inputs) (record { socket = w; services = s }) ≡ blocks
    unfolding serve_reporting
    reporting_blocks t g k = rw (serve_reporting, ◌>>=◌, served) (rw (g, ◌>>◌) (rw (k, ◌>>=◌) refl))

    report_blocks :
        report first s ≡ blocks
        → serve_reporting ((p, msg) ∷ inputs) (record { socket = w; services = s }) ≡ blocks
    unfolding serve_reporting
    report_blocks g = rw (serve_reporting, ◌>>=◌, served) (rw (g, ◌>>◌) refl)

  -- What the server reports, with the callbacks.
  reporting_lem :
      (inputs : List (ℕ × SocketMsg)) (w : WebsocketServer) (s : Server) (events : List Event)
      (u : WebsocketServer)
      → IsSound s
      → serve inputs w ≡ ok (events, u)
      → (used s + length events ≤ 1
          → (t : Server) × (serve_reporting inputs (record { socket = w; services = s })
              ≡ ok (events, record { socket = u; services = t })))
        × (1 < used s + length events
            → serve_reporting inputs (record { socket = w; services = s }) ≡ blocks)
  unfolding serve serve_reporting
  reporting_lem [] w s events u v h =
      let none_there : [] ≡ events = cc in
      let same : w ≡ u = cc in
      let le = used_le s in
      (
        λ few. (s, rw (none_there, same) refl),
        λ many. let empty : length events ≡ 0 = ap length (sym none_there) in absurd (omega arith),
      )
  reporting_lem ((p, msg) ∷ inputs) w s events u v h =
      let (first, w', e, h) =
        next_inv (on_server_msg p msg w) (λ first. do later ← serve inputs; return (first ++ later))
          events u h in
      let (later, u', f, h) =
        next_inv (serve inputs w') (λ later. return (first ++ later)) events u h in
      let parts : first ++ later ≡ events = cc in
      let same : u' ≡ u = cc in
      let size : length events ≡ length first + length later =
        ap length (sym parts) ∙ length-append first later in
      let (ends, stuck) = report_lem first s v in
      elim (few_or_many (used s + length first)) [
        | inl few ↦
            let (t, g, x, n) = ends few in
            let (all, none_) =
              reporting_lem inputs w' t later u x (f ∙ ap (λ r. ok (later, r)) same) in
            (
              λ le.
                  let (r, k) = all (omega arith) in
                  (
                    r,
                    reporting_ends p msg inputs w w' s first e t r u later g k
                        ∙ ap (λ es. ok (es, record { socket = u; services = r })) parts,
                  ),
              λ gt. reporting_blocks p msg inputs w w' s first e t g (none_ (omega arith)),
            )
        | inr many ↦ (
          λ le. absurd (omega arith),
          λ gt. report_blocks p msg inputs w w' s first e (stuck many),
        )
      ]

  -- A server with its three callbacks, whose maps are inverse to each other, is told of any messages for
  -- any sockets, as long as no socket is opened that is open and the numbers last; the services are sound
  -- and the pool is free. Where the callbacks return, every call does, the maps stay inverse to each other,
  -- and each connection number is reported by the rule: once connected, if it is the number of a new
  -- connection, then what it receives, then once its end. With the callbacks, which take a message from
  -- the pool for each report, the calls return with these reports where there is at most one, and the second
  -- report never returns.
  pub serve_reporting_lem :
      (f : ℕ → Bool) (inputs : List (ℕ × SocketMsg)) (w : WebsocketServer) (s : Server)
      → IsServing f w
      → IsProper f inputs
      → w.auto_id + length inputs < 2 ^ 64
      → IsSound s
      → s.pool.locked ≡ false
      → (events : List Event) × (u : WebsocketServer) × (serve inputs w ≡ ok (events, u))
        × IsServing (after_all inputs f) u
        × ((fd : ℕ) → follows fd events (phase_of w fd) ≡ some (phase_of u fd))
        × (((length events ≤ 1)
              × (t : Server) × (serve_reporting inputs (record { socket = w; services = s })
                  ≡ ok (events, record { socket = u; services = t })))
            ⊎ ((1 < length events)
                × (serve_reporting inputs (record { socket = w; services = s }) ≡ blocks)))
  serve_reporting_lem f inputs w s serving proper low sound free =
      let (events, u, e, serving', less, phases) =
        serve_conversations f inputs w serving proper low in
      let (ends, stuck) = reporting_lem inputs w s events u sound e in
      (
        events,
        u,
        e,
        serving',
        phases,
        elim (few_or_many (length events)) [
          | inl few ↦ let (t, g) = ends (rw free (omega arith)) in inl (few, t, g)
          | inr many ↦ inr (many, stuck (rw free (omega arith)))
        ],
      )
