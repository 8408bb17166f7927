-- ===== src/Service/Poll.antt =====
-- What a service hands to Lua, and when.
use server.Prelude.{
  ◌≤◌, ◌≡◌, refl, ap, ◌∙◌, true, false, List, [], ◌∷◌, ◌++◌, none, some, map, take, length, All,
  All-append, arith, ok, blocks, ◌>>=◌, ◌>>◌,
}
use server.Msg.{ServiceMsg, LuaMsg, lua_view, c_str, signed32, reset}
use server.MsgPool.{MsgPool}
use server.MsgPool
use server.MsgPool.Laws.{push_lem}
use server.Service.{
  Host, Service, LuaState, Polling, read_msg, drain, hand_over, poll, push_msg, close,
}
use mathlib.Core.List.{append_assoc, append-nil, map-append}

-- The length of the data is within the buffer.
abbrev pub Fits : ServiceMsg → Type 0
Fits m = m.data_len ≤ length m.buffer

-- What Lua reads of a message that fits.
abbrev pub shown : ServiceMsg → LuaMsg
shown m = record {
  msg_type = m.msg_type;
  session = m.session;
  source = m.source;
  bytes = take m.data_len m.buffer;
  error = c_str m.error;
  status = signed32 m.status;
  fd = m.fd;
  is_ok = m.is_ok;
}

read_msg_lem : (m : ServiceMsg) (p : MsgPool) → Fits m → read_msg m p ≡ ok (shown m, p)
unfolding read_msg lua_view
read_msg_lem m p h = ground arith

drain_lem :
    (ms : List ServiceMsg) (p : MsgPool)
    → p.locked ≡ false
    → All Fits ms
    → drain ms p ≡ ok (map shown ms, record p { msgs = p.msgs ++ map reset ms })
unfolding drain
drain_lem [] p u h = rw (append-nil p.msgs)
drain_lem (m ∷ ms) p u h =
    rw (read_msg_lem m p h.0, ◌>>=◌)
      (rw (push_lem m p u, ◌>>◌)
        (rw (drain_lem ms (record p { msgs = p.msgs ++ reset m ∷ [] }) u h.1, ◌>>=◌)
          (rw (append_assoc p.msgs (reset m ∷ []) (map reset ms)))))

push_taken : (m : ServiceMsg) (p : MsgPool) → p.locked ≡ true → MsgPool.push m p ≡ blocks
unfolding MsgPool.push
push_taken m p u = ground arith

drain_taken :
    (m : ServiceMsg) (ms : List ServiceMsg) (p : MsgPool)
    → p.locked ≡ true
    → Fits m
    → drain (m ∷ ms) p ≡ blocks
unfolding drain
drain_taken m ms p u h = rw (read_msg_lem m p h, ◌>>=◌) (rw (push_taken m p u, ◌>>◌))

-- An initialised service of which nobody holds the mutex, with a state where `onPoll` is a function.
pub record IsReady (host : Host) (s : Service) : Type 0 where
  pub started : s.is_init ≡ true
  pub free : s.locked ≡ false
  pub on_poll : (L : LuaState) × (s.state ≡ some L) × (host.has_on_poll L ≡ true)

poll-hand_over : (host : Host) (p : Polling) → IsReady host p.service → poll host p ≡ hand_over p
unfolding poll
poll-hand_over host p r = ground (arith, r.on_poll.1, r.on_poll.2)

-- A ready service whose pool is free hands Lua every queued message once, in the order of arrival,
-- gives each back to the pool after a reset, and ends with an empty queue and both mutexes free.
poll_delivers :
    (host : Host) (s : Service) (pool : MsgPool)
    → IsReady host s
    → pool.locked ≡ false
    → All Fits s.msgs
    → poll host (record { service = s; pool = pool })
      ≡ ok (
        some (map shown s.msgs),
        record {
          service = record s { msgs = [] };
          pool = record pool { msgs = pool.msgs ++ map reset s.msgs };
        },
      )
unfolding hand_over
poll_delivers host s pool r u h =
    poll-hand_over host _ r ∙ ground (arith, drain_lem s.msgs pool u h, r.free)

-- While the mutex of the pool is taken, which every `pop` leaves it, the `poll` of a ready service
-- with a message in its queue never returns.
poll_blocks :
    (host : Host) (s : Service) (pool : MsgPool) (m : ServiceMsg) (ms : List ServiceMsg)
    → IsReady host s
    → pool.locked ≡ true
    → s.msgs ≡ m ∷ ms
    → Fits m
    → poll host (record { service = s; pool = pool }) ≡ blocks
unfolding hand_over
poll_blocks host s pool m ms r u e h =
    poll-hand_over host _ r ∙ ground (arith, drain_taken m ms pool u h, r.free)

push_msg_ready :
    (m : ServiceMsg) (s : Service)
    → s.is_init ≡ true
    → s.locked ≡ false
    → push_msg m s ≡ ok (tt, record s { msgs = s.msgs ++ m ∷ [] })
unfolding push_msg
push_msg_ready m s i u = ground arith

-- A message pushed to a ready service is the last of those that its next `poll` hands to Lua.
push-poll :
    (host : Host) (s : Service) (pool : MsgPool) (m : ServiceMsg)
    → IsReady host s
    → pool.locked ≡ false
    → All Fits s.msgs
    → Fits m
    → (t : Service) × (p : Polling) × (push_msg m s ≡ ok (tt, t))
      × (poll host (record { service = t; pool = pool })
          ≡ ok (some (map shown s.msgs ++ shown m ∷ []), p))
      × (p.service.msgs ≡ [])
push-poll host s pool m r u h k =
    let after : Service = record s { msgs = s.msgs ++ m ∷ [] } in
    let ready : IsReady host after = record {
      started = r.started;
      free = r.free;
      on_poll = r.on_poll;
    } in
    let polled : Polling = record {
      service = record s { msgs = [] };
      pool = record pool { msgs = pool.msgs ++ map reset (s.msgs ++ m ∷ []) };
    } in
    (
      after,
      polled,
      push_msg_ready m s r.started r.free,
      poll_delivers host after pool ready u (All-append s.msgs (m ∷ []) Fits (h, (k, tt)))
          ∙ ap (λ vs. ok (some vs, polled)) (map-append shown s.msgs (m ∷ [])),
      refl,
    )

pop_takes : (pool p : MsgPool) (m : ServiceMsg) → MsgPool.pop pool ≡ ok (m, p) → p.locked ≡ true
unfolding MsgPool.pop
pop_takes pool p m h = ground arith

-- The first message of a queue is within its buffer where all are.
first-Fits :
    (queue : List ServiceMsg) (filled : ServiceMsg)
    → All Fits queue
    → Fits filled
    → (m : ServiceMsg) × (ms : List ServiceMsg) × (queue ++ filled ∷ [] ≡ m ∷ ms) × Fits m
first-Fits [] filled h k = (filled, [], refl, k)
first-Fits (m ∷ ms) filled h k = (m, ms ++ filled ∷ [], refl, h.0)

-- Where a message was taken from the pool, as every sender does, and it or what was made of it is pushed
-- to a ready service, whose messages lie within their buffers, then it joins the queue, and the service's
-- next `poll` with this pool never returns.
pub pop-push_msg-poll :
    (host : Host) (s : Service) (pool p : MsgPool) (m filled : ServiceMsg)
    → IsReady host s
    → MsgPool.pop pool ≡ ok (m, p)
    → All Fits s.msgs
    → Fits filled
    → (t : Service) × (push_msg filled s ≡ ok (tt, t))
      × (t.msgs ≡ s.msgs ++ filled ∷ [])
      × (poll host (record { service = t; pool = p }) ≡ blocks)
pop-push_msg-poll host s pool p m filled r taken h k =
    let after : Service = record s { msgs = s.msgs ++ filled ∷ [] } in
    let ready : IsReady host after = record {
      started = r.started;
      free = r.free;
      on_poll = r.on_poll;
    } in
    let (first, others, same, fits) = first-Fits s.msgs filled h k in
    (
      after,
      push_msg_ready filled s r.started r.free,
      refl,
      poll_blocks host after p first others ready (pop_takes pool p m taken) same fits,
    )

-- A closed service drops what is pushed and calls nothing, and closing it again changes nothing.
close_lem :
    (host : Host) (s : Service) (pool : MsgPool) (m : ServiceMsg)
    → s.locked ≡ false
    → (t : Service) × (close s ≡ ok (tt, t))
      × (close t ≡ ok (tt, t))
      × (push_msg m t ≡ ok (tt, t))
      × (poll host (record { service = t; pool = pool })
          ≡ ok (none, record { service = t; pool = pool }))
      × (t.msgs ≡ s.msgs)
unfolding close push_msg poll
close_lem host s pool m u = (record s { is_init = false }, ground arith, refl, refl, refl, refl)
