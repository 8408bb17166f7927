-- ===== src/Msg/Payload.antt =====
-- How a payload gets through the buffer of a message.
use server.Prelude.{
  ℕ, ◌+◌, ◌-◌, ◌%◌, ◌^◌, ◌≤◌, ◌<◌, ◌≡◌, subst, Bool, Option, some, List, ◌++◌, ltb, if◌then◌else◌,
  length, length-append, length-replicate, drop, take-length-append, arith, replicate,
}
use server.Msg.{ServiceMsg, LuaMsg, lua_view, resize, copy_in, c_str, signed32}
use server.Msg.Fill.{store_payload}

length-resize : (n : ℕ) (b : List ℕ) → length b < n → length (resize n b) ≡ n
unfolding resize
length-resize n b h =
    ground (
      arith,
      length-append b (replicate (n - length b) 0),
      length-replicate {A = ℕ} (n - length b) 0,
    )

-- The buffer that `store_payload` writes to.
abbrev pub room : Bool → List ℕ → ServiceMsg → List ℕ
room too_small payload m = if too_small then resize (length payload + 1) m.buffer else m.buffer

-- A payload that fits is stored at the front of the buffer.
pub store_payload_lem :
    (too_small : Bool) (payload : List ℕ) (m : ServiceMsg)
    → length payload ≤ length (room too_small payload m)
    → store_payload too_small payload m
      ≡ some (record m {
        data_len = length payload;
        buffer = payload ++ drop (length payload) (room too_small payload m);
      })
unfolding store_payload copy_in
store_payload_lem too_small payload m h = ground arith

-- With either test the buffer is large enough.
pub room_below :
    (payload : List ℕ) (m : ServiceMsg)
    → length payload ≤ length (room (ltb (length m.buffer) (length payload)) payload m)
room_below payload m = ground (arith, length-resize (length payload + 1) m.buffer)

pub room_below_suc :
    (payload : List ℕ) (m : ServiceMsg)
    → length payload ≤ length (room (ltb (length m.buffer) (length payload + 1)) payload m)
room_below_suc payload m = ground (arith, length-resize (length payload + 1) m.buffer)

pub room_send :
    (payload : List ℕ) (m : ServiceMsg)
    → 0 < length m.buffer
    → length m.buffer < 2 ^ 64
    → length payload
      ≤ length (room (ltb ((length m.buffer + 2 ^ 64 - 1) % 2 ^ 64) (length payload)) payload m)
room_send payload m h k = ground (arith, length-resize (length payload + 1) m.buffer)

-- Lua reads the payload back.
pub lua_view_lem :
    (m : ServiceMsg) (payload rest : List ℕ)
    → lua_view (record m { data_len = length payload; buffer = payload ++ rest })
      ≡ some (record {
        msg_type = m.msg_type;
        session = m.session;
        source = m.source;
        bytes = payload;
        error = c_str m.error;
        status = signed32 m.status;
        fd = m.fd;
        is_ok = m.is_ok;
      })
unfolding lua_view
lua_view_lem m payload rest =
    ground (arith, length-append payload rest, take-length-append payload rest)

-- The handler wrote within the buffer, and Lua reads `v` of the message.
abbrev pub Delivers : Option ServiceMsg → LuaMsg → Type 0
Delivers o v = (m : ServiceMsg) × (o ≡ some m) × (lua_view m ≡ some v)

pub Delivers-stored :
    (too_small : Bool) (payload : List ℕ) (m : ServiceMsg)
    → length payload ≤ length (room too_small payload m)
    → Delivers (store_payload too_small payload m) (record {
      msg_type = m.msg_type;
      session = m.session;
      source = m.source;
      bytes = payload;
      error = c_str m.error;
      status = signed32 m.status;
      fd = m.fd;
      is_ok = m.is_ok;
    })
Delivers-stored too_small payload m h =
    (_, store_payload_lem too_small payload m h, lua_view_lem m payload _)

pub Delivers-eq : {o : Option ServiceMsg} {v w : LuaMsg} → v ≡ w → Delivers o v → Delivers o w
Delivers-eq {o} e d = subst (Delivers o) e d

pub copy_in_lem :
    (payload b : List ℕ)
    → length payload ≤ length b
    → copy_in payload b ≡ some (payload ++ drop (length payload) b)
unfolding copy_in
copy_in_lem payload b h = ground arith
