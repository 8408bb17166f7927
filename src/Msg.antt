-- ===== src/Msg.antt =====
-- src/service/msg/serviceMsg.hpp and serviceMsg.cpp: the message that every part of the server hands
-- to a service, and the table that Lua sees of it (the loop body of `Service::poll`).
pub mod Fill
pub mod Payload
pub mod Delivery
use server.Prelude.{
  ℕ, zero, suc, ◌+◌, ◌-◌, ◌^◌, ◌%◌, ◌≡◌, Bool, true, false, Option, none, some, List, [], ◌∷◌, ◌++◌,
  map, ltb, leb, if◌then◌else◌, length, take, drop, replicate,
}
use server.Prelude.Int.{ℤ, pos, negsuc}

-- `ServiceMsgType`
pub data ServiceMsgType : Type 0 where
  none_type close timer lua lua_response http_client websocket_server tcp_server tcp_client :
      ServiceMsgType

-- `static_cast<uint32_t>` of a message type.
abbrev pub type_code : ServiceMsgType → ℕ
type_code none_type = 0
type_code close = 1
type_code timer = 2
type_code lua = 3
type_code lua_response = 4
type_code http_client = 5
type_code websocket_server = 6
type_code tcp_server = 8
type_code tcp_client = 9

-- `status` is the bit pattern of an `int32_t`; `buffer` is the vector `data`, and `error` the bytes
-- of the text.
pub record ServiceMsg : Type 0 where
  pub source : ℕ
  pub session : ℕ
  pub msg_type : ℕ
  pub status : ℕ
  pub fd : ℕ
  pub data_len : ℕ
  pub is_ok : Bool
  pub buffer : List ℕ
  pub error : List ℕ

-- The initial size of `data`.
abbrev pub buffer_size : ℕ
buffer_size = 4096

-- `std::make_shared<ServiceMsg>()`, which zeroes the fields with no initialiser.
unfoldable pub make_msg : ServiceMsg
make_msg = record {
  source = 0;
  session = 0;
  msg_type = 0;
  status = 0;
  fd = 0;
  data_len = 0;
  is_ok = false;
  buffer = replicate buffer_size 0;
  error = [];
}

-- `ServiceMsg::reset`: `memset` zeroes the buffer, which keeps its size; `fd` is left.
unfoldable pub reset : ServiceMsg → ServiceMsg
reset m = record m {
  source = 0;
  session = 0;
  msg_type = 0;
  status = 0;
  data_len = 0;
  is_ok = false;
  buffer = map (λ _. 0) m.buffer;
  error = [];
}

-- Every field but `fd` and the buffer is as in a new message.
pub record IsReset (m : ServiceMsg) : Type 0 where
  pub no_source : m.source ≡ 0
  pub no_session : m.session ≡ 0
  pub no_type : m.msg_type ≡ 0
  pub no_status : m.status ≡ 0
  pub no_len : m.data_len ≡ 0
  pub not_ok : m.is_ok ≡ false
  pub no_error : m.error ≡ []

-- `vector::resize`
unfoldable pub resize : ℕ → List ℕ → List ℕ
resize n b = if leb n (length b) then take n b else b ++ replicate (n - length b) 0

-- `memcpy` to the start of the buffer; `none` is a write past its end.
unfoldable pub copy_in : List ℕ → List ℕ → Option (List ℕ)
copy_in payload b =
    if leb (length payload) (length b) then some (payload ++ drop (length payload) b) else none

-- The bytes up to the first zero: what `lua_pushstring` reads of `c_str()`.
unfoldable pub c_str : List ℕ → List ℕ
c_str [] = []
c_str (zero ∷ cs) = []
c_str (suc c ∷ cs) = suc c ∷ c_str cs

-- The value of an `int32_t` of this bit pattern.
abbrev pub signed32 : ℕ → ℤ
signed32 n = if ltb n (2 ^ 31) then pos n else negsuc (2 ^ 32 - 1 - n)

-- The table that `Service::poll` builds of a message.
pub record LuaMsg : Type 0 where
  pub msg_type : ℕ
  pub session : ℕ
  pub source : ℕ
  pub bytes : List ℕ
  pub error : List ℕ
  pub status : ℤ
  pub fd : ℕ
  pub is_ok : Bool

-- `lua_pushlstring` reads `dataLen` bytes of the buffer; `none` is a read past its end.
unfoldable pub lua_view : ServiceMsg → Option LuaMsg
lua_view m =
    if leb m.data_len (length m.buffer)
    then some (record {
      msg_type = m.msg_type;
      session = m.session;
      source = m.source;
      bytes = take m.data_len m.buffer;
      error = c_str m.error;
      status = signed32 m.status;
      fd = m.fd;
      is_ok = m.is_ok;
    })
    else none
