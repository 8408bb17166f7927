-- ===== src/Redis.antt =====
-- src/sql/redis/redis.cpp: how a reply of Redis becomes a Lua table. The client library is a parameter.
-- The slots of the Lua stack are counted: each array inside an array takes one, and nothing asks Lua for
-- more.
pub mod Replies
use server.Prelude.{
  ℕ, ◌+◌, Bool, true, false, List, [], ◌∷◌, Option, none, some, if◌then◌else◌, leb, max,
}
use server.Prelude.Int.{ℤ, pos}
use server.Lua.{
  LuaValue, nil, integer, number, string, table, LuaTable, done, Result, ok, undefined, min_stack,
}
use server.Lua.Fields.{put_index}
use server.Msg.{c_str}

-- A `redisReply` by its type; a string, a status and an error have a text.
mutual
  pub data Reply (F : Type 0) : Type 0 where
    array : Elements F → Reply F
    integer_reply : ℤ → Reply F
    nil_reply : Reply F
    double : F → Reply F
    text : List ℕ → Reply F
    unknown : Reply F

  pub data Elements (F : Type 0) : Type 0 where
    no_elements : Elements F
    element : Reply F → Elements F → Elements F

-- `redisConnect`: no context, one with an error, or one.
pub data Connection : Type 0 where
  no_context : Connection
  failed_context : Connection
  context : Connection

module _ {F : Type 0} where
  -- `newTableFromRedisReply`, which works on the table at the top of the stack.
  unfoldable mutual
    pub new_table_from_redis_reply :
        Reply F → (index : ℕ) → (is_root : Bool) → LuaTable F → LuaTable F
    new_table_from_redis_reply (array elements) index true t = add_elements elements 1 t
    new_table_from_redis_reply (array elements) index false t =
        put_index (pos index) (table (add_elements elements 1 done)) t
    new_table_from_redis_reply (integer_reply z) index is_root t =
        put_index (pos index) (integer z) t
    new_table_from_redis_reply nil_reply index is_root t = put_index (pos index) nil t
    new_table_from_redis_reply (double x) index is_root t = put_index (pos index) (number x) t
    new_table_from_redis_reply (text s) index is_root t = put_index (pos index) (string (c_str s)) t
    new_table_from_redis_reply unknown index is_root t = t

    -- The loop over the elements of an array.
    pub add_elements : Elements F → (index : ℕ) → LuaTable F → LuaTable F
    add_elements no_elements index t = t
    add_elements (element r elements) index t =
        add_elements elements (index + 1) (new_table_from_redis_reply r index false t)

  -- How many slots `newTableFromRedisReply` takes.
  abbrev mutual
    pub slots_of : (is_root : Bool) → Reply F → ℕ
    slots_of true (array elements) = slots_of_all elements
    slots_of false (array elements) = 1 + slots_of_all elements
    slots_of is_root unknown = 0
    slots_of is_root r = 1

    pub slots_of_all : Elements F → ℕ
    slots_of_all no_elements = 0
    slots_of_all (element r elements) = max (slots_of false r) (slots_of_all elements)

  -- `cmdRedis`, where the library answers with a reply or a null pointer; the root's table takes one slot
  -- of those that Lua gives.
  unfoldable pub cmd_redis : Option (Reply F) → Result (Option (LuaTable F))
  unfolding new_table_from_redis_reply add_elements
  cmd_redis none = ok none
  cmd_redis (some reply) =
      if leb (1 + slots_of true reply) min_stack
      then ok (some (new_table_from_redis_reply reply 1 true done))
      else undefined

-- `newRedis`: whether a context is returned, and how many contexts are kept by nobody.
unfoldable pub new_redis : Connection → Bool × ℕ
new_redis no_context = (false, 0)
new_redis failed_context = (false, 1)
new_redis context = (true, 0)
