-- ===== src/Tests/Redises.antt =====
-- The replies of Redis at a concrete one.
use server.Prelude.{ℕ, ◌≡◌, ◌≤◌, ◌⊎◌, some, [], ◌∷◌}
use server.Prelude.Int.{pos}
use server.Lua.{LuaTable, ok, undefined}
use server.Redis.{Reply, array, integer_reply, nil_reply, text, no_elements, element, cmd_redis}
use server.Redis.Replies.{ShowsAll, elements_of, depth, cmd_redis_lem}

-- {nil, {5}, "a"}
abbrev nested : Reply ℕ
nested = array (
    element nil_reply (
      element (array (element (integer_reply (pos 5)) no_elements))
        (element (text (97 ∷ [])) no_elements)))

cmd_redis_lem_example :
    ((depth (elements_of nested) ≤ 19)
      × (t : LuaTable ℕ) × (cmd_redis (some nested) ≡ ok (some t))
      × ShowsAll t (elements_of nested) 1)
    ⊎ ((20 ≤ depth (elements_of nested)) × (cmd_redis (some nested) ≡ undefined))
cmd_redis_lem_example = cmd_redis_lem nested
