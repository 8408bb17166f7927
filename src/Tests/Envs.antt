-- ===== src/Tests/Envs.antt =====
-- The environment at concrete calls.
use server.Prelude.{ℕ, ◌≡◌, refl, List, [], ◌∷◌, ok}
use server.Prelude.Dict.{find_key, same_text}
use server.Lua.{Result, LuaValue}
use server.Lua
use server.Msg.{c_str}
use server.Config.{check_string}
use server.LuaApi.{LuaApi, new_api, env}
use server.LuaApi.Envs.{Call, set_env_call, run, env-run}
use server.Tests.Configs.{tenths}

-- a = "x", then a = "y"
abbrev twice : List (Call ℕ)
twice =
    set_env_call (Lua.string (97 ∷ [])) (Lua.string (120 ∷ []))
    ∷ set_env_call (Lua.string (97 ∷ [])) (Lua.string (121 ∷ []))
    ∷ []

env-run_example :
    (answers : List (Result (LuaValue ℕ))) × (t : LuaApi) × (run tenths twice new_api
      ≡ ok (answers, t))
    × (env tenths (Lua.string (97 ∷ [])) t ≡ ok (Lua.ok (Lua.string (120 ∷ [])), t))
unfolding check_string same_text c_str find_key
env-run_example = env-run tenths twice new_api (97 ∷ []) refl
