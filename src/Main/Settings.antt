-- ===== src/Main/Settings.antt =====
-- src/main.cpp: the start script among the settings of `readConfig`.
use server.Prelude.{
  ◌≡◌, ◌≢◌, refl, ◌∙◌, ap, Bool, true, false, ◌||◌, Option, none, some, Bool-cases, inl, inr,
}
use server.Prelude.Int.{ℤ}
use server.Lua.{LuaValue, table, LuaTable, done, entry, Result, ok, ◌>>=◌, bind-ok}
use server.Config.{Numbers, check_key, check_string}
use server.Main.{
  ServerConfig, new_config, Setting, thread, start, log_file, lua_path, c_path, service_path, args,
  setting_of, push_list, read_setting, read_settings, is_valid, read_config,
}

abbrev pub is_start : Option Setting → Bool
is_start (some start) = true
is_start s = false

module _ {F G : Type 0} (n : Numbers F G) (check_thread_num : LuaValue F → Result ℤ) where
  -- Some key of the table is "start".
  abbrev pub names_start : LuaTable F → Bool
  names_start done = false
  names_start (entry k v t) =
      elim (check_key k) [ ok key ↦ is_start (setting_of key) | _ ↦ false ] || names_start t

  kept :
      {A : Type 0} (r : Result A) (put : A → ServerConfig) (c d : ServerConfig)
      → ((a : A) → (put a).start_script ≡ c.start_script)
      → (r >>= (λ a. ok (put a))) ≡ ok d
      → d.start_script ≡ c.start_script
  kept r put c d same h =
      let (a, e, q) = bind-ok r (λ a. ok (put a)) d h in let q : put a ≡ d = cc in rw (← q) (same a)

  read_setting_keeps :
      (o : Option Setting) (v : LuaValue F) (c d : ServerConfig)
      → is_start o ≡ false
      → read_setting n check_thread_num o v c ≡ ok d
      → d.start_script ≡ c.start_script
  unfolding read_setting
  read_setting_keeps none v c d none_named h = let q : c ≡ d = cc in rw (← q) refl
  read_setting_keeps (some thread) v c d none_named h =
      kept (check_thread_num v) (λ num. record c { thread_num = num }) c d (λ a. refl) h
  read_setting_keeps (some start) v c d none_named h = cc
  read_setting_keeps (some log_file) v c d none_named h =
      kept (check_string n v) (λ text. record c { log_file_path = text }) c d (λ a. refl) h
  read_setting_keeps (some lua_path) v c d none_named h =
      kept (check_string n v) (λ text. record c { lua_path = text }) c d (λ a. refl) h
  read_setting_keeps (some c_path) v c d none_named h =
      kept (check_string n v) (λ text. record c { c_path = text }) c d (λ a. refl) h
  read_setting_keeps (some service_path) v c d none_named h =
      kept (push_list n check_thread_num v c.service_paths)
        (λ texts. record c { service_paths = texts }) c d (λ a. refl) h
  read_setting_keeps (some args) v c d none_named h =
      kept (push_list n check_thread_num v c.args) (λ texts. record c { args = texts }) c d
        (λ a. refl) h

  read_settings_keeps :
      (t : LuaTable F) (c d : ServerConfig)
      → names_start t ≡ false
      → read_settings n check_thread_num t c ≡ ok d
      → d.start_script ≡ c.start_script
  unfolding read_settings
  read_settings_keeps done c d none_named h = let q : c ≡ d = cc in rw (← q) refl
  read_settings_keeps (entry k v t) c d none_named h =
      let (key, e, h) =
        bind-ok (check_key k)
          (λ key.
            read_setting n check_thread_num (setting_of key) v c
            >>= (λ d. read_settings n check_thread_num t d))
          d h in
      let (b, f, h) =
        bind-ok (read_setting n check_thread_num (setting_of key) v c)
          (λ d. read_settings n check_thread_num t d) d h in
      let none_named : (is_start (setting_of key) || names_start t) ≡ false = rw e at none_named in
      elim (Bool-cases (is_start (setting_of key))) [
        | inl s ↦ let none_named : true ≡ false = rw s at none_named in cc
        | inr s ↦
            let none_named : names_start t ≡ false = rw s at none_named in
            read_settings_keeps t b d none_named h ∙ read_setting_keeps (setting_of key) v c b s f
      ]

  -- Whatever else the table of the configuration holds, and however many threads the machine has: without
  -- a start script the server does not start.
  read_config_needs_start :
      (t : LuaTable F) (hardware_concurrency : ℤ) (d : ServerConfig)
      → names_start t ≡ false
      → read_config n check_thread_num (table t) (new_config hardware_concurrency) ≢ ok (true, d)
  unfolding read_config
  read_config_needs_start t cores d none_named h =
      let (b, e, q) =
        bind-ok (read_settings n check_thread_num t (new_config cores))
          (λ d. ok (is_valid n check_thread_num d, d)) (true, d) h in
      let empty = read_settings_keeps t (new_config cores) b none_named e in
      let p : ◌≡◌ {A = Bool × ServerConfig} (is_valid n check_thread_num b, b) (true, d) = cc in
      let p : is_valid n check_thread_num b ≡ true = ap (λ x. x.0) p in
      let p : false ≡ true = rw empty at p in cc
