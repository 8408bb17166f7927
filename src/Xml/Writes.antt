-- ===== src/Xml/Writes.antt =====
-- src/xml/xml.cpp: what `encode` writes of tables that are built in the way of `decode`.
use server.Prelude.{
  ℕ, ◌+◌, ◌≡◌, refl, sym, ap, ◌∙◌, List, [], ◌++◌, Option, none, some, Bool-cases, inl, inr, arith,
  append_assoc, append_nil,
}
use server.Prelude.Int.{pos}
use server.Prelude.Dict.{same_text_self}
use server.Lua.{
  LuaValue, integer, string, LuaTable, done, entry, is_text, set_field, set_index, Result, ok,
  raise, undefined, ◌>>=◌,
}
use server.Lua.Ends.{snoc, set_index-snoc, IsBelow, has_index-snoc, has_index-set_field}
use server.Config.{Numbers}
use server.Xml.{WriterCall, data_key, set_data, fetch_create_xml, write_value}

module _ {F G : Type 0} (n : Numbers F G) where
  -- The calls of the one and then of the other.
  abbrev join : Result (List WriterCall) → Result (List WriterCall) → Result (List WriterCall)
  join a b = a >>= (λ calls. b >>= (λ later. ok (calls ++ later)))

  join_assoc : (a b c : Result (List WriterCall)) → join (join a b) c ≡ join a (join b c)
  join_assoc (ok a) (ok b) (ok c) = ap ok (append_assoc a b c)
  join_assoc (ok a) (ok b) raise = refl
  join_assoc (ok a) (ok b) undefined = refl
  join_assoc (ok a) raise c = refl
  join_assoc (ok a) undefined c = refl
  join_assoc raise b c = refl
  join_assoc undefined b c = refl

  join_nil : (a : Result (List WriterCall)) → join a (ok []) ≡ a
  join_nil (ok a) = ap ok (append_nil a)
  join_nil raise = refl
  join_nil undefined = refl

  nil_join : (a : Result (List WriterCall)) → join (ok []) a ≡ a
  nil_join (ok a) = refl
  nil_join raise = refl
  nil_join undefined = refl

  pub fetch_create_xml-done : fetch_create_xml n done ≡ ok []
  unfolding fetch_create_xml
  fetch_create_xml-done = refl

  fetch_create_xml-entry :
      (k v : LuaValue F) (t : LuaTable F)
      → fetch_create_xml n (entry k v t) ≡ join (write_value n v) (fetch_create_xml n t)
  unfolding fetch_create_xml
  fetch_create_xml-entry k v t = refl

  write_value-string : (s : List ℕ) → write_value n (string s) ≡ ok []
  unfolding write_value
  write_value-string s = refl

  pub fetch_create_xml-text :
      (k : LuaValue F) (s : List ℕ) (t : LuaTable F)
      → fetch_create_xml n (entry k (string s) t) ≡ fetch_create_xml n t
  fetch_create_xml-text k s t =
      fetch_create_xml-entry k (string s) t
      ∙ rw (write_value-string s) (nil_join (fetch_create_xml n t))

  fetch_create_xml-snoc :
      (t : LuaTable F) (k v : LuaValue F)
      → fetch_create_xml n (snoc t k v) ≡ join (fetch_create_xml n t) (write_value n v)
  fetch_create_xml-snoc done k v =
      fetch_create_xml-entry k v done
      ∙ rw fetch_create_xml-done (join_nil (write_value n v) ∙ sym (nil_join (write_value n v)))
  fetch_create_xml-snoc (entry j w t) k v =
      rw
        (
          fetch_create_xml-entry j w (snoc t k v),
          fetch_create_xml-entry j w t,
          fetch_create_xml-snoc t k v,
        )
        (sym (join_assoc (write_value n w) (fetch_create_xml n t) (write_value n v)))

  -- A text that is stored under a key writes nothing, before or after the next element.
  set_field-snoc_writes :
      (k s : List ℕ) (t : LuaTable F) (i : ℕ) (v : LuaValue F)
      → fetch_create_xml n (set_field k (string s) (snoc t (integer (pos i)) v))
        ≡ join (fetch_create_xml n (set_field k (string s) t)) (write_value n v)
  unfolding set_field
  set_field-snoc_writes k s done i v =
      fetch_create_xml-entry (integer (pos i)) v (entry (string k) (string s) done)
      ∙ rw (fetch_create_xml-text (string k) s done, fetch_create_xml-done)
          (join_nil (write_value n v) ∙ sym (nil_join (write_value n v)))
  set_field-snoc_writes k s (entry j w t) i v = elim (Bool-cases (is_text k j)) [
    | inl here ↦ rw here (fetch_create_xml-snoc (entry j (string s) t) (integer (pos i)) v)
    | inr there ↦
        let u = set_field k (string s) t in
        rw there (
          fetch_create_xml-entry j w (set_field k (string s) (snoc t (integer (pos i)) v))
          ∙ rw (fetch_create_xml-entry j w u, set_field-snoc_writes k s t i v)
              (sym (join_assoc (write_value n w) (fetch_create_xml n u) (write_value n v))))
  ]

  set_field-set_field :
      (k : List ℕ) (v w : LuaValue F) (t : LuaTable F)
      → set_field k v (set_field k w t) ≡ set_field k v t
  unfolding set_field
  set_field-set_field k v w done = rw (same_text_self k) refl
  set_field-set_field k v w (entry j u t) = elim (Bool-cases (is_text k j)) [
    | inl here ↦ rw (here, here) refl
    | inr there ↦ rw (there, there) (ap (entry j u) (set_field-set_field k v w t))
  ]

  -- In the loop over the siblings: what the table writes, with any text under "data" or none, and that
  -- no index from `i` on is used.
  pub record Writes (t : LuaTable F) (i : ℕ) (calls : List WriterCall) : Type 0 where
    pub plain : fetch_create_xml n t ≡ ok calls
    pub with_data : (s : List ℕ) → fetch_create_xml n (set_field data_key (string s) t) ≡ ok calls
    pub below : IsBelow i t

  pub set_data-Writes :
      (t : LuaTable F) (i : ℕ) (calls : List WriterCall) (o : Option (List ℕ))
      → Writes t i calls
      → Writes (set_data o t) i calls
  set_data-Writes t i calls none w = w
  set_data-Writes t i calls (some s) w = record {
    plain = w.with_data s;
    with_data = λ r. rw (set_field-set_field data_key (string r) (string s) t) (w.with_data r);
    below = λ j le. has_index-set_field (pos j) data_key (string s) t ∙ w.below j le;
  }

  pub snoc-Writes :
      (t : LuaTable F) (i : ℕ) (calls here : List WriterCall) (v : LuaValue F)
      → Writes t i calls
      → write_value n v ≡ ok here
      → Writes (set_index (pos i) v t) (i + 1) (calls ++ here)
  snoc-Writes t i calls here v w e =
      rw (set_index-snoc (pos i) v t (w.below i (omega arith))) (record {
        plain = rw (fetch_create_xml-snoc t (integer (pos i)) v, w.plain, e) refl;
        with_data = λ s. rw (set_field-snoc_writes data_key s t i v, w.with_data s, e) refl;
        below = λ j le. has_index-snoc j i v t (omega arith) (w.below j (omega arith));
      })
