-- ===== src/Xml/Trim.antt =====
-- src/xml/xml.cpp: what the two loops of `fetchCreateLuaTable` keep of a text.
use server.Prelude.{
  ℕ, zero, suc, ◌+◌, ◌-◌, ◌≡◌, ◌≢◌, refl, sym, ap, ◌∙◌, ◌⊎◌, inl, inr, true, false, List, [], ◌∷◌,
  ◌++◌, none, some, ltb, length, drop, get_elem?, All, Bool-cases, arith, take-length-append,
  length-append, append_assoc,
}
use server.Xml.{is_blank, is_skipped, first_index, last_index, trimmed}

abbrev pub IsBlank : ℕ → Type 0
IsBlank c = is_blank c ≡ true

-- A text with no blank at either end.
abbrev pub IsTrim : List ℕ → Type 0
IsTrim body =
    (c : ℕ) × (cs : List ℕ) × (ds : List ℕ) × (d : ℕ) × (body ≡ c ∷ cs)
    × (body ≡ ds ++ d ∷ [])
    × (is_blank c ≡ false)
    × (is_skipped (some d) ≡ false)

-- Every text without a zero byte is blank, or has blanks around a text without.
parts :
    (data_ : List ℕ)
    → All (λ c. c ≢ 0) data_
    → All IsBlank data_
      ⊎ ((front : List ℕ) × (body : List ℕ) × (back : List ℕ) × (data_ ≡ front ++ (body ++ back))
          × All IsBlank front
          × All IsBlank back
          × IsTrim body)
parts [] h = inl tt
parts (c ∷ cs) h = elim (parts cs h.1) [
  | inl all ↦ elim (Bool-cases (is_blank c)) [
    | inl blank ↦ inl (blank, all)
    | inr ink ↦
        inr ([], c ∷ [], cs, refl, tt, all, (c, [], [], c, refl, refl, ink, ground (arith, h.0)))
  ]
  | inr (front, body, back, e, blanks, rest, (b, bs, ds, d, g, f, x, last_ink)) ↦
      elim (Bool-cases (is_blank c)) [
        | inl blank ↦ inr (
          c ∷ front,
          body,
          back,
          ap (◌∷◌ c) e,
          (blank, blanks),
          rest,
          (b, bs, ds, d, g, f, x, last_ink),
        )
        | inr ink ↦ inr (
          [],
          c ∷ (front ++ body),
          back,
          ap (◌∷◌ c) (e ∙ sym (append_assoc front body back)),
          tt,
          rest,
          (
            c,
            front ++ body,
            c ∷ (front ++ ds),
            d,
            refl,
            ap (◌∷◌ c) (ap (λ u. front ++ u) f ∙ sym (append_assoc front ds (d ∷ []))),
            ink,
            last_ink,
          ),
        )
      ]
]

first_index_blank : (data_ : List ℕ) (i : ℕ) → All IsBlank data_ → first_index data_ i ≡ none
unfolding first_index
first_index_blank [] i h = refl
first_index_blank (c ∷ cs) i h = rw h.0 (first_index_blank cs (i + 1) h.1)

first_index_lem :
    (front : List ℕ) (c i : ℕ) (cs : List ℕ)
    → All IsBlank front
    → is_blank c ≡ false
    → first_index (front ++ c ∷ cs) i ≡ some (i + length front)
unfolding first_index
first_index_lem [] c i cs h ink = rw ink (ap some (omega arith))
first_index_lem (b ∷ front) c i cs h ink =
    rw h.0 (first_index_lem front c (i + 1) cs h.1 ink ∙ ap some (omega arith))

skipped : (back : List ℕ) (k : ℕ) → All IsBlank back → is_skipped (get_elem? back k) ≡ true
skipped [] k h = refl
skipped (c ∷ cs) zero h = rw h.0 refl
skipped (c ∷ cs) (suc k) h = skipped cs k h.1

get_elem?_at :
    (pre : List ℕ) (d : ℕ) (back : List ℕ) → get_elem? (pre ++ d ∷ back) (length pre) ≡ some d
get_elem?_at [] d back = refl
get_elem?_at (x ∷ pre) d back = get_elem?_at pre d back

get_elem?_after :
    (pre : List ℕ) (d k : ℕ) (back : List ℕ)
    → get_elem? (pre ++ d ∷ back) (suc (k + length pre)) ≡ get_elem? back k
get_elem?_after [] d k back = ap (get_elem? back) (omega arith)
get_elem?_after (x ∷ pre) d k back =
    ap (get_elem? (pre ++ d ∷ back)) (omega arith) ∙ get_elem?_after pre d k back

last_index_lem :
    (k : ℕ) (pre : List ℕ) (d : ℕ) (back : List ℕ)
    → All IsBlank back
    → is_skipped (some d) ≡ false
    → last_index (pre ++ d ∷ back) (suc (k + length pre)) ≡ some (suc (length pre))
unfolding last_index
last_index_lem zero pre d back h ink =
    let e : 0 + length pre ≡ length pre = omega arith in
    rw (e, get_elem?_at pre d back) (rw ink refl)
last_index_lem (suc k) pre d back h ink =
    let e : suc k + length pre ≡ suc (k + length pre) = omega arith in
    rw (e, get_elem?_after pre d k back, skipped back k h) (last_index_lem k pre d back h ink)

last_index_blank : (data_ : List ℕ) (n : ℕ) → All IsBlank data_ → last_index data_ n ≡ none
unfolding last_index
last_index_blank data_ zero h = refl
last_index_blank data_ (suc n) h = rw (skipped data_ n h) (last_index_blank data_ n h)

drop_front : (xs ys : List ℕ) → drop (length xs) (xs ++ ys) ≡ ys
drop_front [] ys = refl
drop_front (x ∷ xs) ys = drop_front xs ys

trimmed_body :
    (front body back : List ℕ)
    → All IsBlank front
    → All IsBlank back
    → IsTrim body
    → trimmed (front ++ (body ++ back)) ≡ some body
unfolding trimmed
trimmed_body front body back blanks rest (c, cs, ds, d, starts, ends, ink, last_ink) =
    let data_ = front ++ (body ++ back) in
    let whole : data_ ≡ (front ++ ds) ++ d ∷ back =
      ap (λ u. front ++ (u ++ back)) ends
      ∙ ap (λ u. front ++ u) (append_assoc ds (d ∷ []) back)
      ∙ sym (append_assoc front ds (d ∷ back)) in
    let begin : first_index data_ 0 ≡ some (0 + length front) =
      rw starts (first_index_lem front c 0 (cs ++ back) blanks ink) in
    let at : 0 + length front ≡ length front = omega arith in
    let first : first_index data_ 0 ≡ some (length front) = begin ∙ ap some at in
    let size : length ((front ++ ds) ++ d ∷ back) ≡ suc (length back + length (front ++ ds)) =
      length-append (front ++ ds) (d ∷ back) ∙ omega arith in
    let end : last_index data_ (length data_) ≡ some (suc (length (front ++ ds))) =
      ap (λ u. last_index u (length u)) whole
      ∙ ap (last_index ((front ++ ds) ++ d ∷ back)) size
      ∙ last_index_lem (length back) (front ++ ds) d back rest last_ink in
    let n : length body ≡ suc (length ds) =
      ap length ends ∙ length-append ds (d ∷ []) ∙ omega arith in
    let less : ltb (length front) (suc (length (front ++ ds))) ≡ true =
      ground (arith, length-append front ds) in
    let width : suc (length (front ++ ds)) - length front ≡ length body =
      omega (arith, length-append front ds, n) in
    rw (first, end, less, width, drop_front front (body ++ back))
      (ap some (take-length-append body back))

-- A text without a zero byte that has only newlines and spaces is not stored; of any other text the
-- part is stored that is left when the newlines and spaces at both ends are taken off.
pub trimmed_lem :
    (data_ : List ℕ)
    → All (λ c. c ≢ 0) data_
    → (All IsBlank data_ × (trimmed data_ ≡ none))
      ⊎ ((front : List ℕ) × (body : List ℕ) × (back : List ℕ) × (data_ ≡ front ++ (body ++ back))
          × All IsBlank front
          × All IsBlank back
          × IsTrim body
          × (trimmed data_ ≡ some body))
unfolding trimmed
trimmed_lem data_ h = elim (parts data_ h) [
  | inl all ↦ inl (all, rw (first_index_blank data_ 0 all) refl)
  | inr (front, body, back, e, blanks, rest, trim) ↦ inr (
    front,
    body,
    back,
    e,
    blanks,
    rest,
    trim,
    ap trimmed e ∙ trimmed_body front body back blanks rest trim,
  )
]
