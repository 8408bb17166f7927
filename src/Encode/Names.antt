-- ===== src/Encode/Names.antt =====
-- Which encodings have a name of their own.
use Prim.Native.String.{String}
use server.Prelude.{ℕ, ◌≡◌, refl, Bool, List, [], ◌∷◌, ◌||◌, ◌==◌, if◌then◌else◌, false, arith}
use server.Encode.{
  EncodeType, system, encode_code, Platform, get_system_code_page, get_encode_string, Icu,
  change_encode,
}

-- The name by the number of the encoding.
abbrev pub name_of_code : Platform → ℕ → String
name_of_code p n =
    if n == 25
    then "gb2312"
    else if n == 40
    then "utf-16"
    else if n == 136
    then "utf-8"
    else if n == 137
    then "utf-32"
    else get_system_code_page p

-- An encoding has a name of its own exactly if its number is 25, 40, 136 or 137; every other one goes
-- by the name of the system's code page.
get_encode_string_lem :
    (p : Platform) (c : EncodeType) → get_encode_string p c ≡ name_of_code p (encode_code c)
unfolding get_encode_string
get_encode_string_lem p system = refl
get_encode_string_lem p _ = refl

abbrev pub has_name : ℕ → Bool
has_name n = n == 25 || n == 40 || n == 136 || n == 137

unnamed :
    (p : Platform) (c : EncodeType)
    → has_name (encode_code c) ≡ false
    → get_encode_string p c ≡ get_system_code_page p
unnamed p c h = rw (get_encode_string_lem p c) (ground arith)

-- Encodings without a name of their own are all converted alike: as the system's code page.
change_encode_unnamed :
    (p : Platform) (icu : Icu) (value : List ℕ) (c d to_encode : EncodeType)
    → has_name (encode_code c) ≡ false
    → has_name (encode_code d) ≡ false
    → (change_encode p icu value c to_encode ≡ change_encode p icu value d to_encode)
      × (change_encode p icu value to_encode c ≡ change_encode p icu value to_encode d)
unfolding change_encode
change_encode_unnamed p icu [] c d to_encode h k = (refl, refl)
change_encode_unnamed p icu (b ∷ value) c d to_encode h k =
    let same : get_encode_string p c ≡ get_encode_string p d = rw (unnamed p c h, unnamed p d k) in
    (rw same, rw same)
