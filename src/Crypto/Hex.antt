-- ===== src/Crypto/Hex.antt =====
-- `dataToHex`, `hexCharToValue` and `hexToData` of src/crypto/util/util.cpp. Text and data are lists
-- of bytes. A `char` is signed, so a byte from 128 on is sign-extended before it is shifted.
use Prim.Native.Nat.{bit_or}
use server.Prelude.{
  ℕ, ◌+◌, ◌-◌, ◌*◌, ◌/◌, ◌%◌, ◌^◌, ◌&&◌, not, List, [], ◌∷◌, ◌++◌, leb, ltb, ◌==◌, if◌then◌else◌,
  length,
}

-- The argument of a thrown `std::invalid_argument`.
pub data HexError : Type 0 where
  invalid_hex_character : HexError
  odd_length : HexError

pub data HexResult {ℓ} (A : Type ℓ) : Type ℓ where
  ok : A → HexResult A
  err : HexError → HexResult A

infixl 5 ◌>>=◌
abbrev pub ◌>>=◌ {ℓ κ} : {A : Type ℓ} {B : Type κ} → HexResult A → (A → HexResult B) → HexResult B
ok a >>= f = f a
err e >>= f = err e

-- `hexDigits`, with the zero that ends the literal.
abbrev pub hex_digits : List ℕ
hex_digits =
    b'0' ∷ b'1' ∷ b'2' ∷ b'3' ∷ b'4' ∷ b'5' ∷ b'6' ∷ b'7' ∷ b'8' ∷ b'9' ∷ b'a' ∷ b'b' ∷ b'c' ∷ b'd'
    ∷ b'e' ∷ b'f' ∷ 0 ∷ []

pub digit_at : List ℕ → ℕ → ℕ
digit_at [] k = 0
digit_at (d ∷ ds) k = if k == 0 then d else digit_at ds (k - 1)

-- The promotion of a `char` to `int`, as a bit pattern of 32 bits, and `int >> 4`.
abbrev pub promote : ℕ → ℕ
promote c = if ltb c 128 then c else c + (2 ^ 32 - 256)

abbrev pub shift_right_4 : ℕ → ℕ
shift_right_4 x = if ltb x (2 ^ 31) then x / 16 else x / 16 + (2 ^ 32 - 2 ^ 28)

-- `& 0x0F` is `% 16`.
unfoldable pub byte_to_hex : ℕ → List ℕ
unfolding digit_at
byte_to_hex c =
    digit_at hex_digits (shift_right_4 (promote c) % 16) ∷ digit_at hex_digits (promote c % 16) ∷ []

unfoldable pub data_to_hex : List ℕ → List ℕ
data_to_hex [] = []
data_to_hex (c ∷ cs) = byte_to_hex c ++ data_to_hex cs

unfoldable pub hex_char_to_value : ℕ → HexResult ℕ
hex_char_to_value c =
    if leb b'0' c && leb c b'9'
    then ok (c - b'0')
    else if leb b'a' c && leb c b'f'
    then ok (c - b'a' + 10)
    else if leb b'A' c && leb c b'F'
    then ok (c - b'A' + 10)
    else err invalid_hex_character

-- The loop of `hexToData`; `uint8_t high = hexCharToValue(...) << 4`. The length is even here.
unfoldable pub hex_pairs : List ℕ → HexResult (List ℕ)
hex_pairs [] = ok []
hex_pairs (c ∷ []) = err odd_length
hex_pairs (c ∷ d ∷ cs) = do
  high ← hex_char_to_value c
  low ← hex_char_to_value d
  rest ← hex_pairs cs
  ok (bit_or (high * 16 % 256) low ∷ rest)

unfoldable pub hex_to_data : List ℕ → HexResult (List ℕ)
hex_to_data cs = if not (length cs % 2 == 0) then err odd_length else hex_pairs cs
