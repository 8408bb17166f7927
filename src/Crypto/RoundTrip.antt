-- ===== src/Crypto/RoundTrip.antt =====
-- What `hexToData` accepts, and that it reads back what `dataToHex` writes.
use Prim.Native.Nat.{bit_or}
use server.Prelude.{
  ℕ, zero, suc, ◌+◌, ◌-◌, ◌*◌, ◌/◌, ◌%◌, ◌≤◌, ◌<◌, ◌≡◌, refl, Bool, true, false, ◌&&◌, List, [],
  ◌∷◌, ◌++◌, ◌==◌, length, All, arith, inl, inr, ◌⊎◌, ◌↔◌,
}
use server.Crypto.Hex.{
  HexResult, ok, err, ◌>>=◌, data_to_hex, byte_to_hex, hex_char_to_value, hex_pairs, hex_to_data,
}

-- The test holds of the first numbers, so many.
first_hold : (test : ℕ → Bool) (count : ℕ) → Bool
first_hold test zero = true
first_hold test (suc last) = first_hold test last && test last

first_hold-at :
    (test : ℕ → Bool) (count byte : ℕ)
    → byte < count
    → first_hold test count ≡ true
    → test byte ≡ true
unfolding first_hold
first_hold-at test (suc last) byte early all = ground (arith, first_hold-at test last byte)
first_hold-at test zero byte early all = absurd (omega arith)

-- Whether a result is the one byte `x`.
is_single : HexResult (List ℕ) → ℕ → Bool
is_single (err e) x = false
is_single (ok []) x = false
is_single (ok (y ∷ [])) x = x == y
is_single (ok (y ∷ z ∷ ys)) x = false

is_single_sound : (r : HexResult (List ℕ)) (x : ℕ) → is_single r x ≡ true → r ≡ ok (x ∷ [])
unfolding is_single
is_single_sound (err e) x h = cc
is_single_sound (ok []) x h = cc
is_single_sound (ok (y ∷ [])) x h = ground arith
is_single_sound (ok (y ∷ z ∷ ys)) x h = cc

reads_back_table : first_hold (λ x. is_single (hex_pairs (byte_to_hex x)) x) 256 ≡ true
unfolding first_hold is_single byte_to_hex hex_pairs hex_char_to_value
reads_back_table = refl

reads_back : (x : ℕ) → x < 256 → hex_pairs (byte_to_hex x) ≡ ok (x ∷ [])
reads_back x h = is_single_sound _ x (first_hold-at _ 256 x h reads_back_table)

pairs_one :
    (a b x : ℕ) (cs : List ℕ)
    → hex_pairs (a ∷ b ∷ []) ≡ ok (x ∷ [])
    → hex_pairs (a ∷ b ∷ cs) ≡ (hex_pairs cs >>= λ rest. ok (x ∷ rest))
unfolding hex_pairs
pairs_one a b x cs h = ground arith

hex_pairs-byte_to_hex :
    (x : ℕ) (cs : List ℕ)
    → x < 256
    → hex_pairs (byte_to_hex x ++ cs) ≡ (hex_pairs cs >>= λ rest. ok (x ∷ rest))
unfolding byte_to_hex
hex_pairs-byte_to_hex x cs h = pairs_one _ _ x cs (reads_back x h)

hex_pairs-data_to_hex : (xs : List ℕ) → All (λ x. x < 256) xs → hex_pairs (data_to_hex xs) ≡ ok xs
unfolding data_to_hex hex_pairs
hex_pairs-data_to_hex [] h = refl
hex_pairs-data_to_hex (x ∷ xs) h =
    rw (hex_pairs-byte_to_hex x (data_to_hex xs) h.0, hex_pairs-data_to_hex xs h.1)

length-data_to_hex : (xs : List ℕ) → length (data_to_hex xs) ≡ 2 * length xs
unfolding data_to_hex byte_to_hex
length-data_to_hex [] = refl
length-data_to_hex (x ∷ xs) = omega (arith, length-data_to_hex xs)

-- The hexadecimal text of any list of bytes is read back as those bytes.
pub hex_to_data-data_to_hex :
    (xs : List ℕ) → All (λ x. x < 256) xs → hex_to_data (data_to_hex xs) ≡ ok xs
unfolding hex_to_data
hex_to_data-data_to_hex xs h = ground (arith, length-data_to_hex xs, hex_pairs-data_to_hex xs h)

-- 0 to 9, a to f and A to F.
abbrev pub IsHexDigit : ℕ → Type 0
IsHexDigit c = ((48 ≤ c) × (c ≤ 57)) ⊎ ((97 ≤ c) × (c ≤ 102)) ⊎ ((65 ≤ c) × (c ≤ 70))

digit-ok : (c : ℕ) → IsHexDigit c → (v : ℕ) × (hex_char_to_value c ≡ ok v)
unfolding hex_char_to_value
digit-ok c (inl h) = (c - 48, ground arith)
digit-ok c (inr (inl h)) = (c - 97 + 10, ground arith)
digit-ok c (inr (inr h)) = (c - 65 + 10, ground arith)

ok-digit : (c v : ℕ) → hex_char_to_value c ≡ ok v → IsHexDigit c × (v < 16)
unfolding hex_char_to_value
ok-digit c v h = ground arith

pairs-ok :
    (n : ℕ) (cs : List ℕ)
    → length cs ≡ 2 * n
    → All IsHexDigit cs
    → (xs : List ℕ) × (hex_pairs cs ≡ ok xs)
unfolding hex_pairs
pairs-ok n [] e h = ([], refl)
pairs-ok n (c ∷ []) e h = absurd (omega arith)
pairs-ok zero (c ∷ d ∷ cs) e h = absurd (omega arith)
pairs-ok (suc n) (c ∷ d ∷ cs) e h =
    let (high, p) = digit-ok c h.0 in
    let (low, q) = digit-ok d h.1.0 in
    let (xs, r) = pairs-ok n cs (omega arith) h.1.1 in
    (bit_or (high * 16 % 256) low ∷ xs, ground arith)

-- A chain that succeeds does so from its first part.
>>=-ok {ℓ κ} :
    {A : Type ℓ} {B : Type κ} (first : HexResult A) (next : A → HexResult B) (end : B)
    → (first >>= next) ≡ ok end
    → (mid : A) × (first ≡ ok mid) × (next mid ≡ ok end)
>>=-ok (err e) next end chain = cc
>>=-ok (ok mid) next end chain = (mid, refl, chain)

ok-pairs : (cs xs : List ℕ) → hex_pairs cs ≡ ok xs → All IsHexDigit cs × (length cs ≡ 2 * length xs)
unfolding hex_pairs
ok-pairs [] xs e = ground arith
ok-pairs (c ∷ []) xs e = cc
ok-pairs (c ∷ d ∷ cs) xs e =
    let (high, p, e₁) = >>=-ok (hex_char_to_value c) _ xs e in
    let (low, q, e₂) = >>=-ok (hex_char_to_value d) _ xs e₁ in
    let (rest, r, e₃) = >>=-ok (hex_pairs cs) _ xs e₂ in
    (
      ((ok-digit c high p).0, ((ok-digit d low q).0, (ok-pairs cs rest r).0)),
      ground (arith, (ok-pairs cs rest r).1),
    )

-- A text is accepted exactly if its length is even and each character is a hexadecimal digit of
-- either case; the data are then half as long.
pub hex_to_data-ok_iff :
    (cs : List ℕ)
    → ((xs : List ℕ) × (hex_to_data cs ≡ ok xs) × (length cs ≡ 2 * length xs))
      ↔ ((length cs % 2 ≡ 0) × All IsHexDigit cs)
unfolding hex_to_data
hex_to_data-ok_iff cs = (
  λ t. ground (arith, ok-pairs cs t.0),
  λ t.
      let half : ℕ = length cs / 2 in
      let (xs, e) = pairs-ok half cs (omega arith) t.1 in (xs, ground arith, (ok-pairs cs xs e).1),
)
