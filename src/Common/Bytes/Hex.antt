-- ===== src/Common/Bytes/Hex.antt =====
-- Package encoding/hex: `EncodeToString` and `DecodeString`.
use llmp2p.Common.{
  ℕ, ◌+◌, ◌-◌, ◌*◌, ◌/◌, ◌%◌, ◌<◌, true, ◌&&◌, [], ◌∷◌, Option, none, some, ◌≡◌, refl, ap, arith,
  ltb, leb, if◌then◌else◌, length, All,
}
use llmp2p.Common.Bytes.{Bytes, all_bytes, is_digit, is_hex_lower}

unfoldable pub hex_digit : ℕ → ℕ
hex_digit n = if ltb n 10 then b'0' + n else b'a' + (n - 10)

unfoldable pub hex_encode : Bytes → Bytes
unfolding hex_digit
hex_encode [] = []
hex_encode (c ∷ cs) = hex_digit (c / 16) ∷ hex_digit (c % 16) ∷ hex_encode cs

-- A digit's value; upper case is read too.
unfoldable pub hex_value : ℕ → Option ℕ
unfolding is_digit
hex_value c =
    if is_digit c
    then some (c - b'0')
    else if leb b'a' c && leb c b'f'
    then some (c - b'a' + 10)
    else if leb b'A' c && leb c b'F'
    then some (c - b'A' + 10)
    else none

unfoldable pub hex_pair : Option ℕ → Option ℕ → Option Bytes → Option Bytes
hex_pair (some a) (some b) (some cs) = some ((a * 16 + b) ∷ cs)
hex_pair _ _ _ = none

unfoldable pub hex_decode : Bytes → Option Bytes
unfolding hex_value hex_pair
hex_decode [] = some []
hex_decode (a ∷ []) = none
hex_decode (a ∷ b ∷ cs) = hex_pair (hex_value a) (hex_value b) (hex_decode cs)

pub hex_value-hex_digit : (n : ℕ) → n < 16 → hex_value (hex_digit n) ≡ some n
unfolding hex_value hex_digit
hex_value-hex_digit n h = ground arith

pub hex_digit-is_hex_lower : (n : ℕ) → n < 16 → is_hex_lower (hex_digit n) ≡ true
unfolding is_hex_lower hex_digit
hex_digit-is_hex_lower n h = ground arith

-- Decoding gives back every sequence of bytes that was encoded.
pub hex_decode-hex_encode : (s : Bytes) → All (λ c. c < 256) s → hex_decode (hex_encode s) ≡ some s
unfolding hex_decode hex_encode hex_pair
hex_decode-hex_encode [] h = refl
hex_decode-hex_encode (c ∷ s) (lt, h) =
    rw
      (
        hex_value-hex_digit (c / 16) (omega arith),
        hex_value-hex_digit (c % 16) (omega arith),
        hex_decode-hex_encode s h,
      )
      (ap (λ (d : ℕ). some (d ∷ s)) (omega arith))

pub length-hex_encode : (s : Bytes) → length (hex_encode s) ≡ length s + length s
unfolding hex_encode
length-hex_encode [] = refl
length-hex_encode (c ∷ s) = omega (arith, length-hex_encode s)

pub all_bytes-hex_encode :
    (s : Bytes) → All (λ c. c < 256) s → all_bytes is_hex_lower (hex_encode s) ≡ true
unfolding all_bytes hex_encode
all_bytes-hex_encode [] h = refl
all_bytes-hex_encode (c ∷ s) (lt, h) = ground (
  arith,
  hex_digit-is_hex_lower (c / 16),
  hex_digit-is_hex_lower (c % 16),
  all_bytes-hex_encode s h,
)
