-- ===== src/Keyring/Hex.antt =====
-- `bytes.hex` and `bytes.fromhex`, of lowercase digits.
use edge_proc.Prelude.{
  ℕ, ◌+◌, ◌-◌, ◌*◌, ◌/◌, ◌%◌, ◌<◌, ◌≡◌, refl, [], ◌∷◌, Text, ltb, if◌then◌else◌, arith,
}
use edge_proc.Prelude.Members.{All}

hex_digit : ℕ → ℕ
hex_digit n = if ltb n 10 then b'0' + n else b'a' + (n - 10)

hex_value : ℕ → ℕ
hex_value c = if ltb c b'a' then c - b'0' else c - b'a' + 10

unfoldable pub hex : Text → Text
unfolding hex_digit
hex [] = []
hex (b ∷ bytes) = hex_digit (b / 16) ∷ hex_digit (b % 16) ∷ hex bytes

unfoldable pub from_hex : Text → Text
unfolding hex_value
from_hex [] = []
from_hex (c ∷ []) = []
from_hex (c ∷ d ∷ t) = (hex_value c * 16 + hex_value d) ∷ from_hex t

abbrev pub IsByte : ℕ → Type 0
IsByte b = b < 256

hex_value-digit : (n : ℕ) → n < 16 → hex_value (hex_digit n) ≡ n
unfolding hex_value hex_digit
hex_value-digit n h = ground arith

-- What `hex` writes for bytes, `fromhex` reads back.
pub from_hex-hex : (bytes : Text) → All IsByte bytes → from_hex (hex bytes) ≡ bytes
unfolding from_hex hex
from_hex-hex [] h = refl
from_hex-hex (b ∷ bytes) h =
    let low : b % 16 < 16 = omega arith in
    let high : b / 16 < 16 = omega (arith, h.0) in
    let whole : b / 16 * 16 + b % 16 ≡ b = omega arith in
    rw (hex_value-digit (b / 16) high, hex_value-digit (b % 16) low, from_hex-hex bytes h.1, whole)
