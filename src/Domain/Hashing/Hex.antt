-- ===== src/Domain/Hashing/Hex.antt =====
-- `bytes.hex` and `bytes.fromhex`.
use relay_webhooks.Prelude.{
  ℕ, ◌/◌, ◌%◌, ◌<◌, ◌≡◌, refl, false, some, [], ◌∷◌, ◌++◌, Bytes, All, arith, ◌==◌, hex, hex_digit,
}
use relay_webhooks.Domain.Hashing.{from_hex, hex_value, is_space, partition}

abbrev pub IsBytes : Bytes → Type 0
IsBytes = All (λ b. b < 256)

hex_value-digit : (d : ℕ) → d < 16 → hex_value (hex_digit d) ≡ some d
unfolding hex_value
hex_value-digit d h = ground arith

digit_space : (d : ℕ) → d < 16 → is_space (hex_digit d) ≡ false
digit_space d h = ground arith

digit_plain : (d : ℕ) → d < 16 → (hex_digit d == b'$') ≡ false
digit_plain d h = ground arith

-- Decoding inverts encoding.
pub from_hex-hex : (s : Bytes) → IsBytes s → from_hex (hex s) ≡ some s
unfolding from_hex
from_hex-hex [] h = refl
from_hex-hex (b ∷ s) h =
    rw
      (
        digit_space (b / 16) (omega arith),
        hex_value-digit (b / 16) (omega arith),
        hex_value-digit (b % 16) (omega arith),
        from_hex-hex s h.1,
      )
      (ground arith)

-- The hexadecimal text of any bytes has no dollar sign, so a hash splits at the separator.
pub partition-hex :
    (s rest : Bytes) → IsBytes s → partition b'$' (hex s ++ (b'$' ∷ rest)) ≡ (hex s, some rest)
unfolding partition
partition-hex [] rest h = refl
partition-hex (b ∷ s) rest h = rw (
  digit_plain (b / 16) (omega arith),
  digit_plain (b % 16) (omega arith),
  partition-hex s rest h.1,
)
