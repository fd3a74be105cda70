-- ===== src/Domain/Hashing.antt =====
-- src/relay/domain/api_keys/hashing.py. SHA-256 and the random tokens are parameters.
pub mod Hex
pub mod Keys
use relay_webhooks.Prelude.{
  ℕ, ◌+◌, ◌-◌, ◌*◌, Bool, false, ◌&&◌, ◌||◌, Option, none, some, List, [], ◌∷◌, ◌++◌, Bytes,
  bytes_eq, hex, ◌==◌, leb, if◌then◌else◌, is_empty,
}

-- `str.partition(sep)` at one character: what stands before the first `sep`, and what follows it
-- if there is one
unfoldable pub partition : ℕ → Bytes → Bytes × Option Bytes
partition sep [] = ([], none)
partition sep (c ∷ s) =
    let rest = partition sep s in if c == sep then ([], some s) else (c ∷ rest.0, rest.1)

-- the value of a hexadecimal digit
unfoldable pub hex_value : ℕ → Option ℕ
hex_value c =
    if leb b'0' c && leb c b'9'
    then some (c - b'0')
    else if leb b'a' c && leb c b'f'
    then some (c - b'a' + 10)
    else if leb b'A' c && leb c b'F'
    then some (c - b'A' + 10)
    else none

-- the ASCII white space that `bytes.fromhex` skips between two bytes
abbrev pub is_space : ℕ → Bool
is_space c = c == 32 || leb 9 c && leb c 13

unfoldable pub hex_byte : Option ℕ → Option ℕ → Option Bytes → Option Bytes
hex_byte (some high) (some low) (some rest) = some ((high * 16 + low) ∷ rest)
hex_byte _ _ _ = none

-- `bytes.fromhex`; `none` is its ValueError
unfoldable pub from_hex : Bytes → Option Bytes
unfolding hex_value hex_byte
from_hex [] = some []
from_hex (c ∷ []) = if is_space c then some [] else none
from_hex (c ∷ d ∷ s) =
    let skipped = from_hex (d ∷ s) in
    let rest = from_hex s in
    if is_space c then skipped else hex_byte (hex_value c) (hex_value d) rest

-- `None` for a missing separator, an empty prefix or an empty secret
accept_parts : Bytes × Option Bytes → Option (Bytes × Bytes)
accept_parts (key_prefix, none) = none
accept_parts (key_prefix, some secret) =
    if is_empty key_prefix || is_empty secret then none else some (key_prefix, secret)

unfoldable pub split_api_key : Bytes → Option (Bytes × Bytes)
unfolding partition accept_parts
split_api_key plaintext_key = accept_parts (partition b'.' plaintext_key)

module _ (sha256 : Bytes → Bytes) where
  unfoldable pub hash_secret : Bytes → Bytes → Bytes
  hash_secret salt secret = hex salt ++ (b'$' ∷ hex (sha256 (salt ++ secret)))

  -- the key shown to the caller, its prefix and its hash, from the random tokens and the salt
  unfoldable pub generate_api_key : Bytes → Bytes → Bytes → Bytes × Bytes × Bytes
  unfolding hash_secret
  generate_api_key key_prefix secret salt =
      (key_prefix ++ (b'.' ∷ secret), key_prefix, hash_secret salt secret)

  unfoldable pub check_digest : Bytes → Bytes → Option Bytes → Bool
  check_digest secret digest_hex none = false
  check_digest secret digest_hex (some salt) = bytes_eq (hex (sha256 (salt ++ secret))) digest_hex

  unfoldable pub verify_parts : Bytes → Bytes × Option Bytes → Bool
  unfolding check_digest
  verify_parts secret (salt_hex, none) = false
  verify_parts secret (salt_hex, some digest_hex) =
      check_digest secret digest_hex (from_hex salt_hex)

  unfoldable pub verify_secret : Bytes → Bytes → Bool
  unfolding verify_parts
  verify_secret secret stored_hash = verify_parts secret (partition b'$' stored_hash)
