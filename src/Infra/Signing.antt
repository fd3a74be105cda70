-- ===== src/Infra/Signing.antt =====
-- src/relay/infra/signing.py. `str.encode` and HMAC-SHA256, from key and message to digest, are
-- parameters. A signature is the code points of a text.
pub mod Message
pub mod Verify
use relay_webhooks.Prelude.{
  ℕ, suc, ◌+◌, ◌-◌, Bool, true, false, ◌||◌, ◌∷◌, ◌++◌, Bytes, hex, decimal, bytes_eq, any, leb,
  ltb, if◌then◌else◌, String,
}
use relay_webhooks.Prelude.Int.{ℤ, pos, negsuc}
use relay_webhooks.Prelude.Result.{Result, ok, err, type_error}

-- `str` of an `int`
unfoldable pub int_text : ℤ → Bytes
unfolding decimal
int_text (pos n) = decimal n
int_text (negsuc n) = b'-' ∷ decimal (suc n)

unfoldable pub signed_message : ℤ → Bytes → Bytes
unfolding int_text
signed_message timestamp body = int_text timestamp ++ (b'.' ∷ body)

-- `abs(current - timestamp)`
abbrev pub distance : ℕ → ℤ → ℕ
distance current (pos n) = (current - n) + (n - current)
distance current (negsuc n) = current + suc n

-- a distance is greater than the tolerance
abbrev pub exceeds : ℤ → ℕ → Bool
exceeds (pos n) distance = ltb n distance
exceeds (negsuc n) distance = true

abbrev pub beyond_ascii : Bytes → Bool
beyond_ascii = any (λ c. leb 128 c)

-- `hmac.compare_digest` on texts, whose timing is not modelled: it takes ASCII only.
abbrev pub compare_digest : Bytes → Bytes → Result Bool
compare_digest a b = if beyond_ascii a || beyond_ascii b then err type_error else ok (bytes_eq a b)

module _ (encode : String → Bytes) (hmac : Bytes → Bytes → Bytes) where
  unfoldable pub sign : String → ℤ → Bytes → Bytes
  sign secret timestamp body = hex (hmac (encode secret) (signed_message timestamp body))

  unfoldable pub verify : String → ℤ → Bytes → Bytes → ℤ → ℕ → Result Bool
  verify secret timestamp body signature tolerance_seconds now =
      if exceeds tolerance_seconds (distance now timestamp)
      then ok false
      else compare_digest (sign secret timestamp body) signature
