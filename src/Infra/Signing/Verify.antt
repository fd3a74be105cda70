-- ===== src/Infra/Signing/Verify.antt =====
-- What `verify` accepts, and when it raises.
use relay_webhooks.Prelude.{
  ℕ, suc, ◌+◌, ◌/◌, ◌%◌, ◌≤◌, ◌<◌, ◌≡◌, ◌≢◌, ◌⊎◌, inl, inr, refl, sym, true, false, Bool-cases,
  String, Bytes, [], ◌∷◌, All, hex, hex_digit, bytes_eq, bytes_eq_refl, eq_of_bytes_eq, arith,
}
use relay_webhooks.Prelude.Int.{ℤ, pos, negsuc}
use relay_webhooks.Prelude.Result.{ok}
use relay_webhooks.Infra.Signing.{
  signed_message, sign, verify, exceeds, distance, compare_digest, beyond_ascii,
}
use relay_webhooks.Infra.Signing.Message.{signed_message-injective}

-- A timestamp within a tolerance of now, on either side.
abbrev pub IsWithin : ℕ → ℕ → ℤ → Type 0
IsWithin tolerance now (pos n) = (now ≤ n + tolerance) × (n ≤ now + tolerance)
IsWithin tolerance now (negsuc n) = now + suc n ≤ tolerance

abbrev pub IsFresh : ℤ → ℕ → ℤ → Type 0
IsFresh tolerance now timestamp = (t : ℕ) × (tolerance ≡ pos t) × IsWithin t now timestamp

fresh_lem :
    (tolerance timestamp : ℤ) (now : ℕ)
    → exceeds tolerance (distance now timestamp) ≡ false
    → IsFresh tolerance now timestamp
fresh_lem (pos t) (pos n) now h = (t, refl, ground arith)
fresh_lem (pos t) (negsuc n) now h = (t, refl, ground arith)
fresh_lem (negsuc t) timestamp now h = cc

within_lem :
    (tolerance now : ℕ) (timestamp : ℤ)
    → IsWithin tolerance now timestamp
    → exceeds (pos tolerance) (distance now timestamp) ≡ false
within_lem tolerance now (pos n) h = ground arith
within_lem tolerance now (negsuc n) h = ground arith

hex_digit-injective : (a b : ℕ) → hex_digit a ≡ hex_digit b → a ≡ b
hex_digit-injective a b h = ground arith

hex-injective : (s t : Bytes) → hex s ≡ hex t → s ≡ t
hex-injective [] [] h = refl
hex-injective [] (b ∷ t) h = cc
hex-injective (a ∷ s) [] h = cc
hex-injective (a ∷ s) (b ∷ t) h =
    let high : hex_digit (a / 16) ≡ hex_digit (b / 16) = cc in
    let low : hex_digit (a % 16) ≡ hex_digit (b % 16) = cc in
    let rest : hex s ≡ hex t = cc in
    let high' = hex_digit-injective (a / 16) (b / 16) high in
    let low' = hex_digit-injective (a % 16) (b % 16) low in
    let same : a ≡ b = omega (arith, high', low') in rw (same, hex-injective s t rest) refl

-- a digest of bytes has an ASCII text
hex-ascii : (s : Bytes) → All (λ c. c < 256) s → beyond_ascii (hex s) ≡ false
hex-ascii [] h = refl
hex-ascii (c ∷ s) h = let rest = hex-ascii s h.1 in let small = h.0 in ground (arith, rest, small)

-- two messages that a key does not tell apart
abbrev pub Collides : (Bytes → Bytes → Bytes) → Bytes → Type 0
Collides hmac key = (m : Bytes) × (m' : Bytes) × (m ≢ m') × (hmac key m ≡ hmac key m')

digest_lem : (a b : Bytes) → compare_digest a b ≡ ok true → bytes_eq a b ≡ true
digest_lem a b h = ground arith

module _ (encode : String → Bytes) (hmac : Bytes → Bytes → Bytes) where
  accepted_lem :
      (secret : String) (timestamp : ℤ) (body signature : Bytes) (tolerance : ℤ) (now : ℕ)
      → verify encode hmac secret timestamp body signature tolerance now ≡ ok true
      → IsFresh tolerance now timestamp × (sign encode hmac secret timestamp body ≡ signature)
  unfolding verify
  accepted_lem secret timestamp body signature tolerance now h =
      let expected = sign encode hmac secret timestamp body in
      elim (Bool-cases (exceeds tolerance (distance now timestamp))) [
        | inl stale ↦ cc (rw stale at h)
        | inr fresh ↦ (
          fresh_lem tolerance timestamp now fresh,
          eq_of_bytes_eq expected signature (digest_lem expected signature (rw fresh at h)),
        )
      ]

  -- A signature made for one timestamp and body is accepted for a timestamp and a body only if that
  -- timestamp is within the tolerance of now, and they are the ones it was made for, unless the key
  -- has two messages with the same HMAC.
  pub verify-sign :
      (secret : String) (t u : ℤ) (signed body : Bytes) (tolerance : ℤ) (now : ℕ)
      → verify encode hmac secret u body (sign encode hmac secret t signed) tolerance now ≡ ok true
      → IsFresh tolerance now u × (((t ≡ u) × (signed ≡ body)) ⊎ Collides hmac (encode secret))
  unfolding sign
  verify-sign secret t u signed body tolerance now h =
      let m = signed_message t signed in
      let m' = signed_message u body in
      let (fresh, same_text) =
        accepted_lem secret u body (sign encode hmac secret t signed) tolerance now h in
      let same = hex-injective (hmac (encode secret) m') (hmac (encode secret) m) same_text in
      elim (Bool-cases (bytes_eq m m')) [
        | inl e ↦ (fresh, inl (signed_message-injective t u signed body (eq_of_bytes_eq m m' e)))
        | inr other ↦ (fresh, inr (m, m', λ e. cc (rw (e, bytes_eq_refl m') at other), sym same))
      ]

  -- Where the digests are bytes, `verify` accepts a signature of `sign` within the tolerance.
  module _ (hmac_bytes : (key m : Bytes) → All (λ c. c < 256) (hmac key m)) where
    verify-fresh :
        (secret : String) (timestamp : ℤ) (body : Bytes) (tolerance now : ℕ)
        → IsWithin tolerance now timestamp
        → verify encode hmac secret timestamp body
            (sign encode hmac secret timestamp body)
            (pos tolerance)
            now
          ≡ ok true
    unfolding verify sign
    verify-fresh secret timestamp body tolerance now h =
        let key = encode secret in
        let m = signed_message timestamp body in
        rw
          (
            within_lem tolerance now timestamp h,
            hex-ascii (hmac key m) (hmac_bytes key m),
            bytes_eq_refl (hex (hmac key m)),
          )
          refl
