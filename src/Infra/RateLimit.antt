-- ===== src/Infra/RateLimit.antt =====
-- src/relay/infra/rate_limit.py: the token bucket of a tenant. The script's numbers are exact here:
-- tokens are counted in millionths, times in microseconds, and a rate of r tokens a second is r
-- millionths a microsecond.
pub mod Grants
use relay_webhooks.Prelude.{
  ℕ, ◌+◌, ◌-◌, ◌*◌, ◌/◌, Bool, true, false, Option, none, some, leb, ltb, if◌then◌else◌, min,
}

abbrev pub million : ℕ
million = 1_000_000

-- the hash under the tenant's key, and the time at which the key expires
pub record Bucket : Type 0 where
  pub tokens : ℕ
  pub updated_at : ℕ
  pub expires_at : ℕ

-- `retry_after_seconds` is `needed / (rate * 1_000_000)`
pub record RateLimitDecision : Type 0 where
  pub allowed : Bool
  pub needed : ℕ
  pub remaining : ℕ

-- HMGET: the bucket, unless it has expired
abbrev pub unexpired : ℕ → Option Bucket → Option Bucket
unexpired now none = none
unexpired now (some b) = if ltb now b.expires_at then some b else none

-- `math.min(burst, tokens + elapsed * rate)`, where an elapsed time below 0 counts as 0
abbrev pub least : ℕ → ℕ → ℕ
least a b = if leb a b then a else b

unfoldable pub refilled : ℕ → ℕ → ℕ → Option Bucket → ℕ
refilled rate burst now none = least burst (burst + 0 * rate)
refilled rate burst now (some b) = least burst (b.tokens + (now - b.updated_at) * rate)

-- `math.ceil(burst / rate) + 1` seconds
unfoldable pub time_to_live : ℕ → ℕ → ℕ
time_to_live rate burst = ((burst + (rate * million - 1)) / (rate * million) + 1) * million

unfoldable pub spend : ℕ → ℕ → ℕ × RateLimitDecision
spend cost tokens =
    if leb cost tokens
    then (tokens - cost, record { allowed = true; needed = 0; remaining = tokens - cost })
    else (tokens, record { allowed = false; needed = cost - tokens; remaining = tokens })

-- `_TOKEN_BUCKET_SCRIPT`
unfoldable pub token_bucket_script : ℕ → ℕ → ℕ → ℕ → Option Bucket → RateLimitDecision × Bucket
unfolding refilled time_to_live spend
token_bucket_script rate burst now cost bucket =
    let spent = spend cost (refilled rate burst now bucket) in
    (
      spent.1,
      record { tokens = spent.0; updated_at = now; expires_at = now + time_to_live rate burst },
    )

-- `allow`, on the bucket of the tenant, when the clocks of Redis and of the caller agree
unfoldable pub allow : ℕ → ℕ → ℕ → ℕ → Option Bucket → RateLimitDecision × Bucket
unfolding token_bucket_script
allow rate burst cost now bucket = token_bucket_script rate burst now cost (unexpired now bucket)
