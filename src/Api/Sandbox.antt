-- ===== src/Api/Sandbox.antt =====
-- src/relay/api/v1/sandbox/router.py. `uuid5` over the client's address is a parameter.
pub mod Opened
use relay_webhooks.Prelude.{
  ℕ, ◌*◌, ◌-◌, ◌+◌, String, Bool, false, not, Option, none, some, Bytes, codes, if◌then◌else◌,
}
use relay_webhooks.Prelude.Int.{ℤ, pos}
use relay_webhooks.Prelude.Result.{rate_limit_exceeded}
use relay_webhooks.Platform.Storage.{Storage}
use relay_webhooks.Platform.Redis.{Redis}
use relay_webhooks.Infra.RateLimit.{RateLimitDecision, allow, million}
use relay_webhooks.Infra.Signing.{verify}
use relay_webhooks.Services.ApiKeys.{Token}
use relay_webhooks.Services.Metrics.{DeliveryMetrics, snapshot}
use relay_webhooks.Services.Sandbox.{provision}
use relay_webhooks.Settings.{Settings}
use relay_webhooks.World.{World, Exec, ◌>>=◌, ◌>>◌, pure, lift, gets, raise_when}
use relay_webhooks.Api.Auth.{require_scope}
use relay_webhooks.Api.Events.{with_bucket}
use relay_webhooks.Api.Schemas.{SandboxCreated, from_result}

abbrev pub client_ip : Option Bytes → Bytes
client_ip none = codes "unknown"
client_ip (some host) = host

pub record SignatureVerifyRequest : Type 0 where
  pub secret : String
  pub timestamp : ℤ
  pub body : Bytes
  pub signature : Bytes
  pub tolerance_seconds : Option ℤ

abbrev pub tolerance_or : ℕ → Option ℤ → ℤ
tolerance_or fallback none = pos fallback
tolerance_or fallback (some given) = given

module _ ⦃σ : Storage⦄ ⦃ρ : Redis⦄ (s : Settings) where
  -- Tokens are counted so that one unit is gained in a microsecond.
  abbrev pub creation_cost : ℕ
  creation_cost = s.sandbox_creation_seconds_per_token * million

  abbrev pub creation_burst : ℕ
  creation_burst = s.sandbox_creation_rate_limit_burst * creation_cost

  -- `rate_limit_allow` on the key of the address
  unfoldable pub take_creation_token : ℕ → Exec RateLimitDecision
  take_creation_token ip_key w =
      let r = allow 1 creation_burst creation_cost w.clock (w.buckets ip_key) in
      pure r.0 (record w { buckets = with_bucket ip_key r.1 w.buckets })

  unfoldable pub create_sandbox :
      (Bytes → Bytes) → (Bytes → ℕ) → Token → String → Option Bytes → Exec SandboxCreated
  unfolding take_creation_token
  create_sandbox sha256 uuid5 token name host = do
    decision ← take_creation_token (uuid5 (client_ip host))
    raise_when (not decision.allowed) (rate_limit_exceeded decision.needed (1 * million))
    result ← provision s sha256 token name
    pure (from_result result)

  -- `metrics_sample` is the default of `MetricsService.snapshot`
  abbrev pub default_sample_size : ℕ
  default_sample_size = 200

  unfoldable pub get_metrics : (Bytes → Bytes) → Option Bytes → Exec DeliveryMetrics
  get_metrics sha256 api_key = do
    auth ← require_scope sha256 "endpoints:read" api_key
    snapshot auth.tenant.id default_sample_size

  -- `verify` reads the clock, whose seconds are `now`.
  unfoldable pub verify_signature :
      (Bytes → Bytes)
      → (String → Bytes)
      → (Bytes → Bytes → Bytes)
      → Option Bytes
      → ℕ
      → SignatureVerifyRequest
      → Exec Bool
  verify_signature sha256 encode hmac api_key now body = do
    auth ← require_scope sha256 "endpoints:read" api_key
    lift (
        verify encode hmac body.secret body.timestamp body.body body.signature
          (tolerance_or s.signature_tolerance_seconds body.tolerance_seconds) now)
