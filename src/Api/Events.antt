-- ===== src/Api/Events.antt =====
-- src/relay/api/v1/events/router.py: `POST /v1/events` behind its dependencies.
pub mod Limits
use relay_webhooks.Prelude.{
  ℕ, ◌*◌, ◌==◌, String, Bool, not, Option, some, none, Bytes, ltb, if◌then◌else◌,
}
use relay_webhooks.Prelude.Result.{rate_limit_exceeded, payload_too_large}
use relay_webhooks.Platform.Storage.{Storage}
use relay_webhooks.Platform.Redis.{Redis}
use relay_webhooks.Domain.Records.{Event, Tenant}
use relay_webhooks.Infra.RateLimit.{Bucket, RateLimitDecision, allow, million}
use relay_webhooks.Services.Ingest.{ingest}
use relay_webhooks.Services.Sandbox.{assert_event_quota}
use relay_webhooks.Settings.{Settings}
use relay_webhooks.World.{World, Db, Exec, ◌>>=◌, ◌>>◌, pure, raise_when}
use relay_webhooks.Api.Auth.{AuthContext, require_scope}

-- one request costs one token
abbrev pub request_cost : ℕ
request_cost = million

module _ (s : Settings) where
  abbrev pub rate_of : Tenant → ℕ
  rate_of t = if t.is_sandbox then s.sandbox_rate_limit_rate else s.rate_limit_rate

  -- the burst in millionths of a token
  abbrev pub burst_of : Tenant → ℕ
  burst_of t = (if t.is_sandbox then s.sandbox_rate_limit_burst else s.rate_limit_burst) * million

-- the bucket of the tenant is replaced
abbrev pub with_bucket : ℕ → Bucket → (ℕ → Option Bucket) → ℕ → Option Bucket
with_bucket tenant_id b buckets t = if t == tenant_id then some b else buckets t

module _ ⦃σ : Storage⦄ ⦃ρ : Redis⦄ (s : Settings) where
  -- `rate_limit_allow`
  unfoldable pub take_token : Tenant → Exec RateLimitDecision
  take_token t w =
      let r = allow (rate_of s t) (burst_of s t) request_cost w.clock (w.buckets t.id) in
      pure r.0 (record w { buckets = with_bucket t.id r.1 w.buckets })

  -- `_rate_limited_auth` once the caller is authenticated
  unfoldable pub rate_limited : AuthContext → Exec AuthContext
  unfolding take_token
  rate_limited auth = do
    decision ← take_token auth.tenant
    raise_when (not decision.allowed)
        (rate_limit_exceeded decision.needed (rate_of s auth.tenant * million))
    assert_event_quota s auth.tenant
    pure auth

  -- the body of `ingest_event`, from the number of bytes of the raw body
  unfoldable pub ingest_event :
      (Db → Db) → AuthContext → ℕ → String → String → String → Option String → Exec Event
  ingest_event race auth raw_bytes event_type payload idempotency_key trace_id = do
    raise_when (ltb s.event_payload_max_bytes raw_bytes)
        (payload_too_large raw_bytes s.event_payload_max_bytes)
    ingest race auth.tenant.id event_type payload idempotency_key trace_id

  unfoldable pub limited_ingest :
      (Db → Db) → ℕ → String → String → String → Option String → AuthContext → Exec Event
  limited_ingest race raw_bytes event_type payload idempotency_key trace_id auth = do
    limited ← rate_limited auth
    ingest_event race limited raw_bytes event_type payload idempotency_key trace_id

  -- the route: authentication, the budget, then the handler
  unfoldable pub post_event :
      (Bytes → Bytes)
      → (Db → Db)
      → Option Bytes
      → ℕ
      → String
      → String
      → String
      → Option String
      → Exec Event
  unfolding limited_ingest
  post_event sha256 race api_key raw_bytes event_type payload idempotency_key trace_id = do
    auth ← require_scope sha256 "events:write" api_key
    limited_ingest race raw_bytes event_type payload idempotency_key trace_id auth
