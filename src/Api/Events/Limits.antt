-- ===== src/Api/Events/Limits.antt =====
-- The budgets of `POST /v1/events`.
use relay_webhooks.Prelude.{
  ℕ, ◌+◌, ◌-◌, ◌*◌, ◌≤◌, ◌<◌, ◌≡◌, ==_refl, ap, refl, true, String, Option, some,
}
use relay_webhooks.Prelude.Result.{Error, Result, ok, err}
use relay_webhooks.Platform.Storage.{Storage}
use relay_webhooks.Platform.Redis.{Redis}
use relay_webhooks.Infra.RateLimit.{million, refilled, unexpired, RateLimitDecision}
use relay_webhooks.Infra.RateLimit.Grants.{allow-short, allow-retry_after}
use relay_webhooks.Settings.{Settings}
use relay_webhooks.World.{World, Db}
use relay_webhooks.Api.Auth.{AuthContext}
use relay_webhooks.Api.Errors.{handle, problem_response, retry_after_header, domain_error_handler}
use relay_webhooks.Api.Events.{
  rate_of, burst_of, request_cost, take_token, rate_limited, limited_ingest,
}

abbrev pub IsServed : Result RateLimitDecision → Type 0
IsServed result = (d : RateLimitDecision) × (result ≡ ok d) × (d.allowed ≡ true)

module _ ⦃σ : Storage⦄ ⦃ρ : Redis⦄ (s : Settings) (race : Db → Db) (w : World) (auth : AuthContext)
    (raw_bytes : ℕ) (event_type payload key : String) (trace_id : Option String) where
  -- At a rate above 0, and with a burst of a token or more, a caller whose tenant's bucket, refilled
  -- up to now, has less than a token gets 429, and nothing is committed or enqueued; when the
  -- Retry-After of the response is over, the bucket has a token, if no other request came between.
  pub limited_ingest_refuses :
      let t = auth.tenant in
      let tokens =
        refilled (rate_of s t) (burst_of s t) w.clock (unexpired w.clock (w.buckets t.id)) in
      0 < rate_of s t
      → request_cost ≤ burst_of s t
      → tokens < request_cost
      → let r = limited_ingest s race raw_bytes event_type payload key trace_id auth w in
        let wait = retry_after_header (request_cost - tokens) (rate_of s t * million) in
        (e : Error) × (r.0 ≡ err e)
        × (handle e ≡ problem_response 429 (some wait))
        × (r.1.committed ≡ w.committed)
        × (r.1.stream ≡ w.stream)
        × IsServed (take_token s t (record r.1 { clock = w.clock + wait * million })).0
  unfolding limited_ingest rate_limited handle domain_error_handler take_token
  limited_ingest_refuses pos small short =
      let t = auth.tenant in
      let b = w.buckets t.id in
      let (refused, needed) =
        allow-short (rate_of s t) (burst_of s t) request_cost w.clock b short in
      let served =
        allow-retry_after (rate_of s t) (burst_of s t) request_cost w.clock b pos small refused in
      rw refused (
        _,
        refl,
        ap (λ (n : ℕ). problem_response 429 (some (retry_after_header n (rate_of s t * million))))
            needed,
        refl,
        refl,
        (_, refl, rw (← needed, ==_refl t.id) served),
      )
