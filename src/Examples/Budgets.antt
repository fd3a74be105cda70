-- ===== src/Examples/Budgets.antt =====
-- Token buckets at concrete inputs: one token a second, and a burst of three.
use relay_webhooks.Prelude.{
  ◌≡◌, ◌≤◌, ◌<◌, ◌+◌, ◌-◌, ◌*◌, refl, true, false, none, some, [], ◌∷◌, arith,
}
use relay_webhooks.Prelude.Result.{Error, err}
use relay_webhooks.Domain.Endpoints.{closed}
use relay_webhooks.Domain.Deliveries.{DeliveryState}
use relay_webhooks.Settings.{default_settings}
use relay_webhooks.Infra.RateLimit.{
  Bucket, allow, million, token_bucket_script, spend, refilled, time_to_live, unexpired,
}
use relay_webhooks.Infra.RateLimit.Grants.{
  granted, granted-le, allow-retry_after, refilled-unexpired,
}
use relay_webhooks.Api.Auth.{AuthContext}
use relay_webhooks.Api.Errors.{handle, problem_response, retry_after_header}
use relay_webhooks.Api.Events.{limited_ingest, take_token}
use relay_webhooks.Api.Events.Limits.{limited_ingest_refuses, IsServed}
use relay_webhooks.World.{World}
use relay_webhooks.Examples.Tables.{list_storage}
use relay_webhooks.Examples.Queues.{list_redis}
use relay_webhooks.Examples.Worlds.{shop, endpoint_in, delivery_in, db_of, world_at}

granted-le_example :
    granted 1 3_000_000 million none (0 ∷ 500_000 ∷ 90_000_000 ∷ []) * million
    ≤ 3_000_000 + (90_000_000 - 0) * 1
granted-le_example =
    granted-le 1 3_000_000 million 0 (500_000 ∷ 90_000_000 ∷ []) (omega arith)
      (omega arith, (omega arith, tt))

abbrev low : Bucket
low = record { tokens = 400_000; updated_at = 70_000_000; expires_at = 74_000_000 }

refilled-unexpired_example :
    refilled 1 3_000_000 80_000_000 (unexpired 80_000_000 (some low))
    ≡ refilled 1 3_000_000 80_000_000 (some low)
unfolding time_to_live
refilled-unexpired_example = refilled-unexpired 1 3_000_000 80_000_000 low (omega arith) refl

refused : (allow 1 3_000_000 million 70_000_000 (some low)).0.allowed ≡ false
unfolding allow token_bucket_script spend refilled
refused = refl

allow-retry_after_example :
    let r = allow 1 3_000_000 million 70_000_000 (some low) in
    let wait = retry_after_header r.0.needed (1 * million) * million in
    (allow 1 3_000_000 million (70_000_000 + wait) (some r.1)).0.allowed ≡ true
allow-retry_after_example =
    allow-retry_after 1 3_000_000 million 70_000_000 (some low) (omega arith) (omega arith) refused

abbrev caller : AuthContext
caller = record {
  tenant = shop;
  api_key = record {
    id = 0;
    tenant_id = 0;
    key_hash = [];
    key_prefix = [];
    scopes = [];
    created_at = 0;
    revoked_at = none;
    expires_at = none;
  };
}

abbrev spent_world : World
spent_world =
    let w = world_at 70_000_000 (db_of (endpoint_in closed) (delivery_in DeliveryState.pending)) in
    record w { buckets = λ tenant_id. some low }

-- the shop's rate is five tokens a second
short : refilled 5 20_000_000 70_000_000 (some low) < million
unfolding refilled
short = omega arith

limited_ingest_refuses_example :
    let r =
      limited_ingest default_settings
        (λ db. db)
        100
        "order.paid"
        "{}"
        "k9"
        none
        caller
        spent_world in
    let tokens = refilled 5 20_000_000 70_000_000 (some low) in
    let wait = retry_after_header (million - tokens) (5 * million) in
    (e : Error) × (r.0 ≡ err e)
    × (handle e ≡ problem_response 429 (some wait))
    × (r.1.committed ≡ spent_world.committed)
    × (r.1.stream ≡ spent_world.stream)
    × IsServed
        (take_token default_settings shop (record r.1 { clock = 70_000_000 + wait * million })).0
limited_ingest_refuses_example =
    limited_ingest_refuses default_settings (λ db. db) spent_world caller 100 "order.paid" "{}" "k9"
      none (omega arith) (omega arith) short
