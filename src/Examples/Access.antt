-- ===== src/Examples/Access.antt =====
-- A key that is let in, and a tick of the scheduler.
use relay_webhooks.Prelude.{
  ◌≡◌, ◌≤◌, refl, true, none, some, [], ◌∷◌, Bytes, codes, All, length, map, ℕ,
}
use relay_webhooks.Prelude.Result.{ok}
use relay_webhooks.Domain.Hashing.{hash_secret, split_api_key, verify_secret, from_hex}
use relay_webhooks.Domain.Records.{ApiKey, has_scope, is_revoked, is_expired, is_deleted}
use relay_webhooks.Domain.Endpoints.{closed}
use relay_webhooks.Domain.Deliveries.{DeliveryState}
use relay_webhooks.Platform.Redis.{envelope, bare_uuid}
use relay_webhooks.Infra.RetrySchedule.{parse_member}
use relay_webhooks.World.{World, with_uow}
use relay_webhooks.Repositories.ApiKeys
use relay_webhooks.Repositories.Tenants
use relay_webhooks.Api.Auth.{
  AuthContext, require_scope, check_scope, authenticate, split_and_look_up, look_up, accept,
  find_key,
}
use relay_webhooks.Api.Auth.Accepts.{Authenticated, require_scope-Authenticated}
use relay_webhooks.Workers.Scheduler.{run_once}
use relay_webhooks.Workers.Scheduler.Fires.{IsFired, run_once_fires}
use relay_webhooks.Examples.Tables.{list_storage}
use relay_webhooks.Examples.Queues.{list_redis}
use relay_webhooks.Examples.Worlds.{shop, endpoint_in, delivery_in, db_of, world_at}

abbrev digest : Bytes → Bytes
digest s = s

unfoldable shop_key : ApiKey
unfolding hash_secret
shop_key = record {
  id = 0;
  tenant_id = 0;
  key_hash = hash_secret digest (7 ∷ []) (codes "cd");
  key_prefix = codes "ab";
  scopes = "events:write" ∷ [];
  created_at = 1_000;
  revoked_at = none;
  expires_at = some 90_000_000;
}

abbrev keyed_world : World
keyed_world =
    let w = world_at 70_000_000 (db_of (endpoint_in closed) (delivery_in DeliveryState.pending)) in
    record w { committed = record w.committed { api_keys = some shop_key ∷ [] } }

abbrev context : AuthContext
context = record { tenant = shop; api_key = shop_key }

let_in : (authenticate digest (some (codes "ab.cd")) keyed_world).0 ≡ ok context
unfolding authenticate split_and_look_up look_up accept find_key with_uow ApiKeys.get_by_prefix
    Tenants.get split_api_key verify_secret from_hex shop_key is_revoked is_expired is_deleted
let_in = refl

scoped : (require_scope digest "events:write" (some (codes "ab.cd")) keyed_world).0 ≡ ok context
unfolding require_scope check_scope authenticate split_and_look_up look_up accept find_key with_uow
    ApiKeys.get_by_prefix Tenants.get split_api_key verify_secret from_hex shop_key has_scope
    is_revoked is_expired is_deleted
scoped = refl

require_scope-Authenticated_example :
    Authenticated digest keyed_world (codes "ab.cd") context
    × (has_scope shop_key "events:write" ≡ true)
require_scope-Authenticated_example =
    require_scope-Authenticated digest keyed_world "events:write" (codes "ab.cd") context scoped

abbrev due_world : World
due_world = record keyed_world {
  retries = (envelope 0 (some "trace"), 69_000_000) ∷ (bare_uuid 4, 71_000_000) ∷ [];
}

run_once_fires_example :
    let due = list_redis.zrangebyscore due_world.retries 70_000_000 100 in
    let r = run_once 100 due_world in
    (r.0 ≡ ok (length (map parse_member due)))
    × (length due ≤ 100)
    × All (λ m. (s : ℕ) × (list_redis.zscore due_world.retries m ≡ some s) × (s ≤ 70_000_000)) due
    × All (λ m. list_redis.zscore r.1.retries m ≡ none) due
    × All (IsFired r.1.stream) (map parse_member due)
    × (r.1.committed ≡ due_world.committed)
run_once_fires_example = run_once_fires 100 due_world
