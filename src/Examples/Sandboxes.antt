-- ===== src/Examples/Sandboxes.antt =====
-- A batch of the relay, an endpoint registered over HTTP, a rotated key and a new sandbox.
use relay_webhooks.Prelude.{
  ◌≡◌, ◌≤◌, ◌+◌, arith, refl, false, true, none, some, [], ◌∷◌, Bytes, codes, length, All, ltb,
  if◌then◌else◌,
}
use relay_webhooks.Prelude.Result.{ok, err}
use relay_webhooks.Domain.Endpoints.{Endpoint, closed}
use relay_webhooks.Domain.Deliveries.{DeliveryState}
use relay_webhooks.Domain.Hashing.{
  generate_api_key, hash_secret, split_api_key, verify_secret, partition, from_hex,
}
use relay_webhooks.Domain.Records.{ApiKey, has_scope, is_revoked, is_expired, is_deleted}
use relay_webhooks.Repositories.ApiKeys
use relay_webhooks.Repositories.Endpoints as EndpointTable
use relay_webhooks.Repositories.Tenants
use relay_webhooks.Services.ApiKeys.{Token, rotate}
use relay_webhooks.Services.Endpoints.{Urls, validate_url, validate_event_types, register}
use relay_webhooks.Services.Sandbox.{
  SandboxProvisionResult, sandbox_scopes, provision, assert_endpoint_quota,
}
use relay_webhooks.Settings.{default_settings}
use relay_webhooks.World.{World, with_uow, commit, rollback}
use relay_webhooks.Workers.Relay.{run_once}
use relay_webhooks.Workers.Relay.Batch.{batch, IsProcessed, run_once_processes}
use relay_webhooks.Api.Auth.{
  AuthContext, require_scope, check_scope, authenticate, split_and_look_up, look_up, accept,
  find_key, unauthorized,
}
use relay_webhooks.Api.Auth.LockedOut.{ByOther, retire, revoke-locks_out}
use relay_webhooks.Api.Endpoints.{
  EndpointCreate, event_types_of, quota_checked_write_auth, register_body, create_endpoint,
}
use relay_webhooks.Api.Endpoints.Granted.{MayRegister, Registers, create_endpoint-MayRegister}
use relay_webhooks.Api.Sandbox.Opened.{provisioned, provision-opens}
use relay_webhooks.Api.Schemas.{created_from_domain, frozenset}
use relay_webhooks.Examples.Tables.{list_storage}
use relay_webhooks.Examples.Queues.{list_redis}
use relay_webhooks.Examples.Worlds.{shop, endpoint_in, delivery_in, db_of, world_at}

abbrev shops : World
shops = world_at 70_000_000 (db_of (endpoint_in closed) (delivery_in DeliveryState.pending))

run_once_processes_example :
    let r = run_once (λ k. false) 50 shops in
    (r.0 ≡ ok (length (batch (λ k. false) 50 shops)))
    × (length (batch (λ k. false) 50 shops) ≤ 50)
    × All (IsProcessed (λ k. false) 50 shops r.1) (batch (λ k. false) 50 shops)
run_once_processes_example = run_once_processes (λ k. false) 50 shops (refl, tt)

abbrev digest : Bytes → Bytes
digest s = s

abbrev writer : ApiKey
writer = record {
  id = 0;
  tenant_id = 0;
  key_hash = codes "07$076364";
  key_prefix = codes "ab";
  scopes = "endpoints:write" ∷ [];
  created_at = 1_000;
  revoked_at = none;
  expires_at = none;
}

abbrev keyed : World
keyed = record shops { committed = record shops.committed { api_keys = some writer ∷ [] } }

abbrev urls : Urls
urls = record { scheme = λ url. "https"; netloc = λ url. url; strip = λ t. t }

abbrev body : EndpointCreate
body = record { url = "https://new.example"; subscribed_event_types = "order.paid" ∷ [] }

abbrev new_endpoint : Endpoint
new_endpoint = record (endpoint_in closed) {
  id = 1;
  url = "https://new.example";
  secret = "s1";
  created_at = 70_000_000;
  opened_at = none;
  consecutive_failures = 0;
}

created :
    (create_endpoint default_settings digest urls some (some (codes "ab.cd")) "s1" body keyed).0
    ≡ ok (created_from_domain new_endpoint)
unfolding create_endpoint quota_checked_write_auth register_body event_types_of frozenset
    assert_endpoint_quota validate_url validate_event_types register EndpointTable.create
    EndpointTable.save EndpointTable.write require_scope check_scope authenticate split_and_look_up
    look_up accept find_key with_uow commit rollback ApiKeys.get_by_prefix Tenants.get split_api_key
    verify_secret partition from_hex has_scope is_revoked is_expired is_deleted
created = refl

create_endpoint-MayRegister_example :
    let r =
      create_endpoint default_settings digest urls some (some (codes "ab.cd")) "s1" body keyed in
    (c : AuthContext) × MayRegister default_settings digest urls some (codes "ab.cd") keyed c
    × Registers default_settings digest urls some
        (codes "ab.cd")
        keyed
        "s1"
        body
        c
        (created_from_domain new_endpoint)
        r.1
create_endpoint-MayRegister_example =
    create_endpoint-MayRegister default_settings digest urls some (codes "ab.cd") keyed "s1" body
      (created_from_domain new_endpoint) created

abbrev token : Token
token = record { key_prefix = codes "ef"; secret = codes "gh"; salt = 7 ∷ [] }

abbrev replaced : ApiKey
replaced = record writer {
  id = 1;
  key_prefix = codes "ef";
  key_hash = codes "07$076768";
  created_at = 70_000_000;
}

abbrev rotated : World
rotated = record (retire digest 0 keyed writer refl refl (some token)) { clock = 90_000_000 }

abbrev successor : AuthContext
successor = record { tenant = shop; api_key = replaced }

succeeds : (authenticate digest (some (codes "ef.gh")) rotated).0 ≡ ok successor
unfolding rotate generate_api_key ApiKeys.get ApiKeys.create ApiKeys.revoke ApiKeys.write
    hash_secret authenticate split_and_look_up look_up accept find_key with_uow commit rollback
    ApiKeys.get_by_prefix Tenants.get split_api_key verify_secret partition from_hex is_revoked
    is_expired is_deleted
succeeds = refl

revoke-locks_out_example : ByOther digest rotated 0 (codes "ef.gh") successor
revoke-locks_out_example =
    revoke-locks_out digest 0 keyed writer refl refl (some token) 90_000_000 (codes "ef.gh")
      successor succeeds

provision-opens_example :
    (result : SandboxProvisionResult) × ((provision default_settings digest token "sandbox-1"
        shops).0
      ≡ ok result)
    × (result.tenant.is_sandbox ≡ true)
    × (result.api_key.scopes ≡ sandbox_scopes)
    × (result.expires_at ≡ shops.clock + default_settings.sandbox_ttl)
    × ((authenticate digest
          (some result.plaintext_key)
          (provisioned default_settings digest token "sandbox-1" shops 80_000_000)).0
        ≡ (if ltb 80_000_000 result.expires_at
            then ok (record { tenant = result.tenant; api_key = result.api_key })
            else err unauthorized))
provision-opens_example =
    provision-opens default_settings digest token "sandbox-1" shops 80_000_000
      (record {
        lacks = ((λ e. cc e), ((λ e. cc e), tt));
        prefixed = refl;
        secretive = refl;
        salted = (ground arith, tt);
      })
      (λ i k h. cc h)
