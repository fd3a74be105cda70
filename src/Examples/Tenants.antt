-- ===== src/Examples/Tenants.antt =====
-- Another tenant's endpoint, and the rotation of a key.
use relay_webhooks.Prelude.{arith, ◌≡◌, refl, false, none, some, [], ◌∷◌, codes, Bytes}
use relay_webhooks.Prelude.Result.{ok, err, not_found}
use relay_webhooks.Domain.Endpoints.{closed}
use relay_webhooks.Domain.Deliveries.{DeliveryState}
use relay_webhooks.Domain.Hashing.{generate_api_key, hash_secret}
use relay_webhooks.Domain.Records.{ApiKey, is_revoked}
use relay_webhooks.Services.Endpoints
use relay_webhooks.Services.Endpoints.{Urls, check_given, validate_url, validate_event_types}
use relay_webhooks.Services.Endpoints.Tenancy.{endpoint_hides}
use relay_webhooks.Services.ApiKeys.{Token, rotate}
use relay_webhooks.Services.ApiKeys.Rotation.{rotate_replaces}
use relay_webhooks.World.{World}
use relay_webhooks.Examples.Tables.{list_storage}
use relay_webhooks.Examples.Queues.{list_redis}
use relay_webhooks.Examples.Worlds.{endpoint_in, delivery_in, db_of, world_at}

abbrev urls : Urls
urls = record { scheme = λ url. "https"; netloc = λ url. url; strip = λ t. t }

abbrev shops : World
shops = world_at 70_000_000 (db_of (endpoint_in closed) (delivery_in DeliveryState.pending))

endpoint_hides_example :
    ((Endpoints.get urls 0 4 shops).0 ≡ err not_found)
    × ((Endpoints.delete urls 0 4 shops).0 ≡ err not_found)
    × ((Endpoints.delete urls 0 4 shops).1.committed ≡ shops.committed)
endpoint_hides_example = endpoint_hides urls shops 0 4 (λ e h. ground arith)

abbrev old_key : ApiKey
old_key = record {
  id = 0;
  tenant_id = 0;
  key_hash = codes "00$11";
  key_prefix = codes "ab";
  scopes = "events:write" ∷ [];
  created_at = 1_000;
  revoked_at = none;
  expires_at = none;
}

abbrev token : Token
token = record { key_prefix = codes "ef"; secret = codes "gh"; salt = 7 ∷ [] }

abbrev digest : Bytes → Bytes
digest s = s

abbrev keyed : World
keyed = record shops { committed = record shops.committed { api_keys = some old_key ∷ [] } }

rotate_replaces_example :
    let r = rotate digest token 0 0 keyed in
    (new : ApiKey) × (r.0
      ≡ ok (new, (generate_api_key digest (codes "ef") (codes "gh") (7 ∷ [])).0))
    × (list_storage.get ApiKey r.1.committed.api_keys new.id ≡ some new)
    × (list_storage.get ApiKey r.1.committed.api_keys 0
        ≡ some (record old_key { revoked_at = some 70_000_000 }))
    × (new.scopes ≡ old_key.scopes)
    × (is_revoked new ≡ false)
    × (new.tenant_id ≡ 0)
    × (new.key_hash ≡ hash_secret digest (7 ∷ []) (codes "gh"))
rotate_replaces_example = rotate_replaces digest token 0 keyed old_key refl refl
