-- ===== src/Repositories/ApiKeys.antt =====
-- src/relay/repositories/api_keys/repository.py.
use relay_webhooks.Prelude.{ℕ, String, Option, none, some, List, Bytes, map, filter_by, bytes_eq}
use relay_webhooks.Prelude.Result.{not_found}
use relay_webhooks.Domain.Records.{ApiKey}
use relay_webhooks.Platform.Storage.{Storage}
use relay_webhooks.Platform.Redis.{Redis}
use relay_webhooks.World.{World, Exec, ◌>>=◌, gets, pure, require}

module _ ⦃σ : Storage⦄ ⦃ρ : Redis⦄ where
  unfoldable pub find : World → ℕ → Option ApiKey
  find w key_id = σ.get ApiKey w.session.api_keys key_id

  unfoldable pub write : ApiKey → World → World
  write k w = record w {
    session = record w.session { api_keys = σ.put ApiKey w.session.api_keys k.id k };
  }

  unfoldable pub create : ℕ → Bytes → Bytes → List String → Option ℕ → Exec ApiKey
  unfolding write
  create tenant_id key_hash key_prefix scopes expires_at w =
      let k : ApiKey = record {
        id = σ.fresh ApiKey w.session.api_keys;
        tenant_id = tenant_id;
        key_hash = key_hash;
        key_prefix = key_prefix;
        scopes = scopes;
        created_at = w.clock;
        revoked_at = none;
        expires_at = expires_at;
      } in
      pure k (write k w)

  unfoldable pub get : ℕ → Exec (Option ApiKey)
  unfolding find
  get key_id = gets (λ w. find w key_id)

  unfoldable pub get_by_prefix : Bytes → Exec (List ApiKey)
  get_by_prefix key_prefix = gets (λ w.
      filter_by (λ (k : ApiKey). bytes_eq k.key_prefix key_prefix)
        (map (λ (p : ℕ × ApiKey). p.1) (σ.rows ApiKey w.session.api_keys)))

  unfoldable pub revoke : ℕ → Exec ApiKey
  unfolding get write
  revoke key_id = do
    found ← get key_id
    model ← require not_found found
    λ w. let k = record model { revoked_at = some w.clock } in pure k (write k w)
