-- ===== src/Services/ApiKeys/Rotation.antt =====
-- The rotation of a key.
use relay_webhooks.Prelude.{ℕ, ◌≡◌, refl, some, Bytes, false}
use relay_webhooks.Prelude.Result.{ok}
use relay_webhooks.Platform.Storage.{Storage}
use relay_webhooks.Platform.Storage.Laws.{get-put_eq, get-put_fresh}
use relay_webhooks.Platform.Redis.{Redis}
use relay_webhooks.Domain.Hashing.{generate_api_key, hash_secret}
use relay_webhooks.Domain.Records.{ApiKey, is_revoked}
use relay_webhooks.World.{World, with_uow, rollback, commit}
use relay_webhooks.Repositories.ApiKeys as Repository
use relay_webhooks.Services.ApiKeys.{Token, of_tenant, rotate}

module _ ⦃σ : Storage⦄ ⦃ρ : Redis⦄ (sha256 : Bytes → Bytes) (token : Token) (tenant_id : ℕ)
    (w : World) (k : ApiKey) (found : σ.get ApiKey w.committed.api_keys k.id ≡ some k)
    (own : of_tenant tenant_id (some k) ≡ some k) where
  -- A tenant that rotates a stored key of its own gets a stored key with the same scopes, not
  -- revoked, whose hash is of the secret that it is shown; the old key is revoked in the same
  -- commit.
  pub rotate_replaces :
      let r = rotate sha256 token k.id tenant_id w in
      (new : ApiKey) × (r.0
        ≡ ok (new, (generate_api_key sha256 token.key_prefix token.secret token.salt).0))
      × (σ.get ApiKey r.1.committed.api_keys new.id ≡ some new)
      × (σ.get ApiKey r.1.committed.api_keys k.id ≡ some (record k { revoked_at = some w.clock }))
      × (new.scopes ≡ k.scopes)
      × (is_revoked new ≡ false)
      × (new.tenant_id ≡ tenant_id)
      × (new.key_hash ≡ hash_secret sha256 token.salt token.secret)
  unfolding rotate with_uow rollback commit Repository.get Repository.revoke Repository.create
      Repository.write is_revoked generate_api_key
  rotate_replaces =
      rw (found, own, found)
        (
          _,
          refl,
          get-put_eq _ _ _ _ refl,
          get-put_fresh _ k.id _ _ (get-put_eq _ _ _ _ refl),
          refl,
          refl,
          refl,
          refl,
        )
