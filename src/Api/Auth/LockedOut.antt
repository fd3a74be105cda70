-- ===== src/Api/Auth/LockedOut.antt =====
-- A key that is revoked, replaced or expired lets nobody in.
use relay_webhooks.Prelude.{
  ℕ, ◌≡◌, ◌≢◌, ◌∙◌, sym, ap, refl, true, ◌||◌, Option, none, some, some-injective, Bytes,
}
use relay_webhooks.Prelude.Result.{ok}
use relay_webhooks.Platform.Storage.{Storage}
use relay_webhooks.Platform.Storage.Laws.{get-put_eq}
use relay_webhooks.Platform.Redis.{Redis}
use relay_webhooks.Domain.Records.{ApiKey, is_revoked, is_expired}
use relay_webhooks.Repositories.ApiKeys as Repository
use relay_webhooks.Services.ApiKeys.{Token, of_tenant, revoke, rotate}
use relay_webhooks.Services.ApiKeys.Rotation.{rotate_replaces}
use relay_webhooks.World.{World, with_uow, rollback, commit}
use relay_webhooks.Api.Auth.{AuthContext, authenticate}
use relay_webhooks.Api.Auth.Accepts.{Authenticated, authenticate-Authenticated}

module _ ⦃σ : Storage⦄ ⦃ρ : Redis⦄ (sha256 : Bytes → Bytes) where
  -- The caller is let in by another key than the one stored under `key_id`.
  abbrev pub ByOther : World → ℕ → Bytes → AuthContext → Type 0
  ByOther w key_id presented c = (a : Authenticated sha256 w presented c) × (a.key_id ≢ key_id)

  unusable :
      (w : World) (k : ApiKey) (key_id : ℕ)
      → σ.get ApiKey w.committed.api_keys key_id ≡ some k
      → (is_revoked k || is_expired k w.clock) ≡ true
      → (presented : Bytes) (c : AuthContext) → (authenticate sha256 (some presented) w).0 ≡ ok c
      → ByOther w key_id presented c
  unusable w k key_id at_key bad presented c h =
      let a = authenticate-Authenticated sha256 w presented c h in
      (
        a,
        λ same.
            let same_row : c.api_key ≡ k =
              some-injective
                (sym a.stored ∙ ap (σ.get ApiKey w.committed.api_keys) same ∙ at_key) in
            cc (bad, same_row, a.unrevoked, a.unexpired),
      )

module _ ⦃σ : Storage⦄ ⦃ρ : Redis⦄ (sha256 : Bytes → Bytes) (tenant_id : ℕ) (w : World) (k : ApiKey)
    (found : σ.get ApiKey w.committed.api_keys k.id ≡ some k)
    (own : of_tenant tenant_id (some k) ≡ some k) where
  revoked-stored :
      σ.get ApiKey (revoke sha256 k.id tenant_id w).1.committed.api_keys k.id
      ≡ some (record k { revoked_at = some w.clock })
  unfolding revoke with_uow rollback commit Repository.get Repository.revoke Repository.write
  revoked-stored = rw (found, own, found) (get-put_eq _ _ _ _ refl)

  -- what takes the key out of use: the revocation, or the rotation to a new token
  abbrev pub retire : Option Token → World
  retire none = (revoke sha256 k.id tenant_id w).1
  retire (some token) = (rotate sha256 token k.id tenant_id w).1

  retire-stored :
      (by : Option Token)
      → σ.get ApiKey (retire by).committed.api_keys k.id
        ≡ some (record k { revoked_at = some w.clock })
  retire-stored none = revoked-stored
  retire-stored (some token) = (rotate_replaces sha256 token tenant_id w k found own).3

  -- Once a tenant has revoked or rotated a stored key of its own, at any later time whoever the API
  -- lets in is let in by a key that is stored under another id.
  pub revoke-locks_out :
      (by : Option Token) (later : ℕ) (presented : Bytes) (c : AuthContext)
      → (authenticate sha256 (some presented) (record (retire by) { clock = later })).0 ≡ ok c
      → ByOther sha256 (record (retire by) { clock = later }) k.id presented c
  unfolding is_revoked
  revoke-locks_out by later =
      unusable sha256 (record (retire by) { clock = later })
        (record k { revoked_at = some w.clock }) k.id (retire-stored by) refl
