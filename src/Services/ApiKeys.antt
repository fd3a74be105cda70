-- ===== src/Services/ApiKeys.antt =====
-- src/relay/services/api_keys/service.py. A `Token` is the randomness that `generate_api_key` draws.
pub mod Rotation
use relay_webhooks.Prelude.{ℕ, ◌==◌, String, Option, none, some, List, Bytes, if◌then◌else◌}
use relay_webhooks.Prelude.Result.{not_found}
use relay_webhooks.Platform.Storage.{Storage}
use relay_webhooks.Platform.Redis.{Redis}
use relay_webhooks.Domain.Hashing.{generate_api_key}
use relay_webhooks.Domain.Records.{ApiKey}
use relay_webhooks.World.{Exec, ◌>>=◌, ◌>>◌, pure, require, commit, with_uow}
use relay_webhooks.Repositories.ApiKeys as Repository

pub record Token : Type 0 where
  pub key_prefix : Bytes
  pub secret : Bytes
  pub salt : Bytes

abbrev pub of_tenant : ℕ → Option ApiKey → Option ApiKey
of_tenant tenant_id none = none
of_tenant tenant_id (some k) = if k.tenant_id == tenant_id then some k else none

module _ ⦃σ : Storage⦄ ⦃ρ : Redis⦄ (sha256 : Bytes → Bytes) where
  unfoldable pub issue : Token → ℕ → List String → Option ℕ → Exec (ApiKey × Bytes)
  issue token tenant_id scopes expires_at = do
    let generated = generate_api_key sha256 token.key_prefix token.secret token.salt
    api_key ← with_uow (do
      created ← Repository.create tenant_id generated.2 generated.1 scopes expires_at
      commit
      pure created)
    pure (api_key, generated.0)

  unfoldable pub rotate : Token → ℕ → ℕ → Exec (ApiKey × Bytes)
  rotate token key_id tenant_id = with_uow (do
    found ← Repository.get key_id
    existing ← require not_found (of_tenant tenant_id found)
    revoked ← Repository.revoke key_id
    let generated = generate_api_key sha256 token.key_prefix token.secret token.salt
    new_key ← Repository.create tenant_id generated.2 generated.1 existing.scopes none
    commit
    pure (new_key, generated.0))

  unfoldable pub revoke : ℕ → ℕ → Exec ApiKey
  revoke key_id tenant_id = with_uow (do
    found ← Repository.get key_id
    existing ← require not_found (of_tenant tenant_id found)
    revoked ← Repository.revoke key_id
    commit
    pure revoked)
