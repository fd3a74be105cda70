-- ===== src/Services/Sandbox.antt =====
-- src/relay/services/sandbox/service.py. The name of a sandbox tenant ends in random digits, which
-- are a parameter.
use relay_webhooks.Prelude.{ℕ, ◌+◌, String, true, some, List, [], ◌∷◌, Bytes, if◌then◌else◌}
use relay_webhooks.Platform.Storage.{Storage}
use relay_webhooks.Platform.Redis.{Redis}
use relay_webhooks.Domain.Quota.{check_quota}
use relay_webhooks.Domain.Records.{Tenant, ApiKey}
use relay_webhooks.Services.ApiKeys.{Token, issue}
use relay_webhooks.Settings.{Settings}
use relay_webhooks.World.{Exec, ◌>>=◌, ◌>>◌, pure, lift, gets, commit, with_uow}
use relay_webhooks.Repositories.Endpoints
use relay_webhooks.Repositories.Events
use relay_webhooks.Repositories.Tenants

abbrev pub sandbox_scopes : List String
sandbox_scopes =
    "endpoints:read" ∷ "endpoints:write" ∷ "events:write" ∷ "dlq:read" ∷ "deliveries:replay" ∷ []

pub record SandboxQuotas : Type 0 where
  pub max_endpoints : ℕ
  pub max_events : ℕ
  pub rate_limit_rate : ℕ
  pub ttl : ℕ

pub record SandboxProvisionResult : Type 0 where
  pub tenant : Tenant
  pub api_key : ApiKey
  pub plaintext_key : Bytes
  pub expires_at : ℕ
  pub quotas : SandboxQuotas

module _ ⦃σ : Storage⦄ ⦃ρ : Redis⦄ (s : Settings) where
  unfoldable pub provision : (Bytes → Bytes) → Token → String → Exec SandboxProvisionResult
  provision sha256 token name = do
    now ← gets (λ w. w.clock)
    let expires_at = now + s.sandbox_ttl
    tenant ← with_uow (do created ← Tenants.create name true; commit; pure created)
    issued ← issue sha256 token tenant.id sandbox_scopes (some expires_at)
    pure (record {
      tenant = tenant;
      api_key = issued.0;
      plaintext_key = issued.1;
      expires_at = expires_at;
      quotas = record {
        max_endpoints = s.sandbox_max_endpoints;
        max_events = s.sandbox_max_events;
        rate_limit_rate = s.sandbox_rate_limit_rate;
        ttl = s.sandbox_ttl;
      };
    })

  unfoldable pub assert_endpoint_quota : Tenant → Exec (Unit {0})
  assert_endpoint_quota tenant =
      if tenant.is_sandbox
      then (do
        count ← with_uow (Endpoints.count_for_tenant tenant.id)
        lift (check_quota count s.sandbox_max_endpoints "endpoints"))
      else pure tt

  unfoldable pub assert_event_quota : Tenant → Exec (Unit {0})
  assert_event_quota tenant =
      if tenant.is_sandbox
      then (do
        count ← with_uow (Events.count_for_tenant tenant.id)
        lift (check_quota count s.sandbox_max_events "events"))
      else pure tt
