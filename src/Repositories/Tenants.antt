-- ===== src/Repositories/Tenants.antt =====
-- src/relay/repositories/tenants/repository.py.
use relay_webhooks.Prelude.{ℕ, String, Bool, Option, none}
use relay_webhooks.Domain.Records.{Tenant}
use relay_webhooks.Platform.Storage.{Storage}
use relay_webhooks.Platform.Redis.{Redis}
use relay_webhooks.World.{World, Exec, gets, pure}

module _ ⦃σ : Storage⦄ ⦃ρ : Redis⦄ where
  unfoldable pub find : World → ℕ → Option Tenant
  find w tenant_id = σ.get Tenant w.session.tenants tenant_id

  unfoldable pub write : Tenant → World → World
  write t w = record w {
    session = record w.session { tenants = σ.put Tenant w.session.tenants t.id t };
  }

  unfoldable pub create : String → Bool → Exec Tenant
  unfolding write
  create name is_sandbox w =
      let t : Tenant = record {
        id = σ.fresh Tenant w.session.tenants;
        name = name;
        created_at = w.clock;
        deleted_at = none;
        is_sandbox = is_sandbox;
      } in
      pure t (write t w)

  unfoldable pub get : ℕ → Exec (Option Tenant)
  unfolding find
  get tenant_id = gets (λ w. find w tenant_id)
