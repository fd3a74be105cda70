-- ===== src/Services/Endpoints/Registered.antt =====
-- A registration that succeeds is stored.
use relay_webhooks.Prelude.{ℕ, ◌≡◌, refl, some, String, List, inl, inr, subst}
use relay_webhooks.Prelude.Result.{ok, ok-injective, check-cases}
use relay_webhooks.Platform.Storage.{Storage}
use relay_webhooks.Platform.Storage.Laws.{get-put_eq}
use relay_webhooks.Platform.Redis.{Redis}
use relay_webhooks.Domain.Endpoints.{Endpoint}
use relay_webhooks.World.{World, with_uow, rollback, commit}
use relay_webhooks.Repositories.Endpoints as Repository
use relay_webhooks.Services.Endpoints.{Urls, validate_url, validate_event_types, register}

module _ ⦃σ : Storage⦄ ⦃ρ : Redis⦄ (secret : String) (tenant_id : ℕ) (url : String)
    (types : List String) where
  -- the endpoint that is stored, as it was asked for
  abbrev pub IsRegistered : World → Endpoint → Type 0
  IsRegistered w' e =
      (σ.get Endpoint w'.committed.endpoints e.id ≡ some e)
      × (e.tenant_id ≡ tenant_id)
      × (e.url ≡ url)
      × (e.subscribed_event_types ≡ types)
      × (e.secret ≡ secret)

module _ ⦃σ : Storage⦄ ⦃ρ : Redis⦄ (u : Urls) (secret : String) (tenant_id : ℕ) (url : String)
    (types : List String) (w : World) where
  pub register-IsRegistered :
      (e : Endpoint)
      → (register u secret tenant_id url types w).0 ≡ ok e
      → IsRegistered secret tenant_id url types (register u secret tenant_id url types w).1 e
  unfolding register with_uow rollback commit Repository.create Repository.save Repository.write
  register-IsRegistered e h = elim (check-cases (validate_url u url)) [
    | inr (x, bad) ↦ cc (rw bad at h)
    | inl good ↦ elim (check-cases (validate_event_types u types)) [
      | inr (x, bad) ↦ cc (rw (good, bad) at h)
      | inl fine ↦
          let stored = ok-injective (rw (good, fine) at h) in
          subst
            (IsRegistered secret tenant_id url types (register u secret tenant_id url types w).1)
            stored (rw (good, fine) (get-put_eq _ _ _ _ refl, refl, refl, refl, refl))
    ]
  ]
