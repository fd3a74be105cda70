-- ===== src/Services/Endpoints/Tenancy.antt =====
-- A tenant reaches its own endpoints only.
use relay_webhooks.Prelude.{ℕ, ◌≡◌, ◌≢◌, refl, arith, some, String, Option, none, List, inl, inr}
use relay_webhooks.Prelude.Result.{ok, err, not_found, check-cases}
use relay_webhooks.Platform.Storage.{Storage}
use relay_webhooks.Platform.Redis.{Redis}
use relay_webhooks.Domain.Endpoints.{Endpoint, EndpointStatus}
use relay_webhooks.World.{World, with_uow, rollback}
use relay_webhooks.Repositories.Endpoints as Repository
use relay_webhooks.Services.Endpoints.{
  Urls, of_tenant, check_given, validate_url, validate_event_types, get, update, delete,
}

module _ ⦃σ : Storage⦄ ⦃ρ : Redis⦄ (u : Urls) (w : World) (endpoint_id tenant_id : ℕ)
    (foreign : (e : Endpoint)
      → σ.get Endpoint w.committed.endpoints endpoint_id ≡ some e
      → e.tenant_id ≢ tenant_id) where
  none-of_tenant :
      (found : Option Endpoint)
      → σ.get Endpoint w.committed.endpoints endpoint_id ≡ found
      → of_tenant tenant_id found ≡ none
  none-of_tenant none h = refl
  none-of_tenant (some e) h = let other = foreign e h in ground arith

  not_theirs : of_tenant tenant_id (σ.get Endpoint w.committed.endpoints endpoint_id) ≡ none
  not_theirs = none-of_tenant (σ.get Endpoint w.committed.endpoints endpoint_id) refl

  -- An id under which no endpoint of the tenant is stored, but none or another's: reading and deleting say that it is not
  -- found, and deleting commits nothing.
  pub endpoint_hides :
      ((get u endpoint_id tenant_id w).0 ≡ err not_found)
      × ((delete u endpoint_id tenant_id w).0 ≡ err not_found)
      × ((delete u endpoint_id tenant_id w).1.committed ≡ w.committed)
  unfolding get delete with_uow rollback Repository.get
  endpoint_hides = rw not_theirs (refl, refl, refl)

  -- An update of such an id commits nothing, whatever it is given, and with valid values says that
  -- the endpoint is not found.
  pub update_hides :
      (url : Option String) (event_types : Option (List String)) (status : Option EndpointStatus)
      → let r = update u endpoint_id tenant_id url event_types status w in
        (r.1.committed ≡ w.committed)
        × (check_given (validate_url u) url ≡ ok tt
            → check_given (validate_event_types u) event_types ≡ ok tt
            → r.0 ≡ err not_found)
  unfolding update with_uow rollback Repository.get
  update_hides url event_types status = (
    elim (check-cases (check_given (validate_url u) url)) [
      | inr (e, h) ↦ rw h refl
      | inl h ↦ elim (check-cases (check_given (validate_event_types u) event_types)) [
        | inr (e, h') ↦ rw (h, h') refl
        | inl h' ↦ rw (h, h', not_theirs) refl
      ]
    ],
    λ h h'. rw (h, h', not_theirs) refl,
  )
