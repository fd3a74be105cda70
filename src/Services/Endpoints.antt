-- ===== src/Services/Endpoints.antt =====
-- src/relay/services/endpoints/service.py. `urlparse`, `str.strip` and the token generator of
-- `secrets` are parameters.
pub mod Tenancy
pub mod Registered
use relay_webhooks.Prelude.{
  ℕ, ◌==◌, String, str_eq, not, Option, none, some, List, Bytes, any, is_empty, if◌then◌else◌,
}
use relay_webhooks.Prelude.Result.{Result, ok, validation, not_found, raise_if, ◌>>◌ as and_then}
use relay_webhooks.Platform.Storage.{Storage}
use relay_webhooks.Platform.Redis.{Redis}
use relay_webhooks.Domain.Endpoints.{Endpoint, EndpointStatus}
use relay_webhooks.World.{Exec, ◌>>=◌, ◌>>◌, pure, lift, require, commit, with_uow}
use relay_webhooks.Repositories.Endpoints as Repository
use relay_webhooks.Repositories.Listings.{list_endpoints}
use relay_webhooks.Repositories.Pagination.{Texts, Page}

-- what the service uses of `urllib.parse` and of `str`
pub record Urls : Type 0 where
  pub scheme : String → String
  pub netloc : String → String
  pub strip : String → String

-- an endpoint of another tenant counts as none
abbrev pub of_tenant : ℕ → Option Endpoint → Option Endpoint
of_tenant tenant_id none = none
of_tenant tenant_id (some e) = if e.tenant_id == tenant_id then some e else none

-- `if value is not None: check(value)`
abbrev pub check_given : {A : Type 0} → (A → Result (Unit {0})) → Option A → Result (Unit {0})
check_given check none = ok tt
check_given check (some a) = check a

module _ (u : Urls) where
  unfoldable pub validate_url : String → Result (Unit {0})
  validate_url url =
      and_then (raise_if (not (str_eq (u.scheme url) "https")) validation)
        (raise_if (str_eq (u.netloc url) "") validation)

  unfoldable pub validate_event_types : List String → Result (Unit {0})
  validate_event_types event_types =
      and_then (raise_if (is_empty event_types) validation)
        (raise_if (any (λ t. str_eq (u.strip t) "") event_types) validation)

module _ ⦃σ : Storage⦄ ⦃ρ : Redis⦄ (u : Urls) where
  -- `secret` is `secrets.token_urlsafe(32)`
  unfoldable pub register : String → ℕ → String → List String → Exec Endpoint
  register secret tenant_id url subscribed_event_types = do
    lift (validate_url u url)
    lift (validate_event_types u subscribed_event_types)
    with_uow (do
      endpoint ← Repository.create tenant_id url secret subscribed_event_types
      commit
      pure endpoint)

  unfoldable pub list : Texts → ℕ → Option Bytes → ℕ → Exec (Page Endpoint)
  list x tenant_id cursor limit = with_uow (list_endpoints x tenant_id cursor limit)

  unfoldable pub get : ℕ → ℕ → Exec Endpoint
  get endpoint_id tenant_id = do
    found ← with_uow (Repository.get endpoint_id)
    require not_found (of_tenant tenant_id found)

  unfoldable pub update :
      ℕ → ℕ → Option String → Option (List String) → Option EndpointStatus → Exec Endpoint
  update endpoint_id tenant_id url subscribed_event_types status = do
    lift (check_given (validate_url u) url)
    lift (check_given (validate_event_types u) subscribed_event_types)
    with_uow (do
      found ← Repository.get endpoint_id
      existing ← require not_found (of_tenant tenant_id found)
      updated ← Repository.update endpoint_id url subscribed_event_types status
      commit
      pure updated)

  unfoldable pub delete : ℕ → ℕ → Exec (Unit {0})
  delete endpoint_id tenant_id = with_uow (do
    found ← Repository.get endpoint_id
    existing ← require not_found (of_tenant tenant_id found)
    Repository.delete endpoint_id
    commit)
