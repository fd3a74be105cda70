-- ===== src/Api/Endpoints.antt =====
-- src/relay/api/v1/endpoints/router.py. `pydantic.HttpUrl` is a parameter: the text of the URL that
-- it parses, if it accepts the value.
pub mod Granted
use relay_webhooks.Prelude.{
  ℕ, String, Bool, true, false, not, ◌&&◌, Option, none, some, List, Bytes, is_empty, leb,
  if◌then◌else◌,
}
use relay_webhooks.Prelude.Result.{Error, http_exception}
use relay_webhooks.Platform.Storage.{Storage}
use relay_webhooks.Platform.Redis.{Redis}
use relay_webhooks.Domain.Endpoints.{Endpoint, EndpointStatus}
use relay_webhooks.Repositories.Pagination.{Texts, Page}
use relay_webhooks.Services.Endpoints as EndpointService
use relay_webhooks.Services.Endpoints.{Urls}
use relay_webhooks.Services.Sandbox.{assert_endpoint_quota}
use relay_webhooks.Settings.{Settings}
use relay_webhooks.World.{Exec, ◌>>=◌, ◌>>◌, pure, require, raise_when}
use relay_webhooks.Api.Auth.{AuthContext, require_scope}
use relay_webhooks.Api.Schemas.{
  EndpointRead, EndpointCreated, endpoint_read, created_from_domain, page_read, frozenset,
}

-- `RequestValidationError`, whose handler answers with 422
abbrev pub invalid_request : Error
invalid_request = http_exception 422

pub record EndpointCreate : Type 0 where
  pub url : String
  pub subscribed_event_types : List String

pub record EndpointUpdate : Type 0 where
  pub url : Option String
  pub subscribed_event_types : Option (List String)
  pub status : Option EndpointStatus

-- an optional field is validated if it is there
abbrev given : {A B : Type 0} → (A → Option B) → Option A → Option (Option B)
given check none = some none
given check (some a) = elim (check a) [ none ↦ none | some b ↦ some (some b) ]

-- `Field(min_length=1)`, and the `frozenset` of the handler
unfoldable pub event_types_of : List String → Option (List String)
unfolding frozenset
event_types_of types = if is_empty types then none else some (frozenset types)

module _ ⦃σ : Storage⦄ ⦃ρ : Redis⦄ where
  -- `Query(ge=1, le=200)`
  unfoldable pub check_limit : ℕ → Exec (Unit {0})
  check_limit limit = raise_when (not (leb 1 limit && leb limit 200)) invalid_request

module _ ⦃σ : Storage⦄ ⦃ρ : Redis⦄ (s : Settings) (sha256 : Bytes → Bytes) (u : Urls)
    (http_url : String → Option String) (api_key : Option Bytes) where
  -- `_quota_checked_write_auth`
  unfoldable pub quota_checked_write_auth : Exec AuthContext
  quota_checked_write_auth = do
    auth ← require_scope sha256 "endpoints:write" api_key
    assert_endpoint_quota s auth.tenant
    pure auth

  -- the handler, once the caller is known: the body is validated after the dependencies
  unfoldable pub register_body : String → EndpointCreate → AuthContext → Exec EndpointCreated
  register_body secret body auth = do
    url ← require invalid_request (http_url body.url)
    types ← require invalid_request (event_types_of body.subscribed_event_types)
    endpoint ← EndpointService.register u secret auth.tenant.id url types
    pure (created_from_domain endpoint)

  unfoldable pub create_endpoint : String → EndpointCreate → Exec EndpointCreated
  unfolding quota_checked_write_auth register_body
  create_endpoint secret body = do auth ← quota_checked_write_auth; register_body secret body auth

  unfoldable pub list_endpoints : Texts → Option Bytes → ℕ → Exec (Page EndpointRead)
  list_endpoints x cursor limit = do
    auth ← require_scope sha256 "endpoints:read" api_key
    check_limit limit
    page ← EndpointService.list u x auth.tenant.id cursor limit
    pure (page_read endpoint_read page)

  unfoldable pub get_endpoint : ℕ → Exec EndpointRead
  get_endpoint endpoint_id = do
    auth ← require_scope sha256 "endpoints:read" api_key
    endpoint ← EndpointService.get u endpoint_id auth.tenant.id
    pure (endpoint_read endpoint)

  unfoldable pub update_endpoint : ℕ → EndpointUpdate → Exec EndpointRead
  update_endpoint endpoint_id body = do
    auth ← require_scope sha256 "endpoints:write" api_key
    url ← require invalid_request (given http_url body.url)
    types ← require invalid_request (given event_types_of body.subscribed_event_types)
    updated ← EndpointService.update u endpoint_id auth.tenant.id url types body.status
    pure (endpoint_read updated)

  unfoldable pub delete_endpoint : ℕ → Exec (Unit {0})
  delete_endpoint endpoint_id = do
    auth ← require_scope sha256 "endpoints:write" api_key
    EndpointService.delete u endpoint_id auth.tenant.id
