-- ===== src/Api/Auth.antt =====
-- src/relay/api/auth.py.
pub mod Accepts
pub mod Quiet
pub mod LockedOut
use relay_webhooks.Prelude.{
  ℕ, String, not, ◌||◌, Option, none, some, Bytes, find_first, is_empty, if◌then◌else◌,
}
use relay_webhooks.Prelude.Result.{Error, http_exception}
use relay_webhooks.Platform.Storage.{Storage}
use relay_webhooks.Platform.Redis.{Redis}
use relay_webhooks.Domain.Hashing.{split_api_key, verify_secret}
use relay_webhooks.Domain.Records.{Tenant, ApiKey, is_deleted, is_revoked, is_expired, has_scope}
use relay_webhooks.World.{Exec, ◌>>=◌, ◌>>◌, pure, require, raise_when, gets, with_uow}
use relay_webhooks.Repositories.ApiKeys
use relay_webhooks.Repositories.Tenants

pub record AuthContext : Type 0 where
  pub tenant : Tenant
  pub api_key : ApiKey

abbrev pub unauthorized : Error
unauthorized = http_exception 401

abbrev pub forbidden : Error
forbidden = http_exception 403

-- `if not presented_key`: a missing header and an empty one
abbrev pub given : Option Bytes → Option Bytes
given none = none
given (some key) = if is_empty key then none else some key

-- the matched key, unless it is revoked or expired
abbrev pub usable : ℕ → Option ApiKey → Option ApiKey
usable now none = none
usable now (some k) = if is_revoked k || is_expired k now then none else some k

abbrev pub undeleted : Option Tenant → Option Tenant
undeleted none = none
undeleted (some t) = if is_deleted t then none else some t

abbrev pub header_or : Option Bytes → Option Bytes → Option Bytes
header_or none query = query
header_or (some key) query = some key

module _ ⦃σ : Storage⦄ ⦃ρ : Redis⦄ where
  unfoldable pub check_scope : String → AuthContext → Exec AuthContext
  check_scope scope context = do
    raise_when (not (has_scope context.api_key scope)) forbidden
    pure context

module _ ⦃σ : Storage⦄ ⦃ρ : Redis⦄ (sha256 : Bytes → Bytes) where
  -- the body of `async with uow`: the key and its tenant
  unfoldable pub find_key : Bytes → Bytes → Exec (ApiKey × Option Tenant)
  find_key key_prefix secret = do
    candidates ← ApiKeys.get_by_prefix key_prefix
    now ← gets (λ w. w.clock)
    let matched = find_first (λ (k : ApiKey). verify_secret sha256 secret k.key_hash) candidates
    key ← require unauthorized (usable now matched)
    tenant ← Tenants.get key.tenant_id
    pure (key, tenant)

  -- the code after the unit of work
  unfoldable pub accept : ApiKey × Option Tenant → Exec AuthContext
  accept found = do
    tenant ← require unauthorized (undeleted found.1)
    pure (record { tenant = tenant; api_key = found.0 })

  unfoldable pub look_up : Bytes × Bytes → Exec AuthContext
  unfolding accept
  look_up parts = do found ← with_uow (find_key parts.0 parts.1); accept found

  unfoldable pub split_and_look_up : Bytes → Exec AuthContext
  unfolding look_up
  split_and_look_up key = do parts ← require unauthorized (split_api_key key); look_up parts

  unfoldable pub authenticate : Option Bytes → Exec AuthContext
  unfolding split_and_look_up
  authenticate presented_key = do
    key ← require unauthorized (given presented_key)
    split_and_look_up key

  -- the dependency that `require_scope(scope)` returns
  unfoldable pub require_scope : String → Option Bytes → Exec AuthContext
  unfolding check_scope
  require_scope scope presented_key = do
    context ← authenticate presented_key
    check_scope scope context

  -- `request.headers.get("X-API-Key") or request.query_params.get("api_key")`
  unfoldable pub require_scope_allow_query_key :
      String → Option Bytes → Option Bytes → Exec AuthContext
  unfolding require_scope
  require_scope_allow_query_key scope header query =
      require_scope scope (header_or (given header) query)
