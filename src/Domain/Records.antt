-- ===== src/Domain/Records.antt =====
-- src/relay/domain/events, outbox, tenants and api_keys: the entities.
use relay_webhooks.Prelude.{
  ℕ, String, Bool, false, Option, none, some, List, ◌||◌, leb, any, is_some, str_eq,
}

-- A JSON object is kept as its canonical text, so that two payloads are equal as dicts exactly if
-- their texts are.
pub record Event : Type 0 where
  pub id : ℕ
  pub tenant_id : ℕ
  pub type : String
  pub payload : String
  pub idempotency_key : String
  pub created_at : ℕ
  pub correlation_id : Option String

pub data OutboxStatus : Type 0 where
  pending processed : OutboxStatus

pub record OutboxEntry : Type 0 where
  pub id : ℕ
  pub event_id : ℕ
  pub status : OutboxStatus
  pub attempts : ℕ
  pub created_at : ℕ
  pub locked_at : Option ℕ

pub record Tenant : Type 0 where
  pub id : ℕ
  pub name : String
  pub created_at : ℕ
  pub deleted_at : Option ℕ
  pub is_sandbox : Bool

unfoldable pub is_deleted : Tenant → Bool
is_deleted t = is_some t.deleted_at

-- The key's prefix and hash are lists of code points.
pub record ApiKey : Type 0 where
  pub id : ℕ
  pub tenant_id : ℕ
  pub key_hash : List ℕ
  pub key_prefix : List ℕ
  pub scopes : List String
  pub created_at : ℕ
  pub revoked_at : Option ℕ
  pub expires_at : Option ℕ

unfoldable pub is_revoked : ApiKey → Bool
is_revoked k = is_some k.revoked_at

reached : Option ℕ → ℕ → Bool
reached none now = false
reached (some expires) now = leb expires now

unfoldable pub is_expired : ApiKey → ℕ → Bool
unfolding reached
is_expired k now = reached k.expires_at now

abbrev pub wildcard_scope : String
wildcard_scope = "*"

unfoldable pub has_scope : ApiKey → String → Bool
has_scope k required = any (str_eq wildcard_scope) k.scopes || any (str_eq required) k.scopes
