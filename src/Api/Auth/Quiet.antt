-- ===== src/Api/Auth/Quiet.antt =====
-- Authentication only reads.
use relay_webhooks.Prelude.{String, Option, Bytes}
use relay_webhooks.Platform.Storage.{Storage}
use relay_webhooks.Platform.Redis.{Redis}
use relay_webhooks.Domain.Records.{ApiKey, Tenant}
use relay_webhooks.Repositories.Quiet.{repository_rules}
use relay_webhooks.World.Atomic.{IsQuiet, quiet_rules}
use relay_webhooks.Api.Auth.{
  AuthContext, require_scope, authenticate, split_and_look_up, look_up, accept, find_key,
  check_scope,
}

module _ ⦃σ : Storage⦄ ⦃ρ : Redis⦄ (sha256 : Bytes → Bytes) where
  find_key-IsQuiet : (p s : Bytes) → IsQuiet (find_key sha256 p s)
  unfolding find_key
  find_key-IsQuiet p s = search (quiet_rules, repository_rules)

  accept-IsQuiet : (found : ApiKey × Option Tenant) → IsQuiet (accept sha256 found)
  unfolding accept
  accept-IsQuiet found = search quiet_rules

  look_up-IsQuiet : (parts : Bytes × Bytes) → IsQuiet (look_up sha256 parts)
  unfolding look_up
  look_up-IsQuiet parts = search (quiet_rules, find_key-IsQuiet, accept-IsQuiet)

  split_and_look_up-IsQuiet : (key : Bytes) → IsQuiet (split_and_look_up sha256 key)
  unfolding split_and_look_up
  split_and_look_up-IsQuiet key = search (quiet_rules, look_up-IsQuiet)

  authenticate-IsQuiet : (key : Option Bytes) → IsQuiet (authenticate sha256 key)
  unfolding authenticate
  authenticate-IsQuiet key = search (quiet_rules, split_and_look_up-IsQuiet)

module _ ⦃σ : Storage⦄ ⦃ρ : Redis⦄ where
  check_scope-IsQuiet : (scope : String) (c : AuthContext) → IsQuiet (check_scope scope c)
  unfolding check_scope
  check_scope-IsQuiet scope c = search quiet_rules

  pub require_scope-IsQuiet :
      (sha256 : Bytes → Bytes) (scope : String) (key : Option Bytes)
      → IsQuiet (require_scope sha256 scope key)
  unfolding require_scope
  require_scope-IsQuiet sha256 scope key =
      search (quiet_rules, authenticate-IsQuiet, check_scope-IsQuiet)
