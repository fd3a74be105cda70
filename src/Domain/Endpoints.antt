-- ===== src/Domain/Endpoints.antt =====
-- src/relay/domain/endpoints: the endpoint entity and its circuit breaker. Times are natural
-- numbers of microseconds since the epoch.
pub mod Breaker
use relay_webhooks.Prelude.{
  ℕ, ◌+◌, String, Bool, true, false, Option, none, some, List, ltb, leb, any, str_eq, if◌then◌else◌,
}

pub data EndpointStatus : Type 0 where
  active disabled : EndpointStatus

pub data BreakerState : Type 0 where
  closed open_ half_open : BreakerState

-- A frozenset of event types is the list of its members.
pub record Endpoint : Type 0 where
  pub id : ℕ
  pub tenant_id : ℕ
  pub url : String
  pub secret : String
  pub subscribed_event_types : List String
  pub created_at : ℕ
  pub status : EndpointStatus
  pub breaker_state : BreakerState
  pub opened_at : Option ℕ
  pub consecutive_failures : ℕ

abbrev pub status_is_active : EndpointStatus → Bool
status_is_active active = true
status_is_active disabled = false

unfoldable pub is_active : Endpoint → Bool
is_active e = status_is_active e.status

unfoldable pub is_subscribed_to : Endpoint → String → Bool
is_subscribed_to e event_type = any (str_eq event_type) e.subscribed_event_types

abbrev pub is_open : BreakerState → Bool
is_open open_ = true
is_open _ = false

abbrev pub is_half_open : BreakerState → Bool
is_half_open half_open = true
is_half_open _ = false

pub record BreakerTransition : Type 0 where
  pub state : BreakerState
  pub consecutive_failures : ℕ
  pub opened_at : Option ℕ

-- `now - opened_at < cooldown` on datetimes, whose difference may be negative.
within_cooldown : Option ℕ → ℕ → ℕ → Bool
within_cooldown none now cooldown = false
within_cooldown (some opened) now cooldown = ltb now (opened + cooldown)

unfoldable pub should_skip_for_open_breaker : BreakerState → Option ℕ → ℕ → ℕ → Bool
unfolding within_cooldown
should_skip_for_open_breaker state opened_at now cooldown =
    if is_open state then within_cooldown opened_at now cooldown else false

unfoldable pub next_breaker_state : BreakerState → ℕ → ℕ → Bool → ℕ → BreakerTransition
next_breaker_state current failures_so_far now success threshold =
    if success
    then record { state = closed; consecutive_failures = 0; opened_at = none }
    else let failures = failures_so_far + 1 in
      if is_half_open current
      then record { state = open_; consecutive_failures = failures; opened_at = some now }
      else if leb threshold failures
      then record { state = open_; consecutive_failures = failures; opened_at = some now }
      else record { state = closed; consecutive_failures = failures; opened_at = none }
