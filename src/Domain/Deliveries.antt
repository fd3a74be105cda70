-- ===== src/Domain/Deliveries.antt =====
-- src/relay/domain/deliveries and src/relay/domain/delivery_attempts. A retry wait is counted in
-- microseconds, the resolution of a `timedelta`.
pub mod Backoff
use relay_webhooks.Prelude.{ℕ, String, Bool, true, false, Option, List}

pub data DeliveryState : Type 0 where
  pending delivered retrying dead : DeliveryState

pub record Delivery : Type 0 where
  pub id : ℕ
  pub event_id : ℕ
  pub endpoint_id : ℕ
  pub state : DeliveryState
  pub attempt_count : ℕ
  pub created_at : ℕ
  pub next_retry_at : Option ℕ

pub data AttemptErrorClass : Type 0 where
  http_error timeout connection_error ssrf_blocked : AttemptErrorClass

-- A dict of headers is the list of its items.
pub record DeliveryAttempt : Type 0 where
  pub id : ℕ
  pub delivery_id : ℕ
  pub attempt_no : ℕ
  pub latency_ms : ℕ
  pub created_at : ℕ
  pub response_status : Option ℕ
  pub error_class : Option AttemptErrorClass
  pub request_snippet : Option (List ℕ)
  pub response_snippet : Option (List ℕ)
  pub request_headers : Option (List (String × List ℕ))

abbrev pub state_eq : DeliveryState → DeliveryState → Bool
state_eq pending pending = true
state_eq delivered delivered = true
state_eq retrying retrying = true
state_eq dead dead = true
state_eq _ _ = false

abbrev pub is_retrying : DeliveryState → Bool
is_retrying retrying = true
is_retrying _ = false

abbrev pub is_dead : DeliveryState → Bool
is_dead dead = true
is_dead _ = false
