-- ===== src/Infra/AttemptEvents.antt =====
-- src/relay/infra/attempt_events.py: the event of the live feed. Its channel is the tenant's.
use relay_webhooks.Prelude.{ℕ, String, Option, List, Bytes}
use relay_webhooks.Domain.Deliveries.{DeliveryState, AttemptErrorClass}
use relay_webhooks.Domain.Endpoints.{BreakerState}

pub record AttemptEvent : Type 0 where
  pub delivery_id : ℕ
  pub endpoint_id : ℕ
  pub event_id : ℕ
  pub attempt_no : Option ℕ
  pub delivery_state : DeliveryState
  pub latency_ms : ℕ
  pub response_status : Option ℕ
  pub error_class : Option AttemptErrorClass
  pub next_retry_at : Option ℕ
  pub breaker_state : BreakerState
  pub created_at : ℕ
  pub request_headers : Option (List (String × Bytes))
