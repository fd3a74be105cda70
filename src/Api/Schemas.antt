-- ===== src/Api/Schemas.antt =====
-- The response models of src/relay/api/v1: what of an entity crosses the wire.
use relay_webhooks.Prelude.{
  ℕ, ◌==◌, String, Bool, true, false, ◌&&◌, ◌||◌, Option, List, [], ◌∷◌, Bytes, codes, map, any,
  ltb, str_eq, if◌then◌else◌,
}
use relay_webhooks.Domain.Deliveries.{Delivery, DeliveryState, DeliveryAttempt, AttemptErrorClass}
use relay_webhooks.Domain.Endpoints.{Endpoint, EndpointStatus, BreakerState}
use relay_webhooks.Repositories.Pagination.{Page}
use relay_webhooks.Services.Dlq.{DeadDeliveryDetail}
use relay_webhooks.Services.Sandbox.{SandboxProvisionResult, SandboxQuotas}

-- `a <= b` on texts, by code points
abbrev codes_le : Bytes → Bytes → Bool
codes_le [] t = true
codes_le (a ∷ s) [] = false
codes_le (a ∷ s) (b ∷ t) = ltb a b || (a == b && codes_le s t)

unfoldable pub insert_text : String → List String → List String
insert_text s [] = s ∷ []
insert_text s (t ∷ ts) =
    let rest = insert_text s ts in if codes_le (codes s) (codes t) then s ∷ t ∷ ts else t ∷ rest

-- `sorted` of texts
unfoldable pub sorted_texts : List String → List String
unfolding insert_text
sorted_texts [] = []
sorted_texts (s ∷ ss) = insert_text s (sorted_texts ss)

-- `frozenset` of a list: each text once
unfoldable pub frozenset : List String → List String
frozenset [] = []
frozenset (s ∷ ss) = let rest = frozenset ss in if any (str_eq s) rest then rest else s ∷ rest

pub record EndpointRead : Type 0 where
  pub id : ℕ
  pub url : String
  pub subscribed_event_types : List String
  pub status : EndpointStatus
  pub breaker_state : BreakerState
  pub created_at : ℕ

pub record EndpointCreated : Type 0 where
  pub read : EndpointRead
  pub secret : String

unfoldable pub endpoint_read : Endpoint → EndpointRead
unfolding sorted_texts
endpoint_read e = record {
  id = e.id;
  url = e.url;
  subscribed_event_types = sorted_texts e.subscribed_event_types;
  status = e.status;
  breaker_state = e.breaker_state;
  created_at = e.created_at;
}

unfoldable pub created_from_domain : Endpoint → EndpointCreated
unfolding endpoint_read
created_from_domain e = record { read = endpoint_read e; secret = e.secret }

pub record DeliveryRead : Type 0 where
  pub id : ℕ
  pub event_id : ℕ
  pub endpoint_id : ℕ
  pub state : DeliveryState
  pub attempt_count : ℕ
  pub next_retry_at : Option ℕ
  pub created_at : ℕ

unfoldable pub delivery_read : Delivery → DeliveryRead
delivery_read d = record {
  id = d.id;
  event_id = d.event_id;
  endpoint_id = d.endpoint_id;
  state = d.state;
  attempt_count = d.attempt_count;
  next_retry_at = d.next_retry_at;
  created_at = d.created_at;
}

pub record DeliveryAttemptRead : Type 0 where
  pub id : ℕ
  pub attempt_no : ℕ
  pub latency_ms : ℕ
  pub response_status : Option ℕ
  pub error_class : Option AttemptErrorClass
  pub request_snippet : Option Bytes
  pub response_snippet : Option Bytes
  pub request_headers : Option (List (String × Bytes))
  pub created_at : ℕ

unfoldable pub attempt_read : DeliveryAttempt → DeliveryAttemptRead
attempt_read a = record {
  id = a.id;
  attempt_no = a.attempt_no;
  latency_ms = a.latency_ms;
  response_status = a.response_status;
  error_class = a.error_class;
  request_snippet = a.request_snippet;
  response_snippet = a.response_snippet;
  request_headers = a.request_headers;
  created_at = a.created_at;
}

pub record DeadDeliveryRead : Type 0 where
  pub id : ℕ
  pub event_id : ℕ
  pub endpoint_id : ℕ
  pub state : DeliveryState
  pub attempt_count : ℕ
  pub created_at : ℕ
  pub attempts : List DeliveryAttemptRead

unfoldable pub from_detail : DeadDeliveryDetail → DeadDeliveryRead
unfolding attempt_read
from_detail detail = record {
  id = detail.delivery.id;
  event_id = detail.delivery.event_id;
  endpoint_id = detail.delivery.endpoint_id;
  state = detail.delivery.state;
  attempt_count = detail.delivery.attempt_count;
  created_at = detail.delivery.created_at;
  attempts = map attempt_read detail.attempts;
}

pub record SandboxCreated : Type 0 where
  pub tenant_id : ℕ
  pub api_key : Bytes
  pub expires_at : ℕ
  pub quotas : SandboxQuotas

unfoldable pub from_result : SandboxProvisionResult → SandboxCreated
from_result result = record {
  tenant_id = result.tenant.id;
  api_key = result.plaintext_key;
  expires_at = result.expires_at;
  quotas = result.quotas;
}

-- `EndpointListResponse` and `DlqListResponse`
abbrev pub page_read : {A B : Type 0} → (A → B) → Page A → Page B
page_read f page = record {
  items = map f page.items;
  next_cursor = page.next_cursor;
  has_more = page.has_more;
}
