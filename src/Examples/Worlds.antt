-- ===== src/Examples/Worlds.antt =====
-- One tenant, one endpoint that listens to `order.paid`, one event and its delivery.
use relay_webhooks.Prelude.{ℕ, ◌++◌, codes, decimal, false, none, some, [], ◌∷◌}
use relay_webhooks.Prelude.Result.{ok}
use relay_webhooks.Domain.Endpoints.{Endpoint, BreakerState, active}
use relay_webhooks.Domain.Deliveries.{Delivery, DeliveryState}
use relay_webhooks.Domain.Records.{Event, Tenant, OutboxEntry, OutboxStatus}
use relay_webhooks.Infra.HttpSender.{OutboundHttpResult}
use relay_webhooks.Services.Attempt.{Outside}
use relay_webhooks.World.{Db, World}
use relay_webhooks.Examples.Tables.{list_storage}
use relay_webhooks.Examples.Queues.{list_redis}

abbrev pub shop : Tenant
shop = record { id = 0; name = "shop"; created_at = 1_000; deleted_at = none; is_sandbox = false }

abbrev pub order_paid : Event
order_paid = record {
  id = 0;
  tenant_id = 0;
  type = "order.paid";
  payload = "{\"n\": 1}";
  idempotency_key = "k1";
  created_at = 2_000;
  correlation_id = some "trace";
}

abbrev pub outbox_entry : OutboxEntry
outbox_entry = record {
  id = 0;
  event_id = 0;
  status = OutboxStatus.pending;
  attempts = 0;
  created_at = 2_000;
  locked_at = none;
}

abbrev pub endpoint_in : BreakerState → Endpoint
endpoint_in state = record {
  id = 0;
  tenant_id = 0;
  url = "https://shop.example/hook";
  secret = "s";
  subscribed_event_types = "order.paid" ∷ [];
  created_at = 1_500;
  status = active;
  breaker_state = state;
  opened_at = some 5_000_000;
  consecutive_failures = 5;
}

abbrev pub delivery_in : DeliveryState → Delivery
delivery_in state = record {
  id = 0;
  event_id = 0;
  endpoint_id = 0;
  state = state;
  attempt_count = 2;
  created_at = 3_000;
  next_retry_at = none;
}

abbrev pub db_of : Endpoint → Delivery → Db
db_of p d = record {
  tenants = some shop ∷ [];
  api_keys = [];
  endpoints = some p ∷ [];
  events = some order_paid ∷ [];
  outbox = some outbox_entry ∷ [];
  deliveries = some d ∷ [];
  delivery_attempts = [];
}

abbrev pub world_at : ℕ → Db → World
world_at clock db = record {
  committed = db;
  session = db;
  stream = [];
  retries = [];
  clock = clock;
  sender_calls = [];
  published = [];
  breaker_gauge = [];
  outcomes = [];
  buckets = λ tenant_id. none;
}

abbrev pub answer : OutboundHttpResult
answer = record {
  latency_ms = 12;
  status_code = some 503;
  error_class = none;
  response_snippet = none;
}

abbrev pub outside : Outside
outside = record {
  dumps = codes;
  encode = codes;
  hmac = λ key message. key ++ message;
  uuid_text = decimal;
  uniform = λ a b. b;
  send = λ url payload headers. (ok answer, 12_000);
  publish_raises = λ tenant_id event. false;
  decode_replace = λ s. s;
}
