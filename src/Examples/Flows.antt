-- ===== src/Examples/Flows.antt =====
-- Ingest, replay and the workers at concrete inputs.
use relay_webhooks.Prelude.{inl, ◌≡◌, ap, refl, none, some, [], ◌∷◌}
use relay_webhooks.Prelude.Result.{ok, err, not_found, value_error}
use relay_webhooks.Platform.Redis.{StreamFields, envelope, unread, unacked, acked}
use relay_webhooks.Domain.Endpoints.{closed, should_skip_for_open_breaker}
use relay_webhooks.Domain.Deliveries.{Delivery, DeliveryState}
use relay_webhooks.Domain.Records.{Event, OutboxEntry, OutboxStatus}
use relay_webhooks.Infra.Streams.{DeliveryMessage}
use relay_webhooks.Settings.{default_settings}
use relay_webhooks.World.{World, Db, with_uow}
use relay_webhooks.Repositories.Deliveries
use relay_webhooks.Repositories.Events
use relay_webhooks.Repositories.Endpoints
use relay_webhooks.Services.Attempt
use relay_webhooks.Services.Attempt.{Outside, attempt, attempt_block}
use relay_webhooks.Services.Attempt.Outcome.{settled}
use relay_webhooks.Services.Attempt.Sends.{Sends, attempt_sends}
use relay_webhooks.Services.Ingest.{ingest}
use relay_webhooks.Services.Ingest.Keyed.{ingest_repeats, ingest_loses, ingest_inserts, replayed}
use relay_webhooks.Services.Replay.{replay}
use relay_webhooks.Services.Replay.Effect.{reset, replay_hides, replay_restarts}
use relay_webhooks.Workers.Dispatcher.{handle_and_ack, retry_time}
use relay_webhooks.Workers.Dispatcher.Acks.{or_before, handle_settles, handle_leaves}
use relay_webhooks.Workers.Reaper.{reprocess}
use relay_webhooks.Workers.Reaper.Sweep.{reprocess_settles, reprocess_drops}
use relay_webhooks.Examples.Tables.{list_storage}
use relay_webhooks.Examples.Queues.{list_redis}
use relay_webhooks.Examples.Worlds.{
  order_paid, outbox_entry, endpoint_in, delivery_in, db_of, world_at, answer, outside,
}

abbrev quiet_world : World
quiet_world = world_at 70_000_000 (db_of (endpoint_in closed) (delivery_in DeliveryState.pending))

abbrev same : Db → Db
same db = db

ingest_repeats_example :
    let r = ingest same 0 "order.paid" "{}" "k1" none quiet_world in
    (r.0 ≡ replayed order_paid "order.paid" "{}") × (r.1.committed ≡ quiet_world.committed)
unfolding Events.find_key
ingest_repeats_example =
    ingest_repeats same 0 "order.paid" "{}" "k1" none quiet_world order_paid refl

-- another request commits an event under the key `k2`
abbrev rival : Event
rival = record {
  id = 1;
  tenant_id = 0;
  type = "order.paid";
  payload = "{}";
  idempotency_key = "k2";
  created_at = 70_000_000;
  correlation_id = none;
}

abbrev takes : Db → Db
takes db = record db { events = some order_paid ∷ some rival ∷ [] }

ingest_loses_example :
    let r = ingest takes 0 "order.paid" "{}" "k2" none quiet_world in
    (r.0 ≡ replayed rival "order.paid" "{}") × (r.1.committed ≡ takes quiet_world.committed)
unfolding Events.find_key
ingest_loses_example = ingest_loses takes 0 "order.paid" "{}" "k2" none quiet_world rival refl refl

ingest_inserts_example :
    let r = ingest same 0 "order.paid" "{}" "k2" none quiet_world in
    let entry : OutboxEntry = record {
      id = 1;
      event_id = 1;
      status = OutboxStatus.pending;
      attempts = 0;
      created_at = 70_000_000;
      locked_at = none;
    } in
    (r.0 ≡ ok rival)
    × (r.1.committed ≡ record quiet_world.committed {
      events = some order_paid ∷ some rival ∷ [];
      outbox = some outbox_entry ∷ some entry ∷ [];
    })
unfolding Events.find_key
ingest_inserts_example = ingest_inserts same 0 "order.paid" "{}" "k2" none quiet_world refl refl

abbrev dead_world : World
dead_world = world_at 70_000_000 (db_of (endpoint_in closed) (delivery_in DeliveryState.dead))

replay_hides_example :
    let r = replay 0 4 dead_world in
    (r.0 ≡ err not_found) × (r.1.committed ≡ dead_world.committed) × (r.1.stream ≡ [])
replay_hides_example =
    replay_hides dead_world (delivery_in DeliveryState.dead) order_paid 4 refl refl refl

replay_restarts_example :
    let d = delivery_in DeliveryState.dead in
    let r = replay 0 0 dead_world in
    let fields : StreamFields = record { delivery_id = 0; correlation_id = none } in
    (r.0 ≡ ok (reset d))
    × (r.1.committed ≡ record dead_world.committed { deliveries = some (reset d) ∷ [] })
    × (list_redis.message r.1.stream 0 ≡ unread fields)
    × (r.1.sender_calls ≡ [])
replay_restarts_example =
    replay_restarts dead_world (delivery_in DeliveryState.dead) order_paid 0 refl refl refl refl

abbrev fields : StreamFields
fields = record { delivery_id = 0; correlation_id = some "trace" }

-- the dispatcher has read the message of the delivery
abbrev busy : World
busy = record quiet_world { stream = unacked fields ∷ [] }

abbrev message : DeliveryMessage
message = record { message_id = 0; delivery_id = 0; correlation_id = some "trace" }

abbrev after : Delivery
after = settled default_settings outside (delivery_in DeliveryState.pending) answer 70_000_000

busy-Sends :
    Sends default_settings outside busy
      (delivery_in DeliveryState.pending)
      order_paid
      (endpoint_in closed)
      answer
      12_000
unfolding should_skip_for_open_breaker
busy-Sends = record {
  has_delivery = refl;
  has_event = refl;
  has_endpoint = refl;
  keyed = refl;
  goes = refl;
  responds = refl;
}

returned :
    attempt default_settings outside 0 busy
    ≡ (ok after, (attempt default_settings outside 0 busy).1)
returned =
    ap (λ r. (r, (attempt default_settings outside 0 busy).1))
      ((attempt_sends default_settings outside busy (delivery_in DeliveryState.pending) order_paid
        (endpoint_in closed) answer 12_000 busy-Sends).0)

handle_settles_example :
    let r = handle_and_ack default_settings outside message busy in
    (r.0 ≡ ok tt)
    × (r.1.committed ≡ (attempt default_settings outside 0 busy).1.committed)
    × (list_redis.zscore r.1.retries (envelope after.id (some "trace"))
        ≡ or_before (retry_time after) none)
    × (list_redis.message r.1.stream 0 ≡ acked fields)
handle_settles_example =
    handle_settles default_settings outside message busy after
      (attempt default_settings outside 0 busy).1 returned

reprocess_settles_example :
    let r = reprocess default_settings outside message busy in
    (r.0 ≡ ok tt)
    × (r.1.committed ≡ (attempt default_settings outside 0 busy).1.committed)
    × (list_redis.zscore r.1.retries (envelope after.id (some "trace"))
        ≡ or_before (retry_time after) none)
    × (list_redis.message r.1.stream 0 ≡ acked fields)
reprocess_settles_example =
    reprocess_settles default_settings outside message busy after
      (attempt default_settings outside 0 busy).1 returned

-- a message whose delivery is not there
abbrev stray : DeliveryMessage
stray = record { message_id = 0; delivery_id = 7; correlation_id = none }

missing : attempt default_settings outside 7 busy ≡ (err not_found, busy)
unfolding attempt attempt_block with_uow Deliveries.get
missing = refl

handle_leaves_example :
    let r = handle_and_ack default_settings outside stray busy in
    (r.0 ≡ ok tt)
    × (r.1.committed ≡ busy.committed)
    × (r.1.retries ≡ [])
    × (r.1.stream ≡ unacked fields ∷ [])
handle_leaves_example = handle_leaves default_settings outside stray busy not_found busy missing

reprocess_drops_example :
    let r = reprocess default_settings outside stray busy in
    (r.0 ≡ ok tt)
    × (r.1.committed ≡ busy.committed)
    × (r.1.retries ≡ [])
    × (list_redis.message r.1.stream 0 ≡ acked fields)
reprocess_drops_example = reprocess_drops default_settings outside stray busy (inl refl)

-- a sender that raises, on an endpoint whose breaker is closed
abbrev raising : Outside
raising = record outside { send = λ url payload headers. (err value_error, 0) }

escaped :
    attempt default_settings raising 0 busy
    ≡ (err value_error, (attempt default_settings raising 0 busy).1)
unfolding attempt attempt_block with_uow Deliveries.get Events.get Endpoints.get
    should_skip_for_open_breaker Attempt.send_attempt Attempt.probe Attempt.send_request
escaped = refl
