-- ===== src/Examples/Attempts.antt =====
-- Attempts and replays at concrete inputs.
use relay_webhooks.Prelude.{◌≡◌, refl, true, some, [], ◌∷◌}
use relay_webhooks.Prelude.Result.{ok, err, not_found, delivery_not_dead}
use relay_webhooks.Domain.Endpoints.{Endpoint, open_, should_skip_for_open_breaker}
use relay_webhooks.Domain.Deliveries.{Delivery, DeliveryState}
use relay_webhooks.Settings.{default_settings}
use relay_webhooks.World.{World, with_uow}
use relay_webhooks.Repositories.Deliveries
use relay_webhooks.Repositories.Events
use relay_webhooks.Services.Attempt.{attempt, attempt_block}
use relay_webhooks.Services.Attempt.Outcome.{settled, probed, tripped, attempt_row}
use relay_webhooks.Services.Attempt.Sending.{begun}
use relay_webhooks.Services.Attempt.Sends.{Sends, attempt_sends, headers_sent, request_sent}
use relay_webhooks.Services.Attempt.Defer.{attempt_defers, postponed}
use relay_webhooks.Services.Atomicity.{attempt_undone}
use relay_webhooks.Services.Replay
use relay_webhooks.Examples.Tables.{list_storage}
use relay_webhooks.Examples.Queues.{list_redis}
use relay_webhooks.Examples.Worlds.{
  order_paid, endpoint_in, delivery_in, db_of, world_at, answer, outside,
}

abbrev waiting : Delivery
waiting = delivery_in DeliveryState.pending

-- the breaker has cooled down, so the attempt is a probe
abbrev cooled : World
cooled = world_at 70_000_000 (db_of (endpoint_in open_) waiting)

abbrev hot : World
hot = world_at 6_000_000 (db_of (endpoint_in open_) waiting)

cooled-Sends :
    Sends default_settings outside cooled waiting order_paid (endpoint_in open_) answer 12_000
unfolding should_skip_for_open_breaker
cooled-Sends = record {
  has_delivery = refl;
  has_event = refl;
  has_endpoint = refl;
  keyed = refl;
  goes = refl;
  responds = refl;
}

attempt_sends_example :
    let s = default_settings in
    let d = waiting in
    let p = endpoint_in open_ in
    let r = attempt s outside 0 cooled in
    let out = settled s outside d answer 70_000_000 in
    let headers = headers_sent s outside cooled d order_paid p answer 12_000 cooled-Sends in
    (r.0 ≡ ok out)
    × (list_storage.get Delivery r.1.committed.deliveries 0 ≡ some out)
    × (list_storage.get Endpoint r.1.committed.endpoints 0
        ≡ some (tripped s (probed p) answer 70_000_000))
    × (r.1.committed.delivery_attempts
        ≡ some (
            attempt_row outside d order_paid answer headers
              (record (begun cooled) { clock = 70_012_000 }))
          ∷ [])
    × (r.1.sender_calls
        ≡ request_sent s outside cooled d order_paid p answer 12_000 cooled-Sends ∷ [])
    × (r.1.stream ≡ [])
    × (r.1.retries ≡ [])
attempt_sends_example =
    attempt_sends default_settings outside cooled waiting order_paid (endpoint_in open_) answer
      12_000 cooled-Sends

skips : should_skip_for_open_breaker open_ (some 5_000_000) 6_000_000 60_000_000 ≡ true
unfolding should_skip_for_open_breaker
skips = refl

attempt_defers_example :
    let r = attempt default_settings outside 0 hot in
    let out = postponed default_settings waiting 5_000_000 in
    (r.0 ≡ ok out)
    × (r.1.sender_calls ≡ [])
    × (r.1.committed.deliveries ≡ some out ∷ [])
    × (r.1.committed.delivery_attempts ≡ [])
    × (r.1.committed.endpoints ≡ some (endpoint_in open_) ∷ [])
unfolding postponed should_skip_for_open_breaker
attempt_defers_example =
    attempt_defers default_settings outside hot waiting order_paid (endpoint_in open_) 5_000_000
      refl refl refl refl skips

missing : (attempt default_settings outside 7 hot).0 ≡ err not_found
unfolding attempt attempt_block with_uow Deliveries.get
missing = refl

attempt_undone_example : (attempt default_settings outside 7 hot).1.committed ≡ hot.committed
attempt_undone_example = attempt_undone default_settings outside 7 hot not_found missing

refused : (Replay.replay 0 0 hot).0 ≡ err delivery_not_dead
unfolding Replay.replay Replay.replay_block with_uow Deliveries.get Events.get
refused = refl
