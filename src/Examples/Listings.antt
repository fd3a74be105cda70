-- ===== src/Examples/Listings.antt =====
-- A dead-letter queue of three, in pages of two, and the metrics of a tenant.
use relay_webhooks.Prelude.{
  ℕ, suc, zero, ◌≤◌, ◌<◌, ◌≡◌, refl, ap, none, some, [], ◌∷◌, Bytes, All, arith, length, map, codes,
  ◌≢◌,
}
use relay_webhooks.Prelude.Base64.{urlsafe_b64encode}
use relay_webhooks.Prelude.Result.{ok}
use relay_webhooks.Domain.Deliveries.{Delivery, DeliveryAttempt, dead}
use relay_webhooks.Domain.Endpoints.{closed}
use relay_webhooks.Repositories.Listings.{delivery_key, dead_of, values}
use relay_webhooks.Repositories.Pagination.{Texts, encode_cursor, decode_cursor, order_by_key}
use relay_webhooks.Repositories.Pagination.Cursors.{decode_cursor-encode_cursor}
use relay_webhooks.Repositories.Pagination.Walk.{walk}
use relay_webhooks.Services.Dlq.{list_dead}
use relay_webhooks.Services.Dlq.Walked.{with_history, opened, walk-dlq}
use relay_webhooks.Services.Metrics.{DeliveryMetrics, snapshot}
use relay_webhooks.Services.Metrics.Snapshot.{
  sample, IsP95, IsRate, IsQueued, IsInFlight, snapshot_measures,
}
use relay_webhooks.Services.Metrics.Counts.{Counts}
use relay_webhooks.World.{World}
use relay_webhooks.Examples.Tables.{list_storage}
use relay_webhooks.Examples.Queues.{list_redis}
use relay_webhooks.Examples.Worlds.{endpoint_in, delivery_in, db_of, world_at}

-- a number as that many strokes
abbrev strokes : ℕ → Bytes
strokes zero = []
strokes (suc n) = b'1' ∷ strokes n

length-strokes : (n : ℕ) → length (strokes n) ≡ n
length-strokes zero = refl
length-strokes (suc n) = ap suc (length-strokes n)

strokes_ascii : (n : ℕ) → All (λ c. c < 128) (strokes n)
strokes_ascii zero = tt
strokes_ascii (suc n) = (omega arith, strokes_ascii n)

strokes_bar : (n : ℕ) → All (λ c. c ≢ b'|') (strokes n)
strokes_bar zero = tt
strokes_bar (suc n) = (omega arith, strokes_bar n)

abbrev texts : Texts
texts = record {
  isoformat = strokes;
  fromisoformat = λ s. some (length s);
  uuid_text = strokes;
  parse_uuid = λ s. some (length s);
  decode_utf8 = λ s. some s;
  fromisoformat_isoformat = λ t. ap some (length-strokes t);
  parse_uuid_text = λ i. ap some (length-strokes i);
  isoformat_ascii = strokes_ascii;
  uuid_text_ascii = strokes_ascii;
  isoformat_bar = strokes_bar;
  decode_utf8_ascii = λ s h. refl;
}

cursor_text : encode_cursor texts 2 1 ≡ codes "MTF8MQ=="
unfolding encode_cursor urlsafe_b64encode
cursor_text = refl

decode_cursor-encode_cursor_example : decode_cursor texts (encode_cursor texts 2 1) ≡ ok (2, 1)
decode_cursor-encode_cursor_example = decode_cursor-encode_cursor texts 2 1

abbrev dead_at : ℕ → ℕ → Delivery
dead_at id created_at = record (delivery_in dead) { id = id; created_at = created_at }

abbrev failed : ℕ → ℕ → ℕ → DeliveryAttempt
failed id delivery_id latency_ms = record {
  id = id;
  delivery_id = delivery_id;
  attempt_no = 1;
  latency_ms = latency_ms;
  created_at = 9;
  response_status = some 503;
  error_class = none;
  request_snippet = none;
  response_snippet = none;
  request_headers = none;
}

-- two deliveries of one time, and an older one
abbrev dead_world : World
dead_world =
    let db = db_of (endpoint_in closed) (dead_at 0 5) in
    world_at 70_000_000 (record db {
      deliveries = some (dead_at 0 5) ∷ some (dead_at 1 5) ∷ some (dead_at 2 3) ∷ [];
      delivery_attempts = some (failed 0 1 40) ∷ some (failed 1 0 20) ∷ [];
    })

queue_order :
    order_by_key delivery_key (dead_of (opened texts dead_world 0) 0)
    ≡ dead_at 2 3 ∷ dead_at 0 5 ∷ dead_at 1 5 ∷ []
unfolding order_by_key
queue_order = refl

walk-dlq_example :
    let all = order_by_key delivery_key (dead_of (opened texts dead_world 0) 0) in
    walk (suc (length all)) (λ c. (list_dead texts 0 c 2 dead_world).0) none
    ≡ ok (map (with_history (opened texts dead_world 0)) all)
walk-dlq_example = walk-dlq texts dead_world 0 1 (refl, (refl, (refl, tt)))

snapshot_measures_example :
    let r = snapshot 0 200 dead_world in
    (m : DeliveryMetrics) × (r.0 ≡ ok m)
    × (r.1.committed ≡ dead_world.committed)
    × Counts
        (IsQueued dead_world 0)
        (values (list_storage.rows Delivery dead_world.committed.deliveries))
        m.queue_depth
    × Counts
        (IsInFlight dead_world 0)
        (values (list_storage.rows Delivery dead_world.committed.deliveries))
        m.in_flight
    × (m.sample_size ≡ length (sample dead_world 0 200))
    × (m.sample_size ≤ 200)
    × IsP95 (map (λ (a : DeliveryAttempt). a.latency_ms) (sample dead_world 0 200)) m.p95_latency_ms
    × IsRate (sample dead_world 0 200) m.success_rate
snapshot_measures_example = snapshot_measures dead_world 0 200
