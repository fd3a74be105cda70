-- ===== src/Examples/Gates.antt =====
-- The dispatcher's slots and the limit on bodies.
use relay_webhooks.Prelude.{
  ℕ, ◌+◌, ◌≤◌, ◌<◌, ◌≡◌, ◌⊎◌, refl, true, some, [], ◌∷◌, arith, codes, length,
}
use relay_webhooks.Prelude.Result.{ok}
use relay_webhooks.Prelude.IntText.{spelled}
use relay_webhooks.Workers.Dispatcher.Pool.{
  waiting, Pool, value_or, start_pool, endpoint_semaphore, Step, create_task, look_up, Reach, here,
  next,
}
use relay_webhooks.Workers.Dispatcher.Pool.Bounds.{holders, Reach-bounds, Reach-progress}
use relay_webhooks.World.{World, Exec, ◌>>=◌, pure}
use relay_webhooks.Domain.Endpoints.{closed}
use relay_webhooks.Domain.Deliveries.{DeliveryState}
use relay_webhooks.Api.Middleware.{Scope, passed, refused, content_length, limit_body, too_large}
use relay_webhooks.Api.Middleware.BodySize.{limit_body-digits}
use relay_webhooks.Examples.Tables.{list_storage}
use relay_webhooks.Examples.Queues.{list_redis}
use relay_webhooks.Examples.Worlds.{endpoint_in, delivery_in, db_of, world_at}

-- two slots in all and one for each endpoint: two tasks for endpoint 7
abbrev one_waits : Pool
one_waits = record {
  semaphore = 0;
  endpoint_semaphores =
      endpoint_semaphore 1 7 (endpoint_semaphore 1 7 (start_pool 2).endpoint_semaphores);
  in_flight = waiting 7 ∷ waiting 7 ∷ [];
}

one_waits_reached : Reach 1 2 one_waits
unfolding start_pool
one_waits_reached =
    next (next (next (next here (create_task 1 refl)) (create_task 0 refl)) (look_up [] _ 7 refl))
      (look_up (waiting 7 ∷ []) [] 7 refl)

Reach-bounds_example :
    (length one_waits.in_flight ≤ 2)
    × ((e : ℕ) → holders e one_waits.in_flight ≤ 1)
    × (one_waits.in_flight ≡ [] → one_waits.semaphore ≡ 2)
    × (one_waits.in_flight ≡ [] → (e : ℕ) → value_or 1 (one_waits.endpoint_semaphores e) ≡ 1)
Reach-bounds_example = Reach-bounds 2 1 one_waits_reached

Reach-progress_example :
    ((q : Pool) × Step 1 one_waits q × (holders 7 q.in_flight ≡ holders 7 one_waits.in_flight + 1))
    ⊎ (0 < holders 7 one_waits.in_flight)
Reach-progress_example =
    Reach-progress 2 1 one_waits_reached (omega arith) (waiting 7 ∷ []) [] 7 refl

abbrev quiet : World
quiet = world_at 70_000_000 (db_of (endpoint_in closed) (delivery_in DeliveryState.pending))

abbrev posted : Scope
posted = record {
  is_http = true;
  path = "/v1/events";
  headers = (codes "host", codes "relay") ∷ (codes "content-length", codes "70000") ∷ [];
}

abbrev answer : Exec ℕ
answer = pure 202

declared : content_length posted.headers ≡ some (codes "70000")
unfolding content_length
declared = refl

limit_body-digits_example :
    (65_536 < spelled 0 (codes "70000")
      → limit_body 65_536 posted answer quiet
        ≡ (ok (refused (too_large (spelled 0 (codes "70000")) 65_536 "/v1/events")), quiet))
    × (spelled 0 (codes "70000") ≤ 65_536
        → limit_body 65_536 posted answer quiet
          ≡ (answer >>= λ response. pure (passed response)) quiet)
limit_body-digits_example =
    limit_body-digits 65_536 posted answer quiet (codes "70000") refl declared
      (refl, (refl, (refl, (refl, (refl, tt))))) (omega arith) (omega arith)
