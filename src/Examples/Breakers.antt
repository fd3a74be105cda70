-- ===== src/Examples/Breakers.antt =====
-- The breaker and the retry budget at concrete inputs.
use relay_webhooks.Prelude.{◌≡◌, refl, false, some, arith}
use relay_webhooks.Prelude.Result.{ok}
use relay_webhooks.Domain.Endpoints.{closed, next_breaker_state}
use relay_webhooks.Domain.Endpoints.Breaker.{IsSettled, next_breaker_state-IsSettled}
use relay_webhooks.Domain.Deliveries.{Delivery, DeliveryState}
use relay_webhooks.Settings.{default_settings}
use relay_webhooks.Services.Attempt.{settle}
use relay_webhooks.Services.Attempt.Budget.{IsBudgeted, settle-IsBudgeted}
use relay_webhooks.World.{World}
use relay_webhooks.Examples.Tables.{list_storage}
use relay_webhooks.Examples.Queues.{list_redis}
use relay_webhooks.Examples.Worlds.{endpoint_in, delivery_in, db_of, world_at, answer, outside}

next_breaker_state-IsSettled_example :
    let t = next_breaker_state closed 4 70_000_000 false 5 in
    IsSettled 5 t.state t.consecutive_failures t.opened_at
next_breaker_state-IsSettled_example =
    next_breaker_state-IsSettled closed 4 70_000_000 false 5 (omega arith)

abbrev waiting : Delivery
waiting = delivery_in DeliveryState.pending

abbrev before : World
before = world_at 70_000_000 (db_of (endpoint_in closed) waiting)

settle-IsBudgeted_example :
    let r = settle default_settings outside waiting answer 70_000_000 before in
    (d' : Delivery) × (r.0 ≡ ok d')
    × (list_storage.get Delivery r.1.session.deliveries 0 ≡ some d')
    × IsBudgeted default_settings 70_000_000 d'.state d'.attempt_count d'.next_retry_at
    × (d'.attempt_count ≡ 3)
settle-IsBudgeted_example =
    settle-IsBudgeted default_settings outside waiting answer 70_000_000 before
      (λ a b h. (h, omega arith)) (omega arith) refl
