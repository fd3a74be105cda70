-- ===== src/Workers/Scheduler.antt =====
-- src/relay/workers/scheduler.py.
pub mod Fires
use relay_webhooks.Prelude.{ℕ, List, [], ◌∷◌, length}
use relay_webhooks.Platform.Storage.{Storage}
use relay_webhooks.Platform.Redis.{Redis}
use relay_webhooks.Infra.Streams.{enqueue_delivery}
use relay_webhooks.Infra.RetrySchedule.{DueRetry, pop_due_retries}
use relay_webhooks.World.{Exec, ◌>>=◌, ◌>>◌, pure, gets}

abbrev pub default_pop_limit : ℕ
default_pop_limit = 100

module _ ⦃σ : Storage⦄ ⦃ρ : Redis⦄ where
  unfoldable pub fire_all : List DueRetry → Exec (Unit {0})
  fire_all [] = pure tt
  fire_all (retry ∷ rest) = do
    message_id ← enqueue_delivery retry.delivery_id retry.correlation_id
    fire_all rest

  unfoldable pub run_once : ℕ → Exec ℕ
  unfolding fire_all
  run_once limit = do
    now ← gets (λ w. w.clock)
    due ← pop_due_retries now limit
    fire_all due
    pure (length due)
