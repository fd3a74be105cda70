-- ===== src/Workers/Reaper.antt =====
-- src/relay/workers/reaper.py.
pub mod Sweep
use relay_webhooks.Prelude.{ℕ, String, List, [], ◌∷◌, length}
use relay_webhooks.Prelude.Result.{Error, not_found}
use relay_webhooks.Platform.Storage.{Storage}
use relay_webhooks.Platform.Redis.{Redis}
use relay_webhooks.Infra.Streams.{DeliveryMessage, claim_stale_deliveries, ack_delivery}
use relay_webhooks.Services.Attempt.{Outside}
use relay_webhooks.Settings.{Settings}
use relay_webhooks.Workers.Dispatcher.{process_delivery_message}
use relay_webhooks.World.{Exec, ◌>>=◌, ◌>>◌, pure, catch}

abbrev pub default_claim_count : ℕ
default_claim_count = 50

module _ ⦃σ : Storage⦄ ⦃ρ : Redis⦄ (s : Settings) (o : Outside) where
  -- `except NotFoundError` acknowledges, `except Exception` leaves the message
  unfoldable pub drop_if_gone : ℕ → Error → Exec (Unit {0})
  drop_if_gone message_id not_found = ack_delivery message_id
  drop_if_gone message_id e = pure tt

  unfoldable pub reprocess : DeliveryMessage → Exec (Unit {0})
  unfolding drop_if_gone
  reprocess message =
      catch
        (do
          process_delivery_message s o message.delivery_id message.correlation_id
          ack_delivery message.message_id)
        (drop_if_gone message.message_id)

  unfoldable pub reprocess_all : List DeliveryMessage → Exec (Unit {0})
  unfolding reprocess
  reprocess_all [] w = pure tt w
  reprocess_all (m ∷ rest) w = reprocess_all rest (reprocess m w).1

  unfoldable pub run_once : String → ℕ → Exec ℕ
  unfolding reprocess_all
  run_once consumer_name min_idle_ms = do
    claimed ← claim_stale_deliveries consumer_name min_idle_ms default_claim_count
    reprocess_all claimed
    pure (length claimed)
