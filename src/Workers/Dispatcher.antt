-- ===== src/Workers/Dispatcher.antt =====
-- src/relay/workers/dispatcher.py.
pub mod Acks
pub mod Pool
use relay_webhooks.Prelude.{ℕ, String, Option, none, some, if◌then◌else◌}
use relay_webhooks.Platform.Storage.{Storage}
use relay_webhooks.Platform.Redis.{Redis}
use relay_webhooks.Domain.Deliveries.{Delivery, is_retrying}
use relay_webhooks.Infra.Streams.{DeliveryMessage, read_deliveries, ack_delivery}
use relay_webhooks.Infra.RetrySchedule.{schedule_retry}
use relay_webhooks.Services.Attempt.{Outside, attempt}
use relay_webhooks.Settings.{Settings}
use relay_webhooks.World.{Exec, ◌>>=◌, ◌>>◌, pure, with_uow, catch}
use relay_webhooks.Repositories.Deliveries

abbrev pub endpoint_of : Option Delivery → Option ℕ
endpoint_of none = none
endpoint_of (some d) = some d.endpoint_id

-- the condition under which a retry is scheduled, with its time
abbrev pub retry_time : Delivery → Option ℕ
retry_time d = if is_retrying d.state then d.next_retry_at else none

module _ ⦃σ : Storage⦄ ⦃ρ : Redis⦄ (s : Settings) (o : Outside) where
  unfoldable pub schedule_at : Option ℕ → ℕ → Option String → Exec (Unit {0})
  schedule_at none delivery_id correlation_id = pure tt
  schedule_at (some at_time) delivery_id correlation_id =
      schedule_retry delivery_id at_time correlation_id

  unfoldable pub schedule_if_retrying : Delivery → Option String → Exec (Unit {0})
  unfolding schedule_at
  schedule_if_retrying d correlation_id = schedule_at (retry_time d) d.id correlation_id

  unfoldable pub process_delivery_message : ℕ → Option String → Exec (Unit {0})
  unfolding schedule_if_retrying
  process_delivery_message delivery_id correlation_id = do
    delivery ← attempt s o delivery_id
    schedule_if_retrying delivery correlation_id

  -- the lookup for the per-endpoint semaphore
  unfoldable pub lookup_endpoint_id : ℕ → Exec (Option ℕ)
  lookup_endpoint_id delivery_id = do
    found ← with_uow (Deliveries.get delivery_id)
    pure (endpoint_of found)

  -- every exception is logged and leaves the message unacknowledged
  unfoldable pub handle_and_ack : DeliveryMessage → Exec (Unit {0})
  unfolding lookup_endpoint_id process_delivery_message
  handle_and_ack message =
      catch
        (do
          endpoint_id ← lookup_endpoint_id message.delivery_id
          process_delivery_message message.delivery_id message.correlation_id
          ack_delivery message.message_id)
        (λ e. pure tt)
