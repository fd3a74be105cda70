-- ===== src/Workers/Relay.antt =====
-- src/relay/workers/relay.py: the outbox is fanned out to the delivery stream.
pub mod FanOut
pub mod Entry
pub mod Claims
pub mod Keeps
pub mod Batch
use relay_webhooks.Prelude.{ℕ, Bool, Option, none, some, List, [], ◌∷◌, length}
use relay_webhooks.Platform.Storage.{Storage}
use relay_webhooks.Platform.Redis.{Redis}
use relay_webhooks.Domain.Endpoints.{Endpoint}
use relay_webhooks.Domain.Records.{Event, OutboxEntry}
use relay_webhooks.Infra.Streams.{enqueue_delivery}
use relay_webhooks.World.{Exec, ◌>>=◌, ◌>>◌, pure, commit, with_uow}
use relay_webhooks.Repositories.Deliveries
use relay_webhooks.Repositories.Endpoints
use relay_webhooks.Repositories.Events
use relay_webhooks.Repositories.Outbox

module _ ⦃σ : Storage⦄ ⦃ρ : Redis⦄ where
  -- the loop over the subscribed endpoints
  unfoldable pub fan_out : Event → List Endpoint → Exec (Unit {0})
  fan_out event [] = pure tt
  fan_out event (endpoint ∷ rest) = do
    delivery ← Deliveries.create event.id endpoint.id
    message_id ← enqueue_delivery delivery.id event.correlation_id
    fan_out event rest

  unfoldable pub process_found : OutboxEntry → Option Event → Exec (Unit {0})
  unfolding fan_out
  process_found entry none = Outbox.mark_processed entry.id
  process_found entry (some event) = do
    endpoints ← Endpoints.list_active_subscribed event.tenant_id event.type
    fan_out event endpoints
    Outbox.mark_processed entry.id

  unfoldable pub process_entry : OutboxEntry → Exec (Unit {0})
  unfolding process_found
  process_entry entry = do found ← Events.get entry.event_id; process_found entry found

  unfoldable pub process_all : List OutboxEntry → Exec (Unit {0})
  unfolding process_entry
  process_all [] = pure tt
  process_all (entry ∷ rest) = do process_entry entry; process_all rest

  unfoldable pub run_once : (ℕ → Bool) → ℕ → Exec ℕ
  unfolding process_all
  run_once locked batch_size = with_uow (do
    entries ← Outbox.claim_due locked batch_size
    process_all entries
    commit
    pure (length entries))
