-- ===== src/Services/Replay.antt =====
-- src/relay/services/deliveries/replay_service.py.
pub mod Effect
use relay_webhooks.Prelude.{ℕ, ◌==◌, Option, none, some, not, if◌then◌else◌}
use relay_webhooks.Prelude.Result.{not_found, delivery_not_dead}
use relay_webhooks.Platform.Storage.{Storage}
use relay_webhooks.Platform.Redis.{Redis}
use relay_webhooks.Domain.Deliveries.{Delivery, is_dead}
use relay_webhooks.Domain.Records.{Event}
use relay_webhooks.Infra.Streams.{enqueue_delivery}
use relay_webhooks.World.{Exec, ◌>>=◌, ◌>>◌, pure, require, raise_when, commit, with_uow}
use relay_webhooks.Repositories.Deliveries
use relay_webhooks.Repositories.Events

-- `event is None or event.tenant_id != tenant_id`
abbrev pub owned_by : ℕ → Option Event → Option Event
owned_by tenant_id none = none
owned_by tenant_id (some e) = if e.tenant_id == tenant_id then some e else none

module _ ⦃σ : Storage⦄ ⦃ρ : Redis⦄ where
  unfoldable pub replay_block : ℕ → ℕ → Exec Delivery
  replay_block delivery_id tenant_id = do
    found ← Deliveries.get delivery_id
    delivery ← require not_found found
    found_event ← Events.get delivery.event_id
    event ← require not_found (owned_by tenant_id found_event)
    raise_when (not (is_dead delivery.state)) delivery_not_dead
    replayed ← Deliveries.reset_for_replay delivery_id
    commit
    pure replayed

  unfoldable pub replay : ℕ → ℕ → Exec Delivery
  unfolding replay_block
  replay delivery_id tenant_id = do
    replayed ← with_uow (replay_block delivery_id tenant_id)
    message_id ← enqueue_delivery replayed.id none
    pure replayed
