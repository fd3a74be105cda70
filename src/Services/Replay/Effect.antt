-- ===== src/Services/Replay/Effect.antt =====
-- A replay, on every branch.
use relay_webhooks.Prelude.{ℕ, ◌≡◌, refl, some, none, true, false, ◌==◌}
use relay_webhooks.Prelude.Result.{ok, err, not_found, delivery_not_dead}
use relay_webhooks.Platform.Storage.{Storage}
use relay_webhooks.Platform.Redis.{Redis, StreamFields, unread}
use relay_webhooks.Platform.Redis.Laws.{message-xadd_new}
use relay_webhooks.Domain.Deliveries.{Delivery, pending, is_dead}
use relay_webhooks.Domain.Records.{Event}
use relay_webhooks.Infra.Streams.{enqueue_delivery}
use relay_webhooks.World.{World, with_uow, rollback, commit}
use relay_webhooks.Repositories.Deliveries
use relay_webhooks.Repositories.Events
use relay_webhooks.Services.Replay.{replay, replay_block}

-- a delivery with a full budget again
unfoldable pub reset : Delivery → Delivery
reset d = record d { state = pending; attempt_count = 0; next_retry_at = none }

module _ ⦃σ : Storage⦄ ⦃ρ : Redis⦄ (w : World) (d : Delivery) (e : Event) (tenant_id : ℕ)
    (has_delivery : σ.get Delivery w.committed.deliveries d.id ≡ some d)
    (has_event : σ.get Event w.committed.events d.event_id ≡ some e) where
  -- A stored delivery whose stored event is another tenant's is not found, and nothing changes.
  pub replay_hides :
      (e.tenant_id == tenant_id) ≡ false
      → let r = replay d.id tenant_id w in
        (r.0 ≡ err not_found) × (r.1.committed ≡ w.committed) × (r.1.stream ≡ w.stream)
  unfolding replay replay_block with_uow rollback Deliveries.get Events.get
  replay_hides foreign = rw (has_delivery, has_event, foreign) (refl, refl, refl)

  -- A stored delivery of the tenant that is not dead is refused, and nothing changes.
  pub replay_refuses :
      (e.tenant_id == tenant_id) ≡ true
      → is_dead d.state ≡ false
      → let r = replay d.id tenant_id w in
        (r.0 ≡ err delivery_not_dead) × (r.1.committed ≡ w.committed) × (r.1.stream ≡ w.stream)
  unfolding replay replay_block with_uow rollback Deliveries.get Events.get
  replay_refuses own alive = rw (has_delivery, has_event, own, alive) (refl, refl, refl)

  -- A stored delivery of the tenant that is dead gets a full budget, which is committed with
  -- nothing else in the database, and one new unread message for it stands on the stream; nothing
  -- is sent yet.
  pub replay_restarts :
      (e.tenant_id == tenant_id) ≡ true
      → is_dead d.state ≡ true
      → let r = replay d.id tenant_id w in
        let fields : StreamFields = record { delivery_id = d.id; correlation_id = none } in
        (r.0 ≡ ok (reset d))
        × (r.1.committed ≡ record w.committed {
          deliveries = σ.put Delivery w.committed.deliveries d.id (reset d);
        })
        × (ρ.message r.1.stream (ρ.xadd w.stream fields).0 ≡ unread fields)
        × (r.1.sender_calls ≡ w.sender_calls)
  unfolding replay replay_block with_uow rollback commit Deliveries.get Events.get reset
      Deliveries.reset_for_replay enqueue_delivery
  replay_restarts own gone =
      rw (has_delivery, has_event, own, gone, has_delivery) (refl, refl, message-xadd_new _ _, refl)
