-- ===== src/Workers/Relay/Entry.antt =====
-- One outbox entry, from the claim to its mark.
use relay_webhooks.Prelude.{◌≡◌, ◌∙◌, refl, ap, some, List, All, filter_by}
use relay_webhooks.Prelude.Result.{ok}
use relay_webhooks.Platform.Storage.{Storage}
use relay_webhooks.Platform.Storage.Laws.{get-put_eq}
use relay_webhooks.Platform.Redis.{Redis}
use relay_webhooks.Domain.Endpoints.{Endpoint}
use relay_webhooks.Domain.Records.{Event, OutboxEntry, processed}
use relay_webhooks.World.{World}
use relay_webhooks.Repositories.Endpoints
use relay_webhooks.Repositories.Events
use relay_webhooks.Repositories.Outbox
use relay_webhooks.Workers.Relay.{fan_out, process_found, process_entry}
use relay_webhooks.Workers.Relay.FanOut.{IsServed, fan_out_serves}

module _ ⦃σ : Storage⦄ ⦃ρ : Redis⦄ (w : World) (entry : OutboxEntry) (event : Event)
    (has_event : σ.get Event w.session.events entry.event_id ≡ some event)
    (has_entry : σ.get OutboxEntry w.session.outbox entry.id ≡ some entry) where
  abbrev pub targets : List Endpoint
  targets = filter_by (Endpoints.is_target event.tenant_id event.type) (Endpoints.all_rows w)

  fanned : World
  fanned = (fan_out event targets w).1

  marked : OutboxEntry
  marked = record entry { status = processed }

  kept_entry : σ.get OutboxEntry fanned.session.outbox entry.id ≡ some entry
  unfolding fanned
  kept_entry =
      ap (λ (t : σ.Table OutboxEntry). σ.get OutboxEntry t entry.id)
        ((fan_out_serves event targets w).2.same_outbox)
      ∙ has_entry

  mark_lem :
      (u : World)
      → σ.get OutboxEntry u.session.outbox entry.id ≡ some entry
      → Outbox.mark_processed entry.id u ≡ (ok tt, Outbox.write marked u)
  unfolding Outbox.mark_processed Outbox.find marked
  mark_lem u h = rw h refl

  entry_eq : process_entry entry w ≡ (ok tt, Outbox.write marked fanned)
  unfolding process_entry process_found Events.get Endpoints.list_active_subscribed fanned
  entry_eq = rw (has_event, (fan_out_serves event targets w).0) (mark_lem fanned kept_entry)

  -- An entry that stands in the open session, as its claim wrote it, and whose event is found:
  -- every active endpoint of the tenant that listens to the event's type has a new pending delivery
  -- of the event, and an unread message for it; the entry is marked processed; nothing is committed
  -- yet.
  pub process_entry_serves :
      let r = process_entry entry w in
      (r.0 ≡ ok tt)
      × All (IsServed event r.1) targets
      × (σ.get OutboxEntry r.1.session.outbox entry.id ≡ some (record entry { status = processed }))
      × (r.1.committed ≡ w.committed)
  unfolding Outbox.write fanned marked
  process_entry_serves =
      let (returns, served, extends) = fan_out_serves event targets w in
      rw entry_eq (refl, served, get-put_eq _ _ _ _ refl, extends.same_committed)
