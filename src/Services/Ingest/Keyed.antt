-- ===== src/Services/Ingest/Keyed.antt =====
-- The idempotency of an ingest, on every branch.
use relay_webhooks.Prelude.{
  ℕ, ◌≡◌, refl, arith, String, str_eq, Option, some, none, ◌&&◌, if◌then◌else◌,
}
use relay_webhooks.Prelude.Result.{Result, ok, err, differing_body_conflict}
use relay_webhooks.Platform.Storage.{Storage}
use relay_webhooks.Platform.Redis.{Redis}
use relay_webhooks.Domain.Records.{Event, OutboxEntry, pending}
use relay_webhooks.World.{World, Db, with_uow, rollback, commit}
use relay_webhooks.Repositories.Events
use relay_webhooks.Repositories.Outbox
use relay_webhooks.Services.Ingest.{
  ingest, ingest_block, looked_up, resolve, interleave, insert_event, inserted, resolve_winner,
  finish_ingest,
}

-- the answer to a request whose key the event `e` has taken
unfoldable pub replayed : Event → String → String → Result Event
replayed e event_type payload =
    if str_eq e.type event_type && str_eq e.payload payload
    then ok e
    else err differing_body_conflict

resolve_lem :
    ⦃σ : Storage⦄ ⦃ρ : Redis⦄ (e : Event) (event_type payload : String) (w : World)
    → resolve e event_type payload w ≡ (replayed e event_type payload, w)
unfolding resolve replayed
resolve_lem e event_type payload w = ground arith

module _ ⦃σ : Storage⦄ ⦃ρ : Redis⦄ (race : Db → Db) (tenant_id : ℕ)
    (event_type payload key : String) (correlation_id : Option String) (w : World) where
  -- A key that is taken already: the request is answered from the event that took it, and nothing
  -- is committed.
  pub ingest_repeats :
      (e : Event)
      → Events.find_key (record w { session = w.committed }) tenant_id key ≡ some e
      → let r = ingest race tenant_id event_type payload key correlation_id w in
        (r.0 ≡ replayed e event_type payload) × (r.1.committed ≡ w.committed)
  unfolding ingest with_uow ingest_block looked_up Events.get_by_idempotency_key rollback
  ingest_repeats e h = rw (h, resolve_lem e event_type payload) (refl, refl)

  -- A key that another request takes between the lookup and the INSERT: the request is answered
  -- from the winner's event, and commits nothing of its own.
  pub ingest_loses :
      (e : Event)
      → Events.find_key (record w { session = w.committed }) tenant_id key ≡ none
      → Events.find_key (interleave race (record w { session = w.committed })) tenant_id key
        ≡ some e
      → let r = ingest race tenant_id event_type payload key correlation_id w in
        (r.0 ≡ replayed e event_type payload) × (r.1.committed ≡ race w.committed)
  unfolding ingest with_uow ingest_block looked_up insert_event inserted resolve_winner
      Events.create Events.get_by_idempotency_key rollback
  ingest_loses e free taken = rw (free, taken, taken, resolve_lem e event_type payload) (refl, refl)

  -- A key that stays free: the event and its outbox entry, still to be fanned out, are committed
  -- together, and the event is returned.
  pub ingest_inserts :
      Events.find_key (record w { session = w.committed }) tenant_id key ≡ none
      → Events.find_key (interleave race (record w { session = w.committed })) tenant_id key ≡ none
      → let r = ingest race tenant_id event_type payload key correlation_id w in
        let db = race w.committed in
        let i = σ.fresh Event db.events in
        let j = σ.fresh OutboxEntry db.outbox in
        let e : Event = record {
          id = i;
          tenant_id = tenant_id;
          type = event_type;
          payload = payload;
          idempotency_key = key;
          created_at = w.clock;
          correlation_id = correlation_id;
        } in
        let entry : OutboxEntry = record {
          id = j;
          event_id = i;
          status = pending;
          attempts = 0;
          created_at = w.clock;
          locked_at = none;
        } in
        (r.0 ≡ ok e)
        × (r.1.committed ≡ record db {
          events = σ.put Event db.events i e;
          outbox = σ.put OutboxEntry db.outbox j entry;
        })
  unfolding ingest with_uow ingest_block looked_up insert_event inserted finish_ingest Events.create
      Events.new_row Events.write Outbox.create Outbox.write commit Events.get_by_idempotency_key
      rollback
  ingest_inserts free still_free = rw (free, still_free) (refl, refl)
