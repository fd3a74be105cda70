-- ===== src/Services/Ingest.antt =====
-- src/relay/services/events/service.py: `EventIngestService`. Between the lookup and the INSERT
-- other requests may commit: `race` is what they do to the tables.
pub mod Keyed
use relay_webhooks.Prelude.{ℕ, String, str_eq, Option, none, some, ◌&&◌, if◌then◌else◌}
use relay_webhooks.Prelude.Result.{
  differing_body_conflict, idempotency_key_conflict, runtime_error, Result, ok, err,
}
use relay_webhooks.Platform.Storage.{Storage}
use relay_webhooks.Platform.Redis.{Redis}
use relay_webhooks.Domain.Records.{Event}
use relay_webhooks.World.{
  World, Db, Exec, ◌>>=◌, ◌>>◌, pure, raise, modify, require, commit, with_uow,
}
use relay_webhooks.Repositories.Events
use relay_webhooks.Repositories.Outbox

module _ ⦃σ : Storage⦄ ⦃ρ : Redis⦄ where
  -- what others commit is seen by the next statement of an open READ COMMITTED transaction
  abbrev pub interleave : (Db → Db) → World → World
  interleave race w = record w { committed = race w.committed; session = race w.session }

  unfoldable pub resolve : Event → String → String → Exec Event
  resolve existing event_type payload =
      if str_eq existing.type event_type && str_eq existing.payload payload
      then pure existing
      else raise differing_body_conflict

  -- the `except IdempotencyKeyConflict` branch
  unfoldable pub resolve_winner : ℕ → String → String → String → Exec Event
  unfolding resolve
  resolve_winner tenant_id event_type payload idempotency_key = do
    found ← Events.get_by_idempotency_key tenant_id idempotency_key
    winner ← require runtime_error found
    resolve winner event_type payload

  -- after the INSERT of the event
  unfoldable pub finish_ingest : Event → Exec Event
  finish_ingest event = do entry ← Outbox.create event.id; commit; pure event

  -- how the request goes on after the INSERT
  unfoldable pub inserted : ℕ → String → String → String → Result Event → Exec Event
  unfolding resolve_winner finish_ingest
  inserted tenant_id event_type payload idempotency_key (ok event) = finish_ingest event
  inserted tenant_id event_type payload idempotency_key (err idempotency_key_conflict) =
      resolve_winner tenant_id event_type payload idempotency_key
  inserted tenant_id event_type payload idempotency_key (err e) = raise e

  unfoldable pub insert_event : ℕ → String → String → String → Option String → Exec Event
  unfolding inserted
  insert_event tenant_id event_type payload idempotency_key correlation_id w =
      let r = Events.create tenant_id event_type payload idempotency_key correlation_id w in
      inserted tenant_id event_type payload idempotency_key r.0 r.1

  -- how the request goes on after the lookup
  unfoldable pub looked_up :
      (Db → Db) → ℕ → String → String → String → Option String → Option Event → Exec Event
  unfolding insert_event resolve
  looked_up race tenant_id event_type payload idempotency_key correlation_id (some existing) =
      resolve existing event_type payload
  looked_up race tenant_id event_type payload idempotency_key correlation_id none = do
    modify (interleave race)
    insert_event tenant_id event_type payload idempotency_key correlation_id

  unfoldable pub ingest_block :
      (Db → Db) → ℕ → String → String → String → Option String → Exec Event
  unfolding looked_up
  ingest_block race tenant_id event_type payload idempotency_key correlation_id = do
    existing ← Events.get_by_idempotency_key tenant_id idempotency_key
    looked_up race tenant_id event_type payload idempotency_key correlation_id existing

  unfoldable pub ingest : (Db → Db) → ℕ → String → String → String → Option String → Exec Event
  unfolding ingest_block
  ingest race tenant_id event_type payload idempotency_key correlation_id =
      with_uow (ingest_block race tenant_id event_type payload idempotency_key correlation_id)
