-- ===== src/Repositories/Events.antt =====
-- src/relay/repositories/events/repository.py. The unique constraint on (tenant_id,
-- idempotency_key) makes the INSERT fail; its savepoint leaves the session as it was.
use relay_webhooks.Prelude.{
  ℕ, ◌==◌, String, str_eq, Bool, ◌&&◌, Option, List, map, filter_by, find_first, length, is_some,
  if◌then◌else◌,
}
use relay_webhooks.Prelude.Result.{idempotency_key_conflict}
use relay_webhooks.Domain.Records.{Event}
use relay_webhooks.Platform.Storage.{Storage}
use relay_webhooks.Platform.Redis.{Redis}
use relay_webhooks.World.{World, Exec, gets, pure, raise}

module _ ⦃σ : Storage⦄ ⦃ρ : Redis⦄ where
  unfoldable pub find : World → ℕ → Option Event
  find w event_id = σ.get Event w.session.events event_id

  unfoldable pub write : Event → World → World
  write e w = record w {
    session = record w.session { events = σ.put Event w.session.events e.id e };
  }

  abbrev pub all_rows : World → List Event
  all_rows w = map (λ (p : ℕ × Event). p.1) (σ.rows Event w.session.events)

  abbrev pub has_key : ℕ → String → Event → Bool
  has_key tenant_id idempotency_key e =
      e.tenant_id == tenant_id && str_eq e.idempotency_key idempotency_key

  unfoldable pub find_key : World → ℕ → String → Option Event
  find_key w tenant_id idempotency_key = find_first (has_key tenant_id idempotency_key) (all_rows w)

  unfoldable pub get_by_idempotency_key : ℕ → String → Exec (Option Event)
  unfolding find_key
  get_by_idempotency_key tenant_id idempotency_key =
      gets (λ w. find_key w tenant_id idempotency_key)

  unfoldable pub new_row : World → ℕ → String → String → String → Option String → Event
  new_row w tenant_id event_type payload idempotency_key correlation_id = record {
    id = σ.fresh Event w.session.events;
    tenant_id = tenant_id;
    type = event_type;
    payload = payload;
    idempotency_key = idempotency_key;
    created_at = w.clock;
    correlation_id = correlation_id;
  }

  unfoldable pub create : ℕ → String → String → String → Option String → Exec Event
  unfolding find_key new_row write
  create tenant_id event_type payload idempotency_key correlation_id w =
      if is_some (find_key w tenant_id idempotency_key)
      then raise idempotency_key_conflict w
      else let e = new_row w tenant_id event_type payload idempotency_key correlation_id in
        pure e (write e w)

  unfoldable pub get : ℕ → Exec (Option Event)
  unfolding find
  get event_id = gets (λ w. find w event_id)

  unfoldable pub count_for_tenant : ℕ → Exec ℕ
  count_for_tenant tenant_id =
      gets (λ w. length (filter_by (λ (e : Event). e.tenant_id == tenant_id) (all_rows w)))
