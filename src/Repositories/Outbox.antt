-- ===== src/Repositories/Outbox.antt =====
-- src/relay/repositories/outbox/repository.py. A row that another transaction has locked is
-- skipped: `locked` says which ids those are.
use relay_webhooks.Prelude.{
  ℕ, ◌+◌, Bool, true, false, not, ◌&&◌, leb, Option, none, some, List, [], ◌∷◌, map, filter_by,
  take, if◌then◌else◌,
}
use relay_webhooks.Prelude.Result.{not_found}
use relay_webhooks.Domain.Records.{OutboxEntry, OutboxStatus, pending, processed}
use relay_webhooks.Platform.Storage.{Storage}
use relay_webhooks.Platform.Redis.{Redis}
use relay_webhooks.World.{World, Exec, ◌>>=◌, gets, pure, require, resume}

abbrev pub is_pending : OutboxStatus → Bool
is_pending pending = true
is_pending processed = false

-- ORDER BY created_at
unfoldable pub insert_by_age : OutboxEntry → List OutboxEntry → List OutboxEntry
insert_by_age e [] = e ∷ []
insert_by_age e (x ∷ xs) =
    let rest = insert_by_age e xs in if leb e.created_at x.created_at then e ∷ x ∷ xs else x ∷ rest

unfoldable pub order_by_age : List OutboxEntry → List OutboxEntry
unfolding insert_by_age
order_by_age [] = []
order_by_age (x ∷ xs) = insert_by_age x (order_by_age xs)

module _ ⦃σ : Storage⦄ ⦃ρ : Redis⦄ where
  unfoldable pub find : World → ℕ → Option OutboxEntry
  find w outbox_id = σ.get OutboxEntry w.session.outbox outbox_id

  unfoldable pub write : OutboxEntry → World → World
  write e w = record w {
    session = record w.session { outbox = σ.put OutboxEntry w.session.outbox e.id e };
  }

  unfoldable pub create : ℕ → Exec OutboxEntry
  unfolding write
  create event_id w =
      let e : OutboxEntry = record {
        id = σ.fresh OutboxEntry w.session.outbox;
        event_id = event_id;
        status = pending;
        attempts = 0;
        created_at = w.clock;
        locked_at = none;
      } in
      pure e (write e w)

  -- the SELECT ... FOR UPDATE SKIP LOCKED
  unfoldable pub due : (ℕ → Bool) → ℕ → World → List OutboxEntry
  unfolding order_by_age
  due locked limit w = take limit (
      order_by_age (
        filter_by (λ (e : OutboxEntry). is_pending e.status && not (locked e.id))
          (map (λ (p : ℕ × OutboxEntry). p.1) (σ.rows OutboxEntry w.session.outbox))))

  unfoldable pub claimed : ℕ → OutboxEntry → OutboxEntry
  claimed now e = record e { locked_at = some now; attempts = e.attempts + 1 }

  unfoldable pub claim_all : ℕ → List OutboxEntry → Exec (List OutboxEntry)
  claim_all now [] w = pure [] w
  claim_all now (e ∷ rows) w =
      let rest = claim_all now rows (write (claimed now e) w) in
      resume rest.0 (λ es. pure (claimed now e ∷ es)) rest.1

  unfoldable pub claim_due : (ℕ → Bool) → ℕ → Exec (List OutboxEntry)
  claim_due locked limit = do
    rows ← gets (due locked limit)
    now ← gets (λ w. w.clock)
    claim_all now rows

  unfoldable pub mark_processed : ℕ → Exec (Unit {0})
  unfolding find write
  mark_processed outbox_id = do
    found ← gets (λ w. find w outbox_id)
    model ← require not_found found
    λ w. (pure tt) (write (record model { status = processed }) w)
