-- ===== src/Repositories/Deliveries.antt =====
-- src/relay/repositories/deliveries/repository.py, the statements on one delivery. The columns of
-- the row are the fields of the entity, which `_to_domain` copies.
use relay_webhooks.Prelude.{ℕ, ◌+◌, Option, none, some}
use relay_webhooks.Prelude.Result.{not_found}
use relay_webhooks.Domain.Deliveries.{Delivery, pending, delivered, retrying, dead}
use relay_webhooks.Platform.Storage.{Storage}
use relay_webhooks.Platform.Redis.{Redis}
use relay_webhooks.World.{World, Exec, ◌>>=◌, gets, pure, require}

module _ ⦃σ : Storage⦄ ⦃ρ : Redis⦄ where
  unfoldable pub find : World → ℕ → Option Delivery
  find w delivery_id = σ.get Delivery w.session.deliveries delivery_id

  -- `session.add` or the assignments of columns, `flush` and `refresh`
  unfoldable pub write : Delivery → World → World
  write d w = record w {
    session = record w.session { deliveries = σ.put Delivery w.session.deliveries d.id d };
  }

  unfoldable pub save : Delivery → Exec Delivery
  unfolding write
  save d w = pure d (write d w)

  unfoldable pub create : ℕ → ℕ → Exec Delivery
  unfolding save
  create event_id endpoint_id w =
      save
        (record {
          id = σ.fresh Delivery w.session.deliveries;
          event_id = event_id;
          endpoint_id = endpoint_id;
          state = pending;
          attempt_count = 0;
          created_at = w.clock;
          next_retry_at = none;
        })
        w

  unfoldable pub get : ℕ → Exec (Option Delivery)
  unfolding find
  get delivery_id = gets (λ w. find w delivery_id)

  unfoldable pub get_or_raise : ℕ → Exec Delivery
  unfolding get
  get_or_raise delivery_id = do found ← get delivery_id; require not_found found

  unfoldable pub mark_delivered : ℕ → Exec Delivery
  unfolding get_or_raise save
  mark_delivered delivery_id = do
    model ← get_or_raise delivery_id
    save (record model {
      state = delivered;
      attempt_count = model.attempt_count + 1;
      next_retry_at = none;
    })

  unfoldable pub mark_retrying : ℕ → ℕ → Exec Delivery
  unfolding get_or_raise save
  mark_retrying delivery_id next_retry_at = do
    model ← get_or_raise delivery_id
    save (record model {
      state = retrying;
      attempt_count = model.attempt_count + 1;
      next_retry_at = some next_retry_at;
    })

  unfoldable pub mark_dead : ℕ → Exec Delivery
  unfolding get_or_raise save
  mark_dead delivery_id = do
    model ← get_or_raise delivery_id
    save (record model {
      state = dead;
      attempt_count = model.attempt_count + 1;
      next_retry_at = none;
    })

  unfoldable pub reschedule : ℕ → ℕ → Exec Delivery
  unfolding get_or_raise save
  reschedule delivery_id next_retry_at = do
    model ← get_or_raise delivery_id
    save (record model { state = retrying; next_retry_at = some next_retry_at })

  unfoldable pub reset_for_replay : ℕ → Exec Delivery
  unfolding get_or_raise save
  reset_for_replay delivery_id = do
    model ← get_or_raise delivery_id
    save (record model { state = pending; attempt_count = 0; next_retry_at = none })
