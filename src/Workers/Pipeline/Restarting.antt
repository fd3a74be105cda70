-- ===== src/Workers/Pipeline/Restarting.antt =====
-- A tick of the scheduler and a replay lose no delivery.
use relay_webhooks.Prelude.{
  ℕ, ◌==◌, ◌≡◌, ◌∙◌, refl, arith, Bool-cases, inl, inr, Option-cases, map, subst, some-injective,
  sym,
}
use relay_webhooks.Platform.Storage.{Storage}
use relay_webhooks.Platform.Redis.{Redis, StreamFields}
use relay_webhooks.Domain.Deliveries.{Delivery, is_dead}
use relay_webhooks.Domain.Records.{Event}
use relay_webhooks.Infra.RetrySchedule.{parse_member, pop_due_retries, pop_due_script}
use relay_webhooks.Infra.Streams.{enqueue_delivery}
use relay_webhooks.Repositories.Deliveries
use relay_webhooks.Repositories.Events
use relay_webhooks.Services.Replay.{replay, replay_block, owned_by}
use relay_webhooks.Services.Replay.Effect.{reset}
use relay_webhooks.Workers.Pipeline.Sending.{NoneLost-moved}
use relay_webhooks.Workers.Pipeline.Steps.{NoneLost, LosesNone, HasParents}
use relay_webhooks.Workers.Pipeline.Tracked.{
  IsTracked, tracked-Holds, xadd-Holds, tracked-xadd, tracked-fired,
}
use relay_webhooks.Workers.Scheduler.{run_once}
use relay_webhooks.Workers.Scheduler.Fires.{fire_all_lem, fired}
use relay_webhooks.World.{World, Db, with_uow, rollback, commit}

module _ ⦃σ : Storage⦄ ⦃ρ : Redis⦄ (w : World) (n : LosesNone w) where
  pub fire-LosesNone : (limit : ℕ) → LosesNone (run_once limit w).1
  unfolding run_once pop_due_retries pop_due_script
  fire-LosesNone limit =
      let due = ρ.zrangebyscore w.retries w.clock limit in
      let z = ρ.zrem w.retries due in
      rw (fire_all_lem (map parse_member due) (record w { retries = z })) (
        NoneLost-moved w.committed w.stream (fired (map parse_member due) w.stream) w.retries z
          (tracked-fired w.stream w.retries due) n)

module _ ⦃σ : Storage⦄ ⦃ρ : Redis⦄ (db : Db) (s : ρ.Stream) (z : ρ.Retries) (n : NoneLost db s z)
    (d' : Delivery) (f : StreamFields) (names : f.delivery_id ≡ d'.id)
    (adopted : HasParents db d') where
  -- A row that is written together with a message for it loses none.
  pub NoneLost-enqueued :
      NoneLost (record db { deliveries = σ.put Delivery db.deliveries d'.id d' }) (ρ.xadd s f).1 z
  NoneLost-enqueued = record {
    delivery_ids = λ i c at_i. elim (Bool-cases (d'.id == i)) [
      | inl same ↦ ground (arith, at_i, σ.get_put Delivery db.deliveries d'.id i d')
      | inr other ↦ n.delivery_ids i c (rw (σ.get_put, other) at at_i)
    ];
    endpoint_ids = n.endpoint_ids;
    event_ids = n.event_ids;
    parents = λ i c at_i. elim (Bool-cases (d'.id == i)) [
      | inl same ↦
          let is_new : d' ≡ c = some-injective (sym (rw (σ.get_put, same) refl) ∙ at_i) in
          subst (HasParents db) is_new adopted
      | inr other ↦ n.parents i c (rw (σ.get_put, other) at at_i)
    ];
    tracked = λ i c at_i live. elim (Bool-cases (d'.id == i)) [
      | inl same ↦
          let ids : d'.id ≡ i = ground arith in
          subst (IsTracked (ρ.xadd s f).1 z) (names ∙ ids) (tracked-xadd s z f)
      | inr other ↦
          tracked-Holds s (ρ.xadd s f).1 z i (xadd-Holds s f)
            (n.tracked i c (rw (σ.get_put, other) at at_i) live)
    ];
  }

module _ ⦃σ : Storage⦄ ⦃ρ : Redis⦄ (w : World) (n : LosesNone w) where
  pub replay-LosesNone : (i tenant_id : ℕ) → LosesNone (replay i tenant_id w).1
  unfolding replay replay_block with_uow rollback commit Deliveries.get Events.get reset
      Deliveries.reset_for_replay enqueue_delivery
  replay-LosesNone i tenant_id = elim (Option-cases (σ.get Delivery w.committed.deliveries i)) [
    | inl gone ↦ rw gone n
    | inr (d, found) ↦
        elim (Option-cases (owned_by tenant_id (σ.get Event w.committed.events d.event_id))) [
          | inl foreign ↦ rw (found, foreign) n
          | inr (e, own) ↦ elim (Bool-cases (is_dead d.state)) [
            | inr alive ↦ rw (found, own, alive) n
            | inl dead ↦
                rw (found, own, dead, found)
                  (NoneLost-enqueued w.committed w.stream w.retries n (reset d) _ refl
                    (n.parents i d found))
          ]
        ]
  ]
