-- ===== src/Services/Atomicity.antt =====
-- Each use case is all or nothing: if it raises, the committed tables are those that it found.
use relay_webhooks.Prelude.{ℕ, ◌≡◌, refl, String, List, Option, Bytes}
use relay_webhooks.Prelude.Result.{Error, err}
use relay_webhooks.Platform.Storage.{Storage}
use relay_webhooks.Platform.Redis.{Redis}
use relay_webhooks.Domain.Deliveries.{Delivery, AttemptErrorClass}
use relay_webhooks.Domain.Endpoints.{Endpoint, BreakerState}
use relay_webhooks.Domain.Records.{Event}
use relay_webhooks.Infra.HttpSender.{OutboundHttpResult}
use relay_webhooks.Infra.AttemptEvents.{AttemptEvent}
use relay_webhooks.Infra.Streams.{enqueue_delivery}
use relay_webhooks.Settings.{Settings}
use relay_webhooks.World.{World}
use relay_webhooks.World.Atomic.{
  IsQuiet, IsTotal, IsAtomic, IsAtomic-bind, IsAtomic-then, IsAtomic-if, IsAtomic-with_uow,
  IsAtomic-of_IsQuiet, IsAtomic-of_IsTotal, total_rules,
}
use relay_webhooks.Repositories.Quiet.{repository_rules}
use relay_webhooks.Services.Attempt
use relay_webhooks.Services.Attempt.{Outside, BlockEnd}
use relay_webhooks.Services.Replay

ruleset atomic_rules = (
  IsAtomic-bind, IsAtomic-if, IsAtomic-of_IsQuiet, IsAtomic-of_IsTotal, repository_rules,
  total_rules,
)

module _ ⦃σ : Storage⦄ ⦃ρ : Redis⦄ where
  enqueue_delivery-IsTotal : (i : ℕ) (c : Option String) → IsTotal (enqueue_delivery i c)
  unfolding enqueue_delivery
  enqueue_delivery-IsTotal i c = record { returns = λ w. ((ρ.xadd w.stream _).0, refl) }

  replay_block-IsAtomic : (i t : ℕ) → IsAtomic (Replay.replay_block i t)
  unfolding Replay.replay_block
  replay_block-IsAtomic i t = search atomic_rules depth 12

  replay-IsAtomic : (i t : ℕ) → IsAtomic (Replay.replay i t)
  unfolding Replay.replay
  replay-IsAtomic i t =
      IsAtomic-then _ _ (IsAtomic-with_uow _ (replay_block-IsAtomic i t))
        λ d. search (total_rules, enqueue_delivery-IsTotal)

  -- A replay that raises leaves the committed tables alone.
  pub replay_undone :
      (delivery_id tenant_id : ℕ) (w : World) (x : Error)
      → (Replay.replay delivery_id tenant_id w).0 ≡ err x
      → (Replay.replay delivery_id tenant_id w).1.committed ≡ w.committed
  replay_undone delivery_id tenant_id = (replay-IsAtomic delivery_id tenant_id).undone

module _ ⦃σ : Storage⦄ ⦃ρ : Redis⦄ (s : Settings) (o : Outside) where
  publish_event-IsTotal : (t : ℕ) (v : AttemptEvent) → IsTotal (Attempt.publish_event s o t v)
  unfolding Attempt.publish_event
  publish_event-IsTotal t v = search total_rules

  publish-IsTotal :
      (t : ℕ) (d : Delivery) (b : BreakerState) (n : Option ℕ) (l : ℕ) (c : Option ℕ)
      (x : Option AttemptErrorClass) (h : Option (List (String × Bytes)))
      → IsTotal (Attempt.publish s o t d b n l c x h)
  unfolding Attempt.publish
  publish-IsTotal t d b n l c x h = search (total_rules, publish_event-IsTotal)

  after_block-IsTotal : (e : BlockEnd) → IsTotal (Attempt.after_block s o e)
  unfolding Attempt.after_block
  after_block-IsTotal (Attempt.deferred d) = search total_rules
  after_block-IsTotal (Attempt.sent out) = search (total_rules, publish-IsTotal)

  defer-IsAtomic : (d : Delivery) (v : Event) (p : Endpoint) → IsAtomic (Attempt.defer s o d v p)
  unfolding Attempt.defer
  defer-IsAtomic d v p = search (atomic_rules, publish-IsTotal) depth 12

  pub probe-IsQuiet : (p : Endpoint) → IsQuiet (Attempt.probe s o p)
  unfolding Attempt.probe
  probe-IsQuiet p = search repository_rules

  pub send_request-IsQuiet :
      (url : String) (payload : Bytes) (headers : List (String × Bytes))
      → IsQuiet (Attempt.send_request s o url payload headers)
  unfolding Attempt.send_request
  send_request-IsQuiet url payload headers = record { keeps = λ w. refl }

  pub settle-IsQuiet :
      (d : Delivery) (r : OutboundHttpResult) (now : ℕ) → IsQuiet (Attempt.settle s o d r now)
  unfolding Attempt.settle
  settle-IsQuiet d r now = search repository_rules depth 8

  pub count_outcome-IsQuiet :
      (d : Delivery) (r : OutboundHttpResult) → IsQuiet (Attempt.count_outcome s o d r)
  unfolding Attempt.count_outcome
  count_outcome-IsQuiet d r = record { keeps = λ w. refl }

  record_outcome-IsAtomic :
      (d : Delivery) (v : Event) (p : Endpoint) (now : ℕ) (h : List (String × Bytes))
      (r : OutboundHttpResult)
      → IsAtomic (Attempt.record_outcome s o d v p now h r)
  unfolding Attempt.record_outcome
  record_outcome-IsAtomic d v p now h r =
      search (atomic_rules, settle-IsQuiet, count_outcome-IsQuiet) depth 14

  send_attempt-IsAtomic :
      (d : Delivery) (v : Event) (p : Endpoint) (now : ℕ)
      → IsAtomic (Attempt.send_attempt s o d v p now)
  unfolding Attempt.send_attempt
  send_attempt-IsAtomic d v p now =
      search (atomic_rules, probe-IsQuiet, send_request-IsQuiet, record_outcome-IsAtomic) depth 12

  attempt_block-IsAtomic : (i : ℕ) → IsAtomic (Attempt.attempt_block s o i)
  unfolding Attempt.attempt_block
  attempt_block-IsAtomic i = search (atomic_rules, defer-IsAtomic, send_attempt-IsAtomic) depth 16

  pub attempt-IsAtomic : (i : ℕ) → IsAtomic (Attempt.attempt s o i)
  unfolding Attempt.attempt
  attempt-IsAtomic i =
      IsAtomic-then _ _ (IsAtomic-with_uow _ (attempt_block-IsAtomic i)) after_block-IsTotal

  -- An attempt that raises, whatever raised, leaves the committed tables alone.
  pub attempt_undone :
      (delivery_id : ℕ) (w : World) (x : Error)
      → (Attempt.attempt s o delivery_id w).0 ≡ err x
      → (Attempt.attempt s o delivery_id w).1.committed ≡ w.committed
  attempt_undone delivery_id = (attempt-IsAtomic delivery_id).undone
