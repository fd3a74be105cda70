-- ===== src/Workers/Dispatcher/Acks.antt =====
-- What is true of a message when the dispatcher has handled it.
use relay_webhooks.Prelude.{ℕ, ◌≡◌, ◌∙◌, refl, ap, sym, String, Option, some, none}
use relay_webhooks.Prelude.Result.{Error, Result, ok, err}
use relay_webhooks.Platform.Storage.{Storage}
use relay_webhooks.Platform.Redis.{Redis, envelope, after_ack}
use relay_webhooks.Platform.Redis.Laws.{message-xack_same, zscore-zadd_same}
use relay_webhooks.Domain.Deliveries.{Delivery}
use relay_webhooks.Infra.Streams.{DeliveryMessage, ack_delivery}
use relay_webhooks.Infra.RetrySchedule.{schedule_retry}
use relay_webhooks.Services.Attempt.{Outside, attempt}
use relay_webhooks.Services.Atomicity.{attempt_undone}
use relay_webhooks.Services.Offline.{attempt-IsOffline}
use relay_webhooks.Settings.{Settings}
use relay_webhooks.World.{World, with_uow, rollback, catch, pure, ◌>>◌}
use relay_webhooks.World.Atomic.{queues}
use relay_webhooks.Workers.Dispatcher.{
  retry_time, schedule_at, schedule_if_retrying, process_delivery_message, lookup_endpoint_id,
  handle_and_ack,
}
use relay_webhooks.Repositories.Deliveries

abbrev pub or_before : Option ℕ → Option ℕ → Option ℕ
or_before (some t) before = some t
or_before none before = before

module _ ⦃σ : Storage⦄ ⦃ρ : Redis⦄ where
  -- the retry set with the retry that is asked for
  abbrev pub scheduled : Option ℕ → ℕ → Option String → ρ.Retries → ρ.Retries
  scheduled none i c z = z
  scheduled (some t) i c z = ρ.zadd z (envelope i c) t

  pub zscore-scheduled :
      (t : Option ℕ) (i : ℕ) (c : Option String) (z : ρ.Retries)
      → ρ.zscore (scheduled t i c z) (envelope i c) ≡ or_before t (ρ.zscore z (envelope i c))
  zscore-scheduled none i c z = refl
  zscore-scheduled (some t) i c z = zscore-zadd_same z (envelope i c) t

module _ ⦃σ : Storage⦄ ⦃ρ : Redis⦄ (s : Settings) (o : Outside) where
  schedule_lem :
      (t : Option ℕ) (i : ℕ) (c : Option String) (w : World)
      → schedule_at s o t i c w ≡ (ok tt, record w { retries = scheduled t i c w.retries })
  unfolding schedule_at schedule_retry
  schedule_lem none i c w = refl
  schedule_lem (some t) i c w = refl

  pub process_settles :
      (i : ℕ) (c : Option String) (w : World) (d : Delivery) (w' : World)
      → attempt s o i w ≡ (ok d, w')
      → process_delivery_message s o i c w
        ≡ (ok tt, record w' { retries = scheduled (retry_time d) d.id c w'.retries })
  unfolding process_delivery_message schedule_if_retrying
  process_settles i c w d w' e = rw e (schedule_lem (retry_time d) d.id c w')

  pub process_raises :
      (i : ℕ) (c : Option String) (w : World) (x : Error) (w' : World)
      → attempt s o i w ≡ (err x, w')
      → process_delivery_message s o i c w ≡ (err x, w')
  unfolding process_delivery_message
  process_raises i c w x w' e = rw e refl

  -- the lookup's session is closed before the attempt opens its own
  pub handle_lem :
      (m : DeliveryMessage) (w : World)
      → handle_and_ack s o m w
        ≡ catch
            (process_delivery_message s o m.delivery_id m.correlation_id
              >> ack_delivery m.message_id)
            (λ e. pure tt)
            w
  unfolding handle_and_ack lookup_endpoint_id with_uow rollback Deliveries.get attempt
      process_delivery_message
  handle_lem m w = refl

  -- after an attempt that returns
  pub settle_queues :
      (i k : ℕ) (c : Option String) (w : World) (d : Delivery) (w' : World)
      → attempt s o i w ≡ (ok d, w')
      → (ρ.zscore (scheduled (retry_time d) d.id c w'.retries) (envelope d.id c)
          ≡ or_before (retry_time d) (ρ.zscore w.retries (envelope d.id c)))
        × (ρ.message (ρ.xack w'.stream k) k ≡ after_ack (ρ.message w.stream k))
  settle_queues i k c w d w' e =
      let kept : queues w' ≡ queues w =
        ap (λ (r : Result Delivery × World). queues r.1) (sym e)
        ∙ (attempt-IsOffline s o i).holds w in
      (
        zscore-scheduled (retry_time d) d.id c w'.retries
            ∙ ap
                (λ (q : ρ.Stream × ρ.Retries).
                  or_before (retry_time d) (ρ.zscore q.1 (envelope d.id c)))
                kept,
        message-xack_same w'.stream k
            ∙ ap (λ (q : ρ.Stream × ρ.Retries). after_ack (ρ.message q.0 k)) kept,
      )

  -- after an attempt that raises
  pub raise_keeps :
      (i : ℕ) (w : World) (x : Error) (w' : World)
      → attempt s o i w ≡ (err x, w')
      → (w'.committed ≡ w.committed) × (w'.retries ≡ w.retries) × (w'.stream ≡ w.stream)
  raise_keeps i w x w' e =
      let kept : queues w' ≡ queues w =
        ap (λ (r : Result Delivery × World). queues r.1) (sym e)
        ∙ (attempt-IsOffline s o i).holds w in
      (
        ap (λ (r : Result Delivery × World). r.1.committed) (sym e)
            ∙ attempt_undone s o i w x (ap (λ (r : Result Delivery × World). r.0) e),
        ap (λ (q : ρ.Stream × ρ.Retries). q.1) kept,
        ap (λ (q : ρ.Stream × ρ.Retries). q.0) kept,
      )

  module _ (m : DeliveryMessage) (w : World) where
    -- An attempt that returns: its outcome is committed, the retry that it asks for stands in the
    -- retry set at its time, and the message is acknowledged.
    pub handle_settles :
        (d : Delivery) (w' : World)
        → attempt s o m.delivery_id w ≡ (ok d, w')
        → let r = handle_and_ack s o m w in
          (r.0 ≡ ok tt)
          × (r.1.committed ≡ w'.committed)
          × (ρ.zscore r.1.retries (envelope d.id m.correlation_id)
              ≡ or_before (retry_time d) (ρ.zscore w.retries (envelope d.id m.correlation_id)))
          × (ρ.message r.1.stream m.message_id ≡ after_ack (ρ.message w.stream m.message_id))
    unfolding ack_delivery
    handle_settles d w' e =
        let (retry, acked) = settle_queues m.delivery_id m.message_id m.correlation_id w d w' e in
        rw (handle_lem, process_settles m.delivery_id m.correlation_id w d w' e)
          (refl, refl, retry, acked)

    -- An attempt that raises, not-found included, leaves the message to the reaper: nothing is
    -- acknowledged, scheduled or committed, and the dispatcher goes on.
    pub handle_leaves :
        (x : Error) (w' : World)
        → attempt s o m.delivery_id w ≡ (err x, w')
        → let r = handle_and_ack s o m w in
          (r.0 ≡ ok tt)
          × (r.1.committed ≡ w.committed)
          × (r.1.retries ≡ w.retries)
          × (r.1.stream ≡ w.stream)
    handle_leaves x w' e =
        let (undone, retries, stream) = raise_keeps m.delivery_id w x w' e in
        rw (handle_lem, process_raises m.delivery_id m.correlation_id w x w' e)
          (refl, undone, retries, stream)
