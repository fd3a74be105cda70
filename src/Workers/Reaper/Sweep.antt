-- ===== src/Workers/Reaper/Sweep.antt =====
-- What is true of a message when the reaper has reprocessed it.
use relay_webhooks.Prelude.{◌≡◌, ◌≢◌, ◌∙◌, refl, ap, ℕ, arith, none, some, ◌⊎◌, inl, inr}
use relay_webhooks.Prelude.Result.{Error, Result, ok, err, not_found}
use relay_webhooks.Platform.Storage.{Storage}
use relay_webhooks.Platform.Redis.{Redis, envelope, after_ack}
use relay_webhooks.Platform.Redis.Laws.{message-xack_same}
use relay_webhooks.Domain.Deliveries.{Delivery}
use relay_webhooks.Domain.Endpoints.{Endpoint}
use relay_webhooks.Domain.Records.{Event}
use relay_webhooks.Repositories.Deliveries
use relay_webhooks.Repositories.Endpoints
use relay_webhooks.Repositories.Events
use relay_webhooks.Infra.Streams.{DeliveryMessage, ack_delivery}
use relay_webhooks.Services.Attempt.{Outside, attempt, attempt_block}
use relay_webhooks.Settings.{Settings}
use relay_webhooks.World.{World, with_uow}
use relay_webhooks.Workers.Dispatcher.{retry_time}
use relay_webhooks.Workers.Dispatcher.Acks.{
  or_before, process_settles, process_raises, settle_queues, raise_keeps,
}
use relay_webhooks.Workers.Reaper.{reprocess, drop_if_gone}

module _ ⦃σ : Storage⦄ ⦃ρ : Redis⦄ (s : Settings) (o : Outside) (m : DeliveryMessage)
    (w : World) where
  -- A claimed message whose attempt returns is settled as the dispatcher settles it: committed,
  -- its retry scheduled, and acknowledged.
  pub reprocess_settles :
      (d : Delivery) (w' : World)
      → attempt s o m.delivery_id w ≡ (ok d, w')
      → let r = reprocess s o m w in
        (r.0 ≡ ok tt)
        × (r.1.committed ≡ w'.committed)
        × (ρ.zscore r.1.retries (envelope d.id m.correlation_id)
            ≡ or_before (retry_time d) (ρ.zscore w.retries (envelope d.id m.correlation_id)))
        × (ρ.message r.1.stream m.message_id ≡ after_ack (ρ.message w.stream m.message_id))
  unfolding reprocess ack_delivery
  reprocess_settles d w' e =
      let (retry, acked) = settle_queues s o m.delivery_id m.message_id m.correlation_id w d w' e in
      rw (process_settles s o m.delivery_id m.correlation_id w d w' e) (refl, refl, retry, acked)

  -- the delivery of the message, its event or its endpoint is not stored
  abbrev pub IsMissing : Type 0
  IsMissing =
      let db = w.committed in
      (σ.get Delivery db.deliveries m.delivery_id ≡ none)
      ⊎ ((d : Delivery) × (σ.get Delivery db.deliveries m.delivery_id ≡ some d)
          × ((σ.get Event db.events d.event_id ≡ none)
              ⊎ ((e : Event) × (σ.get Event db.events d.event_id ≡ some e)
                  × (σ.get Endpoint db.endpoints d.endpoint_id ≡ none))))

  attempt-not_found : IsMissing → (attempt s o m.delivery_id w).0 ≡ err not_found
  unfolding attempt attempt_block with_uow Deliveries.get Events.get Endpoints.get
  attempt-not_found (inl h) = rw h
  attempt-not_found (inr (d, h, inl h')) = rw (h, h')
  attempt-not_found (inr (d, h, inr (e, h', h''))) = rw (h, h', h'')

  -- A claimed message whose delivery, event or endpoint is gone is acknowledged, and nothing is
  -- committed or scheduled.
  pub reprocess_drops :
      IsMissing
      → let r = reprocess s o m w in
        (r.0 ≡ ok tt)
        × (r.1.committed ≡ w.committed)
        × (r.1.retries ≡ w.retries)
        × (ρ.message r.1.stream m.message_id ≡ after_ack (ρ.message w.stream m.message_id))
  unfolding reprocess drop_if_gone ack_delivery
  reprocess_drops missing =
      let w' = (attempt s o m.delivery_id w).1 in
      let e : attempt s o m.delivery_id w ≡ (err not_found, w') =
        ap (λ (x : Result Delivery). (x, w')) (attempt-not_found missing) in
      let (undone, retries, stream) = raise_keeps s o m.delivery_id w not_found w' e in
      rw (process_raises s o m.delivery_id m.correlation_id w not_found w' e) (
        refl,
        undone,
        retries,
        message-xack_same w'.stream m.message_id
            ∙ ap (λ (q : ρ.Stream). after_ack (ρ.message q m.message_id)) stream,
      )

  pub drop_other :
      (i : ℕ) (x : Error) (w' : World) → x ≢ not_found → drop_if_gone s o i x w' ≡ (ok tt, w')
  unfolding drop_if_gone
  drop_other i x w' n = ground arith

  -- A claimed message whose attempt raises anything else is left as it was for the next sweep.
  pub reprocess_leaves :
      (x : Error) (w' : World)
      → x ≢ not_found
      → attempt s o m.delivery_id w ≡ (err x, w')
      → let r = reprocess s o m w in
        (r.0 ≡ ok tt)
        × (r.1.committed ≡ w.committed)
        × (r.1.retries ≡ w.retries)
        × (r.1.stream ≡ w.stream)
  unfolding reprocess
  reprocess_leaves x w' n e =
      let (undone, retries, stream) = raise_keeps s o m.delivery_id w x w' e in
      rw
        (process_raises s o m.delivery_id m.correlation_id w x w' e, drop_other m.message_id x w' n)
        (refl, undone, retries, stream)
