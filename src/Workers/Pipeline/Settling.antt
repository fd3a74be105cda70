-- ===== src/Workers/Pipeline/Settling.antt =====
-- The handling of a message, by the dispatcher or the reaper, loses no delivery.
use relay_webhooks.Prelude.{ℕ, ◌≡◌, ◌≢◌, ◌⊎◌, ◌∙◌, refl, ap, sym, subst, inl, inr, Option, String}
use relay_webhooks.Prelude.Result.{Error, Result-cases, ok, err, not_found}
use relay_webhooks.Platform.Storage.{Storage}
use relay_webhooks.Platform.Redis.{Redis, StreamFields, envelope}
use relay_webhooks.Domain.Deliveries.{Delivery}
use relay_webhooks.Infra.RetrySchedule.{parse_member}
use relay_webhooks.Infra.Streams.{DeliveryMessage, ack_delivery}
use relay_webhooks.Services.Attempt.{Outside, attempt}
use relay_webhooks.Settings.{Settings}
use relay_webhooks.Workers.Dispatcher.{retry_time, process_delivery_message, handle_and_ack}
use relay_webhooks.Workers.Dispatcher.Acks.{
  scheduled, zscore-scheduled, process_settles, process_raises, raise_keeps, handle_lem,
  handle_leaves,
}
use relay_webhooks.Workers.Reaper.{reprocess, drop_if_gone}
use relay_webhooks.Workers.Reaper.Sweep.{drop_other}
use relay_webhooks.Workers.Pipeline.Attempted.{RaisesItsOwn}
use relay_webhooks.Workers.Pipeline.Sending.{
  NoneLost-moved, NoneLost-Attempted, IsGone, attempt-Settles, attempt-IsGone, same_queues,
  attempt-LosesNone,
}
use relay_webhooks.Workers.Pipeline.Steps.{NoneLost, LosesNone}
use relay_webhooks.Workers.Pipeline.Tracked.{
  IsTracked, waiting, IsOpen, NamesOnly, tracked-xack, tracked-scheduled,
}
use relay_webhooks.World.{World}

not_found-cases : (x : Error) → (x ≡ not_found) ⊎ (x ≢ not_found)
not_found-cases not_found = inl refl
not_found-cases x = inr (λ e. cc e)

module _ ⦃σ : Storage⦄ ⦃ρ : Redis⦄ (s : Settings) (o : Outside) (own : RaisesItsOwn o) (w : World)
    (n : LosesNone w) (m : DeliveryMessage) where
  abbrev i : ℕ
  i = m.delivery_id

  abbrev c : Option String
  c = m.correlation_id

  abbrev ended : World
  ended = (attempt s o i w).1

  scheduled-LosesNone :
      (d' : Delivery)
      → (attempt s o i w).0 ≡ ok d'
      → NamesOnly w.stream m.message_id i
      → NoneLost ended.committed
          (ρ.xack ended.stream m.message_id)
          (scheduled (retry_time d') d'.id c ended.retries)
  unfolding parse_member
  scheduled-LosesNone d' returns names =
      let (d, (returned, id, stored, a)) = attempt-Settles s o own w n i d' returns in
      let same = same_queues s o own w n i in
      let z' = scheduled (retry_time d') d'.id c ended.retries in
      let names' : NamesOnly ended.stream m.message_id i =
        subst (λ (q : ρ.Stream × ρ.Retries). NamesOnly q.0 m.message_id i) (sym same) names in
      NoneLost-Attempted w.committed ended.committed d d' a w.stream
        (ρ.xack ended.stream m.message_id) w.retries z' stored n
        (λ live.
          let (t, due) = a.due live in
          waiting (envelope d'.id c) t
            (zscore-scheduled (retry_time d') d'.id c ended.retries ∙ rw due refl) a.same_id)
        (λ j other h.
          let h' : IsTracked ended.stream ended.retries j =
            subst (λ (q : ρ.Stream × ρ.Retries). IsTracked q.0 q.1 j) (sym same) h in
          tracked-xack ended.stream z' m.message_id i j names' (λ e. other (id ∙ e))
            (tracked-scheduled ended.stream ended.retries j d'.id c (retry_time d') h'))

  -- A worker that dies before it acknowledges leaves its message open.
  pub process-LosesNone :
      (f : StreamFields)
      → IsOpen (ρ.message w.stream m.message_id) f
      → f.delivery_id ≡ i
      → LosesNone (process_delivery_message s o i c w).1
  process-LosesNone f held names =
      let kept = attempt-LosesNone s o own w n i m.message_id f held names in
      elim (Result-cases (attempt s o i w).0) [
        | inl (d', returns) ↦
            rw (process_settles s o i c w d' ended (ap (λ r. (r, ended)) returns)) (
              NoneLost-moved ended.committed ended.stream ended.stream ended.retries
                (scheduled (retry_time d') d'.id c ended.retries)
                (λ j. tracked-scheduled ended.stream ended.retries j d'.id c (retry_time d')) kept)
        | inr (x, raises) ↦ rw (process_raises s o i c w x ended (ap (λ r. (r, ended)) raises)) kept
      ]

  module _ (names : NamesOnly w.stream m.message_id i) where
    pub handle-LosesNone : LosesNone (handle_and_ack s o m w).1
    unfolding ack_delivery
    handle-LosesNone = elim (Result-cases (attempt s o i w).0) [
      | inl (d', returns) ↦
          rw (handle_lem s o m w, process_settles s o i c w d' ended (ap (λ r. (r, ended)) returns))
            (scheduled-LosesNone d' returns names)
      | inr (x, raises) ↦
          let (done, undone, retries, stream) =
            handle_leaves s o m w x ended (ap (λ r. (r, ended)) raises) in
          rw (undone, retries, stream) n
    ]

    -- An acknowledgement of a message whose delivery is gone loses nothing.
    gone-LosesNone :
        IsGone s o own w n i → NoneLost w.committed (ρ.xack w.stream m.message_id) w.retries
    gone-LosesNone gone = record {
      delivery_ids = n.delivery_ids;
      endpoint_ids = n.endpoint_ids;
      event_ids = n.event_ids;
      parents = n.parents;
      tracked = λ j d at_j live.
          let ((e, at_e), (p, at_p)) = n.parents j d at_j in
          tracked-xack w.stream w.retries m.message_id i j names
            (λ same. gone d e p (ap (σ.get Delivery w.committed.deliveries) same ∙ at_j) at_e at_p)
            (n.tracked j d at_j live);
    }

    drop-LosesNone :
        (x : Error)
        → (attempt s o i w).0 ≡ err x
        → LosesNone (drop_if_gone s o m.message_id x ended).1
    unfolding drop_if_gone ack_delivery
    drop-LosesNone x raises =
        let (undone, retries, stream) = raise_keeps s o i w x ended (ap (λ r. (r, ended)) raises) in
        elim (not_found-cases x) [
          | inl gone ↦
              rw (gone, undone, retries, stream)
                (gone-LosesNone (attempt-IsGone s o own w n i (raises ∙ ap err gone)))
          | inr other ↦
              rw (drop_other s o m w m.message_id x ended other, undone, retries, stream) n
        ]

    pub reap-LosesNone : LosesNone (reprocess s o m w).1
    unfolding reprocess ack_delivery
    reap-LosesNone = elim (Result-cases (attempt s o i w).0) [
      | inl (d', returns) ↦
          rw (process_settles s o i c w d' ended (ap (λ r. (r, ended)) returns))
            (scheduled-LosesNone d' returns names)
      | inr (x, raises) ↦
          rw (process_raises s o i c w x ended (ap (λ r. (r, ended)) raises))
            (drop-LosesNone x raises)
    ]
