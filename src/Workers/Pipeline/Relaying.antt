-- ===== src/Workers/Pipeline/Relaying.antt =====
-- A batch of the outbox relay loses no delivery, whether it commits or not.
use relay_webhooks.Prelude.{
  ℕ, refl, Bool, inl, inr, Option-cases, some, List, [], ◌∷◌, All, All-filter_by, ◌≡◌, ◌∙◌, ap, map,
}
use relay_webhooks.Platform.Storage.{Storage}
use relay_webhooks.Platform.Redis.{Redis, StreamFields}
use relay_webhooks.Domain.Endpoints.{Endpoint}
use relay_webhooks.Domain.Records.{Event, OutboxEntry}
use relay_webhooks.Infra.Streams.{enqueue_delivery}
use relay_webhooks.Repositories.Deliveries
use relay_webhooks.Repositories.Endpoints
use relay_webhooks.Repositories.Events
use relay_webhooks.Repositories.Outbox
use relay_webhooks.Workers.Pipeline.Restarting.{NoneLost-enqueued}
use relay_webhooks.Workers.Pipeline.Sending.{NoneLost-moved}
use relay_webhooks.Workers.Pipeline.Steps.{NoneLost, LosesNone}
use relay_webhooks.Workers.Pipeline.Tracked.{tracked-Holds, xadd-Holds}
use relay_webhooks.Workers.Relay.{fan_out, process_found, process_entry, process_all, run_once}
use relay_webhooks.Workers.Relay.Claims.{claim_all_lem}
use relay_webhooks.Domain.Deliveries.{Delivery}
use relay_webhooks.Workers.Relay.Keeps.{listeners}
use relay_webhooks.Workers.Pipeline.Safe.{
  Both, IsSafe, NoneLost-outbox, resume-Both, IsSafe-bind, IsSafe-pure, IsSafe-commit,
  LosesNone-with_uow,
}
use relay_webhooks.Workers.Relay.FanOut.{new_delivery, fields_of}
use relay_webhooks.World.{World, Db}

module _ ⦃σ : Storage⦄ ⦃ρ : Redis⦄ where
  pub mark_processed-IsSafe : (i : ℕ) → IsSafe (Outbox.mark_processed i)
  unfolding Outbox.mark_processed Outbox.find Outbox.write
  mark_processed-IsSafe i = record {
    keeps = λ w b. elim (Option-cases (σ.get OutboxEntry w.session.outbox i)) [
      | inl gone ↦ rw gone b
      | inr (e, found) ↦ rw found (b.0, NoneLost-outbox w.session w.stream w.retries _ b.1)
    ];
  }

  claim_due-IsSafe : (locked : ℕ → Bool) (limit : ℕ) → IsSafe (Outbox.claim_due locked limit)
  unfolding Outbox.claim_due
  claim_due-IsSafe locked limit = record {
    keeps = λ w b.
        let rows = Outbox.due locked limit w in
        rw (claim_all_lem w.clock rows w) (b.0, NoneLost-outbox w.session w.stream w.retries _ b.1);
  }

  -- the rows that a query of endpoints gives
  AreStored : Db → List Endpoint → Type 0
  AreStored db = All (λ (p : Endpoint). σ.get Endpoint db.endpoints p.id ≡ some p)

  values-AreStored :
      (db : Db) (s : ρ.Stream) (z : ρ.Retries) (rows : List (ℕ × Endpoint))
      → NoneLost db s z
      → All (λ (q : ℕ × Endpoint). σ.get Endpoint db.endpoints q.0 ≡ some q.1) rows
      → AreStored db (map (λ (q : ℕ × Endpoint). q.1) rows)
  unfolding AreStored
  values-AreStored db s z [] n h = tt
  values-AreStored db s z (q ∷ rows) n h = (
    ap (σ.get Endpoint db.endpoints) (n.endpoint_ids q.0 q.1 h.0) ∙ h.0,
    values-AreStored db s z rows n h.1,
  )

  -- A row and the message for it come together.
  fan_out-Both :
      (event : Event) (ps : List Endpoint) (w : World)
      → σ.get Event w.session.events event.id ≡ some event
      → AreStored w.session ps
      → Both w
      → Both (fan_out event ps w).1
  unfolding fan_out Deliveries.create enqueue_delivery AreStored
  fan_out-Both event [] w has_event stored b = b
  fan_out-Both event (p ∷ rest) w has_event stored b =
      let i = σ.fresh Delivery w.session.deliveries in
      let f : StreamFields = fields_of event i in
      fan_out-Both event rest _ has_event stored.1 (
        NoneLost-moved w.committed w.stream (ρ.xadd w.stream f).1 w.retries w.retries
            (λ j. tracked-Holds w.stream (ρ.xadd w.stream f).1 w.retries j (xadd-Holds w.stream f))
            b.0,
        NoneLost-enqueued w.session w.stream w.retries b.1 (new_delivery event w.clock i p) f refl
            ((event, has_event), (p, stored.0)),
      )

  listeners-AreStored :
      (w : World) (event : Event) → Both w → AreStored w.session (listeners w event)
  unfolding AreStored
  listeners-AreStored w event b = All-filter_by _ _ _ (
      values-AreStored w.session w.stream w.retries (σ.rows Endpoint w.session.endpoints) b.1
        (σ.rows_get Endpoint w.session.endpoints))

  process_entry-IsSafe : (entry : OutboxEntry) → IsSafe (process_entry entry)
  unfolding process_entry process_found Endpoints.list_active_subscribed Events.get
  process_entry-IsSafe entry = record {
    keeps = λ w b. elim (Option-cases (σ.get Event w.session.events entry.event_id)) [
      | inl gone ↦ rw gone ((mark_processed-IsSafe entry.id).keeps w b)
      | inr (event, found) ↦
          let same = b.1.event_ids entry.event_id event found in
          let ps = listeners w event in
          rw found (
            resume-Both (fan_out event ps w).0 _ (fan_out event ps w).1
              (λ done. mark_processed-IsSafe entry.id)
              (fan_out-Both event ps w (ap (σ.get Event w.session.events) same ∙ found)
                (listeners-AreStored w event b) b))
    ];
  }

  process_all-IsSafe : (entries : List OutboxEntry) → IsSafe (process_all entries)
  unfolding process_all
  process_all-IsSafe [] = IsSafe-pure tt
  process_all-IsSafe (entry ∷ rest) =
      IsSafe-bind _ _ (process_entry-IsSafe entry) λ done. process_all-IsSafe rest

  pub relay-LosesNone :
      (w : World) (locked : ℕ → Bool) (limit : ℕ)
      → LosesNone w
      → LosesNone (run_once locked limit w).1
  unfolding run_once
  relay-LosesNone w locked limit n =
      LosesNone-with_uow _ w
        (IsSafe-bind _ _ (claim_due-IsSafe locked limit) λ entries.
          IsSafe-bind _ _ (process_all-IsSafe entries)
            λ done. IsSafe-bind _ _ IsSafe-commit λ done. IsSafe-pure _)
        n
