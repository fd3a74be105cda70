-- ===== src/Services/Attempt/Sends.antt =====
-- An attempt on an endpoint whose breaker lets it through: the whole effect.
use relay_webhooks.Prelude.{
  ℕ, String, Bytes, List, ◌+◌, ◌/◌, ◌∷◌, ◌≡◌, ◌∙◌, ◌==◌, if◌then◌else◌, false, some, arith, refl,
  ap, inl, inr, Bool-cases,
}
use relay_webhooks.Prelude.Result.{ok}
use relay_webhooks.Platform.Storage.{Storage}
use relay_webhooks.Platform.Storage.Laws.{get-put_eq}
use relay_webhooks.Platform.Redis.{Redis}
use relay_webhooks.Domain.Endpoints.{Endpoint, is_open, should_skip_for_open_breaker}
use relay_webhooks.Domain.Deliveries.{Delivery, DeliveryAttempt}
use relay_webhooks.Domain.Deliveries.Backoff.{second}
use relay_webhooks.Domain.Records.{Event}
use relay_webhooks.Infra.HttpSender.{OutboundHttpResult, succeeded}
use relay_webhooks.Infra.Metrics.{attempt_outcome_label}
use relay_webhooks.Settings.{Settings}
use relay_webhooks.World.{World, Db, SenderCall, with_uow}
use relay_webhooks.Repositories.Attempts
use relay_webhooks.Services.Attempt.{
  Outside, attempt, attempt_block, request_headers, after_block, record_outcome, SentOutcome, sent,
  transition_of, is_exhausted,
}
use relay_webhooks.Services.Attempt.Outcome.{
  settled, probed, tripped, probed_world, recorded, attempt_row, record_outcome_lem, probed_id,
  settled_id,
}
use relay_webhooks.Services.Attempt.Sending.{
  begun, sent_world, sent_world-endpoint, sent_world_frame, block_sends, send_attempt_lem,
  after_block_frame,
}

-- The hypotheses of an attempt that sends and gets `result`, `elapsed` microseconds later.
pub record Sends ⦃σ : Storage⦄ ⦃ρ : Redis⦄ (s : Settings) (o : Outside) (w : World) (d : Delivery)
    (e : Event) (p : Endpoint) (result : OutboundHttpResult) (elapsed : ℕ) : Type 0 where
  pub has_delivery : σ.get Delivery w.committed.deliveries d.id ≡ some d
  pub has_event : σ.get Event w.committed.events d.event_id ≡ some e
  pub has_endpoint : σ.get Endpoint w.committed.endpoints d.endpoint_id ≡ some p
  pub keyed : d.endpoint_id ≡ p.id
  pub goes :
      should_skip_for_open_breaker p.breaker_state p.opened_at w.clock s.breaker_cooldown ≡ false
  pub responds :
      o.send p.url
        (o.dumps e.payload)
        (request_headers o d p (w.clock / second) (o.dumps e.payload))
      ≡ (ok result, elapsed)

module _ ⦃σ : Storage⦄ ⦃ρ : Redis⦄ (s : Settings) (o : Outside) (w : World) (d : Delivery)
    (e : Event) (p : Endpoint) (result : OutboundHttpResult) (elapsed : ℕ)
    (h : Sends s o w d e p result elapsed) where
  abbrev pub headers_sent : List (String × Bytes)
  headers_sent = request_headers o d p (w.clock / second) (o.dumps e.payload)

  abbrev pub request_sent : SenderCall
  request_sent = record { url = p.url; payload = o.dumps e.payload; headers = headers_sent }

  db_after : Db
  db_after =
      recorded s o d e (probed p) w.clock headers_sent result
        (sent_world p request_sent elapsed (begun w))

  block_lem :
      attempt_block s o d.id (begun w)
      ≡ record_outcome s o d e
          (probed p)
          w.clock
          headers_sent
          result
          (sent_world p request_sent elapsed (begun w))
  block_lem =
      block_sends s o w d e p h.has_delivery h.has_event h.has_endpoint h.goes
      ∙ send_attempt_lem s o (begun w) d e p result elapsed (simp (← h.keyed) h.has_endpoint)
          h.responds

  endpoint_found : σ.get Endpoint w.committed.endpoints p.id ≡ some p
  endpoint_found = simp (← h.keyed) h.has_endpoint

  delivery_kept :
      σ.get Delivery (sent_world p request_sent elapsed (begun w)).session.deliveries d.id ≡ some d
  delivery_kept = rw ((sent_world_frame p request_sent elapsed (begun w)).0) h.has_delivery

  outcome : SentOutcome
  outcome = record {
    tenant_id = e.tenant_id;
    delivery = settled s o d result w.clock;
    breaker_state = (transition_of s (probed p) w.clock result).state;
    attempt_no = d.attempt_count + 1;
    result = result;
    headers = headers_sent;
  }

  -- the world when the unit of work is left
  finished : World
  unfolding db_after
  finished =
      let w' = sent_world p request_sent elapsed (begun w) in
      record w' {
        session = db_after;
        committed = db_after;
        breaker_gauge =
            ((probed p).id, (transition_of s (probed p) w.clock result).state) ∷ w'.breaker_gauge;
        outcomes =
            attempt_outcome_label (succeeded result) (is_exhausted s d) result.error_class
            ∷ w'.outcomes;
      }

  attempt_eq : attempt s o d.id w ≡ after_block s o (sent outcome) finished
  unfolding attempt with_uow outcome finished
  attempt_eq = rw (
    block_lem,
    record_outcome_lem,
    delivery_kept,
    sent_world-endpoint p request_sent elapsed (begun w) endpoint_found,
  )

  delivery_after : σ.get Delivery db_after.deliveries d.id ≡ some (settled s o d result w.clock)
  unfolding db_after recorded
  delivery_after = get-put_eq _ _ _ _ (settled_id s o d result w.clock)

  endpoint_after :
      σ.get Endpoint db_after.endpoints p.id ≡ some (tripped s (probed p) result w.clock)
  unfolding db_after recorded
  endpoint_after = get-put_eq _ _ _ _ (probed_id p)

  log_after :
      let log = w.committed.delivery_attempts in
      db_after.delivery_attempts
      ≡ σ.put DeliveryAttempt log
          (σ.fresh DeliveryAttempt log)
          (attempt_row o d e result headers_sent (record (begun w) { clock = w.clock + elapsed }))
  unfolding db_after recorded attempt_row Attempts.new_row
  log_after = ground (arith, sent_world_frame p request_sent elapsed (begun w))

  endpoints_after :
      (j : ℕ)
      → σ.get Endpoint db_after.endpoints j ≡ (
          if p.id == j
          then some (tripped s (probed p) result w.clock)
          else σ.get Endpoint w.committed.endpoints j)
  unfolding db_after recorded sent_world probed_world tripped
  endpoints_after j = elim (Bool-cases (is_open p.breaker_state)) [
    | inl opened ↦ rw opened (
        σ.get_put Endpoint _ (probed p).id j _
        ∙ rw probed_id (elim (Bool-cases (p.id == j)) [
          | inl same ↦ rw same refl
          | inr other ↦ rw other (σ.get_put Endpoint _ p.id j _ ∙ rw other refl)
        ]))
    | inr closed ↦ rw closed (σ.get_put Endpoint _ (probed p).id j _ ∙ rw probed_id refl)
  ]

  tables_after :
      (db_after.deliveries
        ≡ σ.put Delivery w.committed.deliveries d.id (settled s o d result w.clock))
      × (db_after.events ≡ w.committed.events)
  unfolding db_after recorded
  tables_after =
      let frame = sent_world_frame p request_sent elapsed (begun w) in
      rw (frame.0, frame.2, settled_id) (refl, refl)

  -- what an attempt that sends commits to the tables of deliveries, endpoints and events
  pub attempt_tables :
      let db = (attempt s o d.id w).1.committed in
      (db.deliveries ≡ σ.put Delivery w.committed.deliveries d.id (settled s o d result w.clock))
      × (db.events ≡ w.committed.events)
      × ((j : ℕ)
          → σ.get Endpoint db.endpoints j ≡ (
              if p.id == j
              then some (tripped s (probed p) result w.clock)
              else σ.get Endpoint w.committed.endpoints j))
  unfolding outcome finished
  attempt_tables =
      rw (attempt_eq, (after_block_frame s o finished outcome).1)
        (tables_after.0, tables_after.1, endpoints_after)

  pub attempt_sends :
      let r = attempt s o d.id w in
      let out = settled s o d result w.clock in
      let log = w.committed.delivery_attempts in
      (r.0 ≡ ok out)
      × (σ.get Delivery r.1.committed.deliveries d.id ≡ some out)
      × (σ.get Endpoint r.1.committed.endpoints p.id ≡ some (tripped s (probed p) result w.clock))
      × (r.1.committed.delivery_attempts
          ≡ σ.put DeliveryAttempt log (σ.fresh DeliveryAttempt log) (
              attempt_row o d e result headers_sent
                (record (begun w) { clock = w.clock + elapsed })))
      × (r.1.sender_calls ≡ request_sent ∷ w.sender_calls)
      × (r.1.stream ≡ w.stream)
      × (r.1.retries ≡ w.retries)
  unfolding outcome finished
  attempt_sends =
      let after = after_block_frame s o finished outcome in
      let frame = sent_world_frame p request_sent elapsed (begun w) in
      rw attempt_eq (
        after.0,
        ap (λ (db : Db). σ.get Delivery db.deliveries d.id) after.1 ∙ delivery_after,
        ap (λ (db : Db). σ.get Endpoint db.endpoints p.id) after.1 ∙ endpoint_after,
        ap (λ (db : Db). db.delivery_attempts) after.1 ∙ log_after,
        after.2 ∙ frame.3,
        after.3 ∙ frame.5,
        after.4 ∙ frame.6,
      )
