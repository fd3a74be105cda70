-- ===== src/Workers/Pipeline/Ended.antt =====
-- How an attempt on a stored delivery ends.
use relay_webhooks.Prelude.{
  ℕ, ◌==◌, ◌/◌, ◌≡◌, ◌≢◌, ◌⊎◌, ◌∙◌, refl, ap, sym, arith, true, false, Bool-cases, inl, inr,
  Option-cases, none, some, some-injective,
}
use relay_webhooks.Prelude.Result.{Error, Result, Result-cases, ok, err, not_found, assertion_error}
use relay_webhooks.Platform.Storage.{Storage}
use relay_webhooks.Platform.Redis.{Redis}
use relay_webhooks.Domain.Deliveries.{Delivery}
use relay_webhooks.Domain.Deliveries.Backoff.{second}
use relay_webhooks.Domain.Endpoints.{Endpoint, should_skip_for_open_breaker}
use relay_webhooks.Domain.Records.{Event}
use relay_webhooks.Infra.HttpSender.{OutboundHttpResult}
use relay_webhooks.Repositories.Deliveries
use relay_webhooks.Repositories.Endpoints
use relay_webhooks.Repositories.Events
use relay_webhooks.Services.Attempt.{
  Outside, attempt, attempt_block, defer, send_attempt, send_request, request_headers,
}
use relay_webhooks.Services.Attempt.Defer.{attempt_defers, attempt_defers_events, postponed}
use relay_webhooks.Services.Attempt.Outcome.{
  settled, settled_id, tripped, probed, probe_lem, probed_url, request_headers-probed,
}
use relay_webhooks.Services.Attempt.Sending.{begun, block_sends}
use relay_webhooks.Services.Attempt.Sends.{Sends, attempt_sends, attempt_tables}
use relay_webhooks.Settings.{Settings}
use relay_webhooks.World.{World, with_uow}
use relay_webhooks.Workers.Pipeline.Attempted.{
  RaisesItsOwn, Attempted, settled-IsDue, postponed-IsDue, postponed_id, postponed_parents,
  settled_parents, tripped_id,
}

module _ ⦃σ : Storage⦄ ⦃ρ : Redis⦄ (s : Settings) (o : Outside) (w : World) (d : Delivery)
    (e : Event) (p : Endpoint) (has_delivery : σ.get Delivery w.committed.deliveries d.id ≡ some d)
    (has_event : σ.get Event w.committed.events d.event_id ≡ some e)
    (has_endpoint : σ.get Endpoint w.committed.endpoints d.endpoint_id ≡ some p)
    (keyed : d.endpoint_id ≡ p.id) where
  unopened :
      should_skip_for_open_breaker p.breaker_state p.opened_at w.clock s.breaker_cooldown ≡ true
      → p.opened_at ≡ none
      → (attempt s o d.id w).0 ≡ err assertion_error
  unfolding attempt attempt_block defer with_uow Deliveries.get Endpoints.get Events.get
  unopened skip never = ground arith

  unsent :
      (x : Error) (elapsed : ℕ)
      → should_skip_for_open_breaker p.breaker_state p.opened_at w.clock s.breaker_cooldown ≡ false
      → o.send p.url
          (o.dumps e.payload)
          (request_headers o d p (w.clock / second) (o.dumps e.payload))
        ≡ (err x, elapsed)
      → (attempt s o d.id w).0 ≡ err x
  unfolding attempt with_uow send_attempt send_request
  unsent x elapsed goes raises =
      let stored : σ.get Endpoint w.committed.endpoints p.id ≡ some p =
        simp (← keyed) has_endpoint in
      rw
        (
          block_sends s o w d e p has_delivery has_event has_endpoint goes,
          probe_lem s o p (begun w) stored,
        )
        (simp (request_headers-probed, probed_url, raises))

  -- how an attempt ends
  abbrev pub Ends : Type 0
  Ends =
      ((d' : Delivery) × ((attempt s o d.id w).0 ≡ ok d')
        × Attempted w.committed (attempt s o d.id w).1.committed d d')
      ⊎ ((x : Error) × ((attempt s o d.id w).0 ≡ err x) × (x ≢ not_found))

  deferred-Ends :
      (opened : ℕ)
      → should_skip_for_open_breaker p.breaker_state p.opened_at w.clock s.breaker_cooldown ≡ true
      → p.opened_at ≡ some opened
      → Ends
  deferred-Ends opened skip was_opened =
      let (returns, quiet, row, log, endpoints) =
        attempt_defers s o w d e p opened has_delivery has_event has_endpoint was_opened skip in
      inl (
        postponed s d opened,
        returns,
        record {
          row = row;
          same_id = postponed_id s d opened;
          same_parents = postponed_parents s d opened;
          kept = λ j q h. (q, ap (λ (t : σ.Table Endpoint). σ.get Endpoint t j) endpoints ∙ h);
          same_events =
              attempt_defers_events s o w d e p opened has_delivery has_event has_endpoint
                was_opened skip;
          endpoints = λ j q h.
              (q, ap (λ (t : σ.Table Endpoint). σ.get Endpoint t j) (sym endpoints) ∙ h, refl);
          due = postponed-IsDue s d opened;
        },
      )

  sent-Ends : (result : OutboundHttpResult) (elapsed : ℕ) → Sends s o w d e p result elapsed → Ends
  sent-Ends result elapsed h =
      let tables = attempt_tables s o w d e p result elapsed h in
      inl (
        settled s o d result w.clock,
        (attempt_sends s o w d e p result elapsed h).0,
        record {
          row = tables.0;
          same_id = settled_id s o d result w.clock;
          same_parents = settled_parents s o d result w.clock;
          kept = λ j q h. elim (Bool-cases (p.id == j)) [
            | inl same ↦ (tripped s (probed p) result w.clock, tables.2 j ∙ rw same refl)
            | inr other ↦ (q, tables.2 j ∙ rw other h)
          ];
          same_events = tables.1;
          endpoints = λ j q h. elim (Bool-cases (p.id == j)) [
            | inl same ↦
                let here : some (tripped s (probed p) result w.clock) ≡ some q =
                  sym (tables.2 j ∙ rw same refl) ∙ h in
                let at_j : p.id ≡ j = ground arith in
                (
                  p,
                  ap (σ.get Endpoint w.committed.endpoints) (sym at_j ∙ sym keyed) ∙ has_endpoint,
                  ap (λ (r : Endpoint). r.id) (sym (some-injective here))
                      ∙ tripped_id s p result w.clock,
                )
            | inr other ↦ (q, sym (tables.2 j ∙ rw other refl) ∙ h, refl)
          ];
          due = settled-IsDue s o d result w.clock;
        },
      )

  pub attempt-Ends : RaisesItsOwn o → Ends
  attempt-Ends own =
      let headers = request_headers o d p (w.clock / second) (o.dumps e.payload) in
      let answer = o.send p.url (o.dumps e.payload) headers in
      elim (Bool-cases
        (should_skip_for_open_breaker p.breaker_state p.opened_at w.clock s.breaker_cooldown)) [
          | inl skip ↦ elim (Option-cases p.opened_at) [
            | inl never ↦ inr (assertion_error, unopened skip never, λ h. cc h)
            | inr (opened, was_opened) ↦ deferred-Ends opened skip was_opened
          ]
          | inr goes ↦ elim (Result-cases answer.0) [
            | inl (result, responds) ↦ sent-Ends result answer.1 (record {
              has_delivery = has_delivery;
              has_event = has_event;
              has_endpoint = has_endpoint;
              keyed = keyed;
              goes = goes;
              responds = ap (λ (r : Result OutboundHttpResult). (r, answer.1)) responds;
            })
            | inr (x, raises) ↦ inr (
              x,
              unsent x answer.1 goes (ap (λ (r : Result OutboundHttpResult). (r, answer.1)) raises),
              λ same. own p.url (o.dumps e.payload) headers (raises ∙ ap err same),
            )
          ]
        ]

-- An attempt that returns found its delivery, the event and the endpoint.
module _ ⦃σ : Storage⦄ ⦃ρ : Redis⦄ (s : Settings) (o : Outside) (w : World) (i : ℕ) where
  pub attempt-found :
      (d' : Delivery)
      → (attempt s o i w).0 ≡ ok d'
      → (d : Delivery) × (σ.get Delivery w.committed.deliveries i ≡ some d)
        × (e : Event) × (σ.get Event w.committed.events d.event_id ≡ some e)
        × (p : Endpoint) × (σ.get Endpoint w.committed.endpoints d.endpoint_id ≡ some p)
  unfolding attempt attempt_block with_uow Deliveries.get Endpoints.get Events.get
  attempt-found d' h = elim (Option-cases (σ.get Delivery w.committed.deliveries i)) [
    | inl gone ↦ cc (rw gone at h)
    | inr (d, found) ↦ elim (Option-cases (σ.get Event w.committed.events d.event_id)) [
      | inl gone ↦ cc (rw (found, gone) at h)
      | inr (e, event) ↦ elim (Option-cases (σ.get Endpoint w.committed.endpoints d.endpoint_id)) [
        | inl gone ↦ cc (rw (found, event, gone) at h)
        | inr (p, endpoint) ↦ (d, found, e, event, p, endpoint)
      ]
    ]
  ]
