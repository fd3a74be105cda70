-- ===== src/Services/Attempt/Outcome.antt =====
-- An attempt that sends: what is recorded of the response.
use relay_webhooks.Prelude.{
  ℕ, String, Bytes, List, ◌+◌, ◌∷◌, ◌≡◌, none, some, arith, take, if◌then◌else◌,
}
use relay_webhooks.Prelude.Result.{ok}
use relay_webhooks.Platform.Storage.{Storage}
use relay_webhooks.Platform.Redis.{Redis}
use relay_webhooks.Domain.Endpoints.{Endpoint, half_open, is_open}
use relay_webhooks.Domain.Deliveries.{Delivery, DeliveryAttempt, delivered, dead, retrying}
use relay_webhooks.Domain.Deliveries.Backoff.{
  compute_backoff_seconds, backoff_bound, default_base_seconds, default_cap_seconds,
}
use relay_webhooks.Domain.Records.{Event}
use relay_webhooks.Infra.HttpSender.{OutboundHttpResult, succeeded}
use relay_webhooks.Infra.Metrics.{attempt_outcome_label}
use relay_webhooks.Settings.{Settings}
use relay_webhooks.World.{World, Db, commit}
use relay_webhooks.Repositories.Deliveries
use relay_webhooks.Repositories.Endpoints
use relay_webhooks.Repositories.Attempts
use relay_webhooks.Services.Attempt.{
  Outside, sent, record_outcome, settle, is_exhausted, transition_of, probe, count_outcome,
  request_headers, request_snippet_max_len,
}

module _ (s : Settings) (o : Outside) where
  -- the delivery after an attempt at `now` with that result
  unfoldable pub settled : Delivery → OutboundHttpResult → ℕ → Delivery
  settled d result now =
      if succeeded result
      then record d { state = delivered; attempt_count = d.attempt_count + 1; next_retry_at = none }
      else if is_exhausted s d
      then record d { state = dead; attempt_count = d.attempt_count + 1; next_retry_at = none }
      else record d {
        state = retrying;
        attempt_count = d.attempt_count + 1;
        next_retry_at = some (
            now
            + o.uniform 0 (backoff_bound d.attempt_count default_base_seconds default_cap_seconds));
      }

  pub settled_id :
      (d : Delivery) (result : OutboundHttpResult) (now : ℕ) → (settled d result now).id ≡ d.id
  unfolding settled
  settled_id d result now = ground arith

-- the endpoint whose outcome is recorded: half-open if the breaker was open
unfoldable pub probed : Endpoint → Endpoint
probed p = if is_open p.breaker_state then record p { breaker_state = half_open } else p

-- the endpoint once the outcome of an attempt at `now` is recorded
unfoldable pub tripped : Settings → Endpoint → OutboundHttpResult → ℕ → Endpoint
tripped s p result now =
    let t = transition_of s p now result in
    record p {
      breaker_state = t.state;
      consecutive_failures = t.consecutive_failures;
      opened_at = t.opened_at;
    }

pub probed_url : (p : Endpoint) → (probed p).url ≡ p.url
unfolding probed
probed_url p = ground arith

pub probed_id : (p : Endpoint) → (probed p).id ≡ p.id
unfolding probed
probed_id p = ground arith

pub request_headers-probed :
    (o : Outside) (d : Delivery) (p : Endpoint) (timestamp : ℕ) (payload : Bytes)
    → request_headers o d (probed p) timestamp payload ≡ request_headers o d p timestamp payload
unfolding probed request_headers
request_headers-probed o d p timestamp payload = ground arith

module _ ⦃σ : Storage⦄ ⦃ρ : Redis⦄ where
  unfoldable pub probed_world : Endpoint → World → World
  probed_world p w =
      if is_open p.breaker_state
      then record w {
        session = record w.session {
          endpoints = σ.put Endpoint w.session.endpoints p.id (probed p);
        };
        breaker_gauge = (p.id, half_open) ∷ w.breaker_gauge;
      }
      else w

  pub probe_lem :
      (s : Settings) (o : Outside) (p : Endpoint) (w : World)
      → σ.get Endpoint w.session.endpoints p.id ≡ some p
      → probe s o p w ≡ (ok (probed p), probed_world p w)
  unfolding probe probed probed_world Endpoints.set_breaker_state
  probe_lem s o p w h = ground arith

  pub probed_world-endpoint :
      (p : Endpoint) (w : World)
      → σ.get Endpoint w.session.endpoints p.id ≡ some p
      → σ.get Endpoint (probed_world p w).session.endpoints p.id ≡ some (probed p)
  unfolding probed probed_world
  probed_world-endpoint p w h = ground (
    arith,
    σ.get_put Endpoint w.session.endpoints p.id p.id (record p { breaker_state = half_open }),
  )

  pub settle_lem :
      (s : Settings) (o : Outside) (d : Delivery) (result : OutboundHttpResult) (now : ℕ)
      (w : World)
      → σ.get Delivery w.session.deliveries d.id ≡ some d
      → settle s o d result now w
        ≡ (ok (settled s o d result now), Deliveries.write (settled s o d result now) w)
  unfolding settle settled compute_backoff_seconds Deliveries.mark_delivered Deliveries.mark_dead
      Deliveries.mark_retrying Deliveries.write
  settle_lem s o d result now w h = ground arith

  unfoldable pub attempt_row :
      Outside
      → Delivery
      → Event
      → OutboundHttpResult
      → List (String × Bytes)
      → World
      → DeliveryAttempt
  attempt_row o d e result headers w =
      Attempts.new_row w d.id (d.attempt_count + 1) result.latency_ms result.status_code
        result.error_class
        (some (o.decode_replace (take request_snippet_max_len (o.dumps e.payload))))
        result.response_snippet (some headers)

  -- the tables once the outcome is recorded
  unfoldable pub recorded :
      Settings
      → Outside
      → Delivery
      → Event
      → Endpoint
      → ℕ
      → List (String × Bytes)
      → OutboundHttpResult
      → World
      → Db
  unfolding attempt_row
  recorded s o d e p now headers result w = record w.session {
    endpoints = σ.put Endpoint w.session.endpoints p.id (tripped s p result now);
    delivery_attempts =
        σ.put DeliveryAttempt w.session.delivery_attempts
          (σ.fresh DeliveryAttempt w.session.delivery_attempts)
          (attempt_row o d e result headers w);
    deliveries =
        σ.put Delivery w.session.deliveries (settled s o d result now).id
          (settled s o d result now);
  }

  record_delivery_outcome_lem :
      (s : Settings) (p : Endpoint) (now : ℕ) (result : OutboundHttpResult) (w : World)
      → σ.get Endpoint w.session.endpoints p.id ≡ some p
      → let t = transition_of s p now result in
        Endpoints.record_delivery_outcome p.id t.state t.consecutive_failures t.opened_at w ≡ (
          ok (tripped s p result now),
          Endpoints.gauge_set p.id t.state (Endpoints.write (tripped s p result now) w),
        )
  unfolding tripped Endpoints.record_delivery_outcome Endpoints.write
  record_delivery_outcome_lem s p now result w h = ground arith

  pub record_outcome_lem :
      (s : Settings) (o : Outside) (d : Delivery) (e : Event) (p : Endpoint) (now : ℕ)
      (headers : List (String × Bytes)) (result : OutboundHttpResult) (w : World)
      → σ.get Delivery w.session.deliveries d.id ≡ some d
      → σ.get Endpoint w.session.endpoints p.id ≡ some p
      → record_outcome s o d e p now headers result w ≡ (
        ok (
            sent (record {
              tenant_id = e.tenant_id;
              delivery = settled s o d result now;
              breaker_state = (transition_of s p now result).state;
              attempt_no = d.attempt_count + 1;
              result = result;
              headers = headers;
            })),
        record w {
          session = recorded s o d e p now headers result w;
          committed = recorded s o d e p now headers result w;
          breaker_gauge = (p.id, (transition_of s p now result).state) ∷ w.breaker_gauge;
          outcomes =
              attempt_outcome_label (succeeded result) (is_exhausted s d) result.error_class
              ∷ w.outcomes;
        },
      )
  unfolding record_outcome recorded tripped Attempts.create commit Endpoints.write Deliveries.write
      count_outcome
  record_outcome_lem s o d e p now headers result w hd hp =
      rw (record_delivery_outcome_lem s p now result w hp, settle_lem, hd)
