-- ===== src/Services/Attempt/Sending.antt =====
-- The parts of an attempt on an endpoint whose breaker lets it through.
use relay_webhooks.Prelude.{ℕ, ◌+◌, ◌/◌, ◌∷◌, ◌≡◌, false, some, arith, refl, inl, inr, Bool-cases}
use relay_webhooks.Prelude.Result.{ok}
use relay_webhooks.Platform.Storage.{Storage}
use relay_webhooks.Platform.Redis.{Redis}
use relay_webhooks.Domain.Endpoints.{Endpoint, should_skip_for_open_breaker}
use relay_webhooks.Domain.Deliveries.{Delivery}
use relay_webhooks.Domain.Deliveries.Backoff.{second}
use relay_webhooks.Domain.Records.{Event}
use relay_webhooks.Infra.HttpSender.{OutboundHttpResult}
use relay_webhooks.Settings.{Settings}
use relay_webhooks.World.{World, SenderCall}
use relay_webhooks.Repositories.Deliveries
use relay_webhooks.Repositories.Endpoints
use relay_webhooks.Repositories.Events
use relay_webhooks.Services.Attempt.{
  Outside, attempt_block, send_attempt, send_request, request_headers, after_block, record_outcome,
  SentOutcome, sent, event_of,
}
use relay_webhooks.Services.Attempt.Outcome.{
  probed, probed_world, probe_lem, probed_world-endpoint, probed_url, probed_id,
  request_headers-probed,
}

module _ ⦃σ : Storage⦄ ⦃ρ : Redis⦄ where
  -- the world as the unit of work finds it
  abbrev pub begun : World → World
  begun w = record w { session = w.committed }

  unfoldable pub sent_world : Endpoint → SenderCall → ℕ → World → World
  sent_world p request elapsed w =
      let w' = probed_world p w in
      record w' { sender_calls = request ∷ w'.sender_calls; clock = w'.clock + elapsed }

  pub sent_world-endpoint :
      (p : Endpoint) (request : SenderCall) (elapsed : ℕ) (w : World)
      → σ.get Endpoint w.session.endpoints p.id ≡ some p
      → σ.get Endpoint (sent_world p request elapsed w).session.endpoints (probed p).id
        ≡ some (probed p)
  unfolding sent_world
  sent_world-endpoint p request elapsed w h = simp probed_id (probed_world-endpoint p w h)

  -- The probe touches nothing but the endpoint and its gauge.
  pub sent_world_frame :
      (p : Endpoint) (request : SenderCall) (elapsed : ℕ) (w : World)
      → let w' = sent_world p request elapsed w in
        (w'.session.deliveries ≡ w.session.deliveries)
        × (w'.session.delivery_attempts ≡ w.session.delivery_attempts)
        × (w'.session.events ≡ w.session.events)
        × (w'.sender_calls ≡ request ∷ w.sender_calls)
        × (w'.clock ≡ w.clock + elapsed)
        × (w'.stream ≡ w.stream)
        × (w'.retries ≡ w.retries)
        × (w'.published ≡ w.published)
  unfolding sent_world probed_world
  sent_world_frame p request elapsed w = ground arith

module _ ⦃σ : Storage⦄ ⦃ρ : Redis⦄ (s : Settings) (o : Outside) (w : World) where
  pub block_sends :
      (d : Delivery) (e : Event) (p : Endpoint)
      → σ.get Delivery w.committed.deliveries d.id ≡ some d
      → σ.get Event w.committed.events d.event_id ≡ some e
      → σ.get Endpoint w.committed.endpoints d.endpoint_id ≡ some p
      → should_skip_for_open_breaker p.breaker_state p.opened_at w.clock s.breaker_cooldown ≡ false
      → attempt_block s o d.id (begun w) ≡ send_attempt s o d e p w.clock (begun w)
  unfolding attempt_block Deliveries.get Endpoints.get Events.get
  block_sends d e p has_delivery has_event has_endpoint goes =
      rw (has_delivery, has_event, has_endpoint, goes)

  pub send_attempt_lem :
      (d : Delivery) (e : Event) (p : Endpoint) (result : OutboundHttpResult) (elapsed : ℕ)
      → let payload = o.dumps e.payload in
        let headers = request_headers o d p (w.clock / second) payload in
        let request : SenderCall = record { url = p.url; payload = payload; headers = headers } in
        σ.get Endpoint w.session.endpoints p.id ≡ some p
        → o.send p.url payload headers ≡ (ok result, elapsed)
        → send_attempt s o d e p w.clock w
          ≡ record_outcome s o d e
              (probed p)
              w.clock
              headers
              result
              (sent_world p request elapsed w)
  unfolding send_attempt sent_world send_request
  send_attempt_lem d e p result elapsed hp responds =
      rw probe_lem (simp (request_headers-probed, probed_url, responds))

  -- The publication after the commit changes nothing but the feed.
  pub after_block_frame :
      (out : SentOutcome)
      → let r = after_block s o (sent out) w in
        (r.0 ≡ ok out.delivery)
        × (r.1.committed ≡ w.committed)
        × (r.1.sender_calls ≡ w.sender_calls)
        × (r.1.stream ≡ w.stream)
        × (r.1.retries ≡ w.retries)
        × (r.1.clock ≡ w.clock)
  unfolding after_block
  after_block_frame out =
      elim (Bool-cases (o.publish_raises out.tenant_id (event_of out w.clock))) [
        | inl raises ↦ rw raises (refl, refl, refl, refl, refl, refl)
        | inr goes ↦ rw goes (refl, refl, refl, refl, refl, refl)
      ]
