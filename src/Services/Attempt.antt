-- ===== src/Services/Attempt.antt =====
-- src/relay/services/deliveries/service.py: `DeliveryAttemptService`. The proofs are in the modules
-- below.
pub mod Defer
pub mod Outcome
pub mod Sending
pub mod Sends
pub mod Budget
use relay_webhooks.Prelude.{
  ℕ, ◌+◌, ◌/◌, String, Bool, Option, none, some, List, [], ◌∷◌, ◌++◌, Bytes, codes, decimal, take,
  leb, if◌then◌else◌,
}
use relay_webhooks.Prelude.Int.{pos}
use relay_webhooks.Prelude.Int.{pos}
use relay_webhooks.Prelude.Result.{Result, ok, err, not_found, assertion_error}
use relay_webhooks.Platform.Storage.{Storage}
use relay_webhooks.Platform.Redis.{Redis}
use relay_webhooks.Domain.Endpoints.{
  Endpoint, BreakerState, BreakerTransition, half_open, is_open, should_skip_for_open_breaker,
  next_breaker_state,
}
use relay_webhooks.Domain.Deliveries.{Delivery, AttemptErrorClass}
use relay_webhooks.Domain.Deliveries.Backoff.{
  compute_backoff_seconds, default_base_seconds, default_cap_seconds, second,
}
use relay_webhooks.Domain.Records.{Event}
use relay_webhooks.Infra.Signing.{sign}
use relay_webhooks.Infra.AttemptEvents.{AttemptEvent}
use relay_webhooks.Infra.Metrics.{attempt_outcome_label}
use relay_webhooks.Infra.HttpSender.{OutboundHttpResult, OutboundHttpSender, succeeded}
use relay_webhooks.Settings.{Settings}
use relay_webhooks.World.{
  World, Exec, ◌>>=◌, ◌>>◌, pure, lift, gets, modify, require, when, commit, with_uow,
}
use relay_webhooks.Repositories.Deliveries
use relay_webhooks.Repositories.Endpoints
use relay_webhooks.Repositories.Events
use relay_webhooks.Repositories.Attempts

abbrev pub request_snippet_max_len : ℕ
request_snippet_max_len = 2048

-- What the service calls and does not implement: `json.dumps(...).encode()`, `str.encode`, HMAC-SHA256, the text
-- of a UUID, `random.uniform`, the sender, and Redis Pub/Sub, of which only whether PUBLISH raises
-- is seen. `decode_replace` is `bytes.decode(errors="replace")`.
pub record Outside : Type 0 where
  pub dumps : String → Bytes
  pub encode : String → Bytes
  pub hmac : Bytes → Bytes → Bytes
  pub uuid_text : ℕ → Bytes
  pub uniform : ℕ → ℕ → ℕ
  pub send : OutboundHttpSender
  pub publish_raises : ℕ → AttemptEvent → Bool
  pub decode_replace : Bytes → Bytes

-- the values that the publication after the commit uses
pub record SentOutcome : Type 0 where
  pub tenant_id : ℕ
  pub delivery : Delivery
  pub breaker_state : BreakerState
  pub attempt_no : ℕ
  pub result : OutboundHttpResult
  pub headers : List (String × Bytes)

-- how the `async with` block ends: by the return of a deferral, or by falling through
pub data BlockEnd : Type 0 where
  deferred : Delivery → BlockEnd
  sent : SentOutcome → BlockEnd

module _ (s : Settings) where
  unfoldable pub transition_of : Endpoint → ℕ → OutboundHttpResult → BreakerTransition
  transition_of endpoint now result =
      next_breaker_state endpoint.breaker_state endpoint.consecutive_failures now (succeeded result)
        s.breaker_failure_threshold

  unfoldable pub is_exhausted : Delivery → Bool
  is_exhausted delivery = leb s.delivery_max_attempts (delivery.attempt_count + 1)

module _ (o : Outside) where
  unfoldable pub request_headers : Delivery → Endpoint → ℕ → Bytes → List (String × Bytes)
  request_headers delivery endpoint timestamp payload =
      ("Content-Type", codes "application/json")
      ∷ ("X-Relay-Signature", sign o.encode o.hmac endpoint.secret (pos timestamp) payload)
      ∷ ("X-Relay-Timestamp", decimal timestamp)
      ∷ ("X-Relay-Delivery-Id", o.uuid_text delivery.id)
      ∷ []

unfoldable pub attempt_event :
    Delivery
    → BreakerState
    → Option ℕ
    → ℕ
    → Option ℕ
    → Option AttemptErrorClass
    → Option (List (String × Bytes))
    → ℕ
    → AttemptEvent
attempt_event delivery breaker_state attempt_no latency_ms status error_class headers now = record {
  delivery_id = delivery.id;
  endpoint_id = delivery.endpoint_id;
  event_id = delivery.event_id;
  attempt_no = attempt_no;
  delivery_state = delivery.state;
  latency_ms = latency_ms;
  response_status = status;
  error_class = error_class;
  next_retry_at = delivery.next_retry_at;
  breaker_state = breaker_state;
  created_at = now;
  request_headers = headers;
}

-- the event of an attempt that was sent
abbrev pub event_of : SentOutcome → ℕ → AttemptEvent
event_of out =
    attempt_event out.delivery out.breaker_state (some out.attempt_no) out.result.latency_ms
      out.result.status_code out.result.error_class (some out.headers)

module _ ⦃σ : Storage⦄ ⦃ρ : Redis⦄ (s : Settings) (o : Outside) where
  -- a warning is logged if PUBLISH raises
  unfoldable pub publish_event : ℕ → AttemptEvent → Exec (Unit {0})
  publish_event tenant_id event =
      if o.publish_raises tenant_id event
      then pure tt
      else modify (λ w. record w { published = (tenant_id, event) ∷ w.published })

  -- `_publish` of a service that has a Redis client
  unfoldable pub publish :
      ℕ
      → Delivery
      → BreakerState
      → Option ℕ
      → ℕ
      → Option ℕ
      → Option AttemptErrorClass
      → Option (List (String × Bytes))
      → Exec (Unit {0})
  unfolding publish_event
  publish tenant_id delivery breaker_state attempt_no latency_ms status error_class headers = do
    now ← gets (λ w. w.clock)
    publish_event tenant_id
        (attempt_event delivery breaker_state attempt_no latency_ms status error_class headers now)

  unfoldable pub defer : Delivery → Event → Endpoint → Exec BlockEnd
  unfolding publish
  defer delivery event endpoint = do
    opened_at ← require assertion_error endpoint.opened_at
    delivery' ← Deliveries.reschedule delivery.id (opened_at + s.breaker_cooldown)
    commit
    publish event.tenant_id delivery' endpoint.breaker_state none 0 none none none
    pure (deferred delivery')

  -- the flip to half-open after the cooldown
  unfoldable pub probe : Endpoint → Exec Endpoint
  probe endpoint =
      if is_open endpoint.breaker_state
      then Endpoints.set_breaker_state endpoint.id half_open endpoint.opened_at
      else pure endpoint

  -- `self._http_sender.send(...)`: the call is recorded, and time passes
  unfoldable pub send_request : String → Bytes → List (String × Bytes) → Exec OutboundHttpResult
  send_request url payload headers w =
      let (result, elapsed) = o.send url payload headers in
      lift result (record w {
        sender_calls = record { url = url; payload = payload; headers = headers } ∷ w.sender_calls;
        clock = w.clock + elapsed;
      })

  -- the three ways an attempt settles its delivery
  unfoldable pub settle : Delivery → OutboundHttpResult → ℕ → Exec Delivery
  unfolding is_exhausted
  settle delivery result now =
      if succeeded result
      then Deliveries.mark_delivered delivery.id
      else if is_exhausted s delivery
      then Deliveries.mark_dead delivery.id
      else do
        wait ← lift (
            compute_backoff_seconds o.uniform (pos delivery.attempt_count) default_base_seconds
              default_cap_seconds)
        Deliveries.mark_retrying delivery.id (now + wait)

  unfoldable pub count_outcome : Delivery → OutboundHttpResult → Exec (Unit {0})
  unfolding is_exhausted
  count_outcome delivery result = modify (λ w. record w {
    outcomes =
        attempt_outcome_label (succeeded result) (is_exhausted s delivery) result.error_class
        ∷ w.outcomes;
  })

  -- what follows the response: the breaker, the log of attempts, the delivery and the counter
  unfoldable pub record_outcome :
      Delivery → Event → Endpoint → ℕ → List (String × Bytes) → OutboundHttpResult → Exec BlockEnd
  record_outcome delivery event endpoint now headers result = do
    let transition = transition_of s endpoint now result
    recorded ←
        Endpoints.record_delivery_outcome endpoint.id transition.state
          transition.consecutive_failures transition.opened_at
    let attempt_no = delivery.attempt_count + 1
    let payload = o.dumps event.payload
    logged ←
        Attempts.create delivery.id attempt_no result.latency_ms result.status_code
          result.error_class (some (o.decode_replace (take request_snippet_max_len payload)))
          result.response_snippet (some headers)
    delivery' ← settle delivery result now
    count_outcome delivery result
    commit
    pure (
        sent (record {
          tenant_id = event.tenant_id;
          delivery = delivery';
          breaker_state = transition.state;
          attempt_no = attempt_no;
          result = result;
          headers = headers;
        }))

  unfoldable pub send_attempt : Delivery → Event → Endpoint → ℕ → Exec BlockEnd
  send_attempt delivery event endpoint now = do
    endpoint' ← probe endpoint
    let payload = o.dumps event.payload
    let headers = request_headers o delivery endpoint' (now / second) payload
    result ← send_request endpoint'.url payload headers
    record_outcome delivery event endpoint' now headers result

  -- the body of `async with self._uow`
  unfoldable pub attempt_block : ℕ → Exec BlockEnd
  attempt_block delivery_id = do
    found ← Deliveries.get delivery_id
    delivery ← require not_found found
    found_event ← Events.get delivery.event_id
    event ← require not_found found_event
    found_endpoint ← Endpoints.get delivery.endpoint_id
    endpoint ← require not_found found_endpoint
    now ← gets (λ w. w.clock)
    let skip =
        should_skip_for_open_breaker endpoint.breaker_state endpoint.opened_at now
          s.breaker_cooldown
    if skip then defer delivery event endpoint else send_attempt delivery event endpoint now

  unfoldable pub after_block : BlockEnd → Exec Delivery
  unfolding publish
  after_block (deferred delivery) = pure delivery
  after_block (sent out) = do
    publish out.tenant_id out.delivery out.breaker_state (some out.attempt_no) out.result.latency_ms
        out.result.status_code out.result.error_class (some out.headers)
    pure out.delivery

  unfoldable pub attempt : ℕ → Exec Delivery
  attempt delivery_id = do done ← with_uow (attempt_block delivery_id); after_block done
