-- ===== src/Services/Offline.antt =====
-- An attempt sends no command to the stream or the retry set: only the worker around it does.
use relay_webhooks.Prelude.{ℕ, refl, ◌∷◌, String, List, Option, Bytes}
use relay_webhooks.Platform.Storage.{Storage}
use relay_webhooks.Platform.Redis.{Redis}
use relay_webhooks.Domain.Deliveries.{Delivery, AttemptErrorClass}
use relay_webhooks.Domain.Endpoints.{Endpoint, BreakerState}
use relay_webhooks.Domain.Records.{Event}
use relay_webhooks.Infra.HttpSender.{OutboundHttpResult}
use relay_webhooks.Infra.AttemptEvents.{AttemptEvent}
use relay_webhooks.Settings.{Settings}
use relay_webhooks.World.{pure, modify}
use relay_webhooks.World.Atomic.{IsOffline, IsOffline-if, IsOffline-pure, offline_rules}
use relay_webhooks.Repositories.Quiet.{repository_rules}
use relay_webhooks.Services.Attempt
use relay_webhooks.Services.Attempt.{Outside, BlockEnd}
use relay_webhooks.Services.Atomicity.{
  probe-IsQuiet, send_request-IsQuiet, settle-IsQuiet, count_outcome-IsQuiet,
}

module _ ⦃σ : Storage⦄ ⦃ρ : Redis⦄ (s : Settings) (o : Outside) where
  publish_event-IsOffline : (t : ℕ) (v : AttemptEvent) → IsOffline (Attempt.publish_event s o t v)
  unfolding Attempt.publish_event
  publish_event-IsOffline t v =
      IsOffline-if (o.publish_raises t v) (pure tt)
        (modify (λ w. record w { published = (t, v) ∷ w.published })) (IsOffline-pure tt)
        (record { holds = λ w. refl })

  publish-IsOffline :
      (t : ℕ) (d : Delivery) (b : BreakerState) (n : Option ℕ) (l : ℕ) (c : Option ℕ)
      (x : Option AttemptErrorClass) (h : Option (List (String × Bytes)))
      → IsOffline (Attempt.publish s o t d b n l c x h)
  unfolding Attempt.publish
  publish-IsOffline t d b n l c x h =
      search (offline_rules, repository_rules, publish_event-IsOffline)

  defer-IsOffline : (d : Delivery) (v : Event) (p : Endpoint) → IsOffline (Attempt.defer s o d v p)
  unfolding Attempt.defer
  defer-IsOffline d v p = search (offline_rules, repository_rules, publish-IsOffline) depth 14

  record_outcome-IsOffline :
      (d : Delivery) (v : Event) (p : Endpoint) (now : ℕ) (h : List (String × Bytes))
      (r : OutboundHttpResult)
      → IsOffline (Attempt.record_outcome s o d v p now h r)
  unfolding Attempt.record_outcome
  record_outcome-IsOffline d v p now h r =
      search (offline_rules, repository_rules, settle-IsQuiet, count_outcome-IsQuiet) depth 14

  send_attempt-IsOffline :
      (d : Delivery) (v : Event) (p : Endpoint) (now : ℕ)
      → IsOffline (Attempt.send_attempt s o d v p now)
  unfolding Attempt.send_attempt
  send_attempt-IsOffline d v p now =
      search
        (
          offline_rules, repository_rules, probe-IsQuiet, send_request-IsQuiet,
          record_outcome-IsOffline,
        )
        depth 12

  attempt_block-IsOffline : (i : ℕ) → IsOffline (Attempt.attempt_block s o i)
  unfolding Attempt.attempt_block
  attempt_block-IsOffline i =
      search (offline_rules, repository_rules, defer-IsOffline, send_attempt-IsOffline) depth 16

  after_block-IsOffline : (e : BlockEnd) → IsOffline (Attempt.after_block s o e)
  unfolding Attempt.after_block
  after_block-IsOffline (Attempt.deferred d) = search offline_rules
  after_block-IsOffline (Attempt.sent out) = search (offline_rules, publish-IsOffline)

  pub attempt-IsOffline : (i : ℕ) → IsOffline (Attempt.attempt s o i)
  unfolding Attempt.attempt
  attempt-IsOffline i = search (offline_rules, attempt_block-IsOffline, after_block-IsOffline)
