-- ===== src/Services/Attempt/Defer.antt =====
-- An attempt on an endpoint whose breaker is open and has not cooled down.
use relay_webhooks.Prelude.{ℕ, ◌+◌, ◌≡◌, true, some, arith}
use relay_webhooks.Prelude.Result.{ok}
use relay_webhooks.Platform.Storage.{Storage}
use relay_webhooks.Platform.Redis.{Redis}
use relay_webhooks.Domain.Endpoints.{Endpoint, should_skip_for_open_breaker}
use relay_webhooks.Domain.Deliveries.{Delivery, retrying}
use relay_webhooks.Domain.Records.{Event}
use relay_webhooks.Settings.{Settings}
use relay_webhooks.World.{World, with_uow, commit}
use relay_webhooks.Repositories.Deliveries
use relay_webhooks.Repositories.Endpoints
use relay_webhooks.Repositories.Events
use relay_webhooks.Services.Attempt.{Outside, attempt, attempt_block, defer, after_block}

-- The delivery is due again when the cooldown ends, and its budget is not used.
unfoldable pub postponed : Settings → Delivery → ℕ → Delivery
postponed s d opened = record d {
  state = retrying;
  next_retry_at = some (opened + s.breaker_cooldown);
}

module _ ⦃σ : Storage⦄ ⦃ρ : Redis⦄ (s : Settings) (o : Outside) (w : World) (d : Delivery)
    (e : Event) (p : Endpoint) (opened : ℕ)
    (has_delivery : σ.get Delivery w.committed.deliveries d.id ≡ some d)
    (has_event : σ.get Event w.committed.events d.event_id ≡ some e)
    (has_endpoint : σ.get Endpoint w.committed.endpoints d.endpoint_id ≡ some p)
    (was_opened : p.opened_at ≡ some opened)
    (skip : should_skip_for_open_breaker p.breaker_state p.opened_at w.clock s.breaker_cooldown
      ≡ true) where
  -- An attempt on a stored delivery, whose event and endpoint are stored, of an endpoint whose
  -- breaker is open and still cooling down sends nothing: it returns and commits the delivery, due
  -- again when the cooldown ends and with its attempt count unchanged, and leaves the endpoints and
  -- the log of attempts alone.
  pub attempt_defers :
      ((attempt s o d.id w).0 ≡ ok (postponed s d opened))
      × ((attempt s o d.id w).1.sender_calls ≡ w.sender_calls)
      × ((attempt s o d.id w).1.committed.deliveries
          ≡ σ.put Delivery w.committed.deliveries d.id (postponed s d opened))
      × ((attempt s o d.id w).1.committed.delivery_attempts ≡ w.committed.delivery_attempts)
      × ((attempt s o d.id w).1.committed.endpoints ≡ w.committed.endpoints)
  unfolding attempt attempt_block defer after_block with_uow commit postponed Deliveries.reschedule
      Deliveries.get Endpoints.get Events.get
  attempt_defers = ground arith

  pub attempt_defers_events : (attempt s o d.id w).1.committed.events ≡ w.committed.events
  unfolding attempt attempt_block defer after_block with_uow commit Deliveries.reschedule
      Deliveries.get Endpoints.get Events.get
  attempt_defers_events = ground arith
