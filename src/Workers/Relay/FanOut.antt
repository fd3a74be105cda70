-- ===== src/Workers/Relay/FanOut.antt =====
-- One outbox entry is fanned out to the endpoints that listen.
use relay_webhooks.Prelude.{ℕ, ◌≡◌, ◌∙◌, refl, ap, sym, subst, some, none, List, [], ◌∷◌, All}
use relay_webhooks.Prelude.Result.{Result, ok}
use relay_webhooks.Platform.Storage.{Storage}
use relay_webhooks.Platform.Storage.Laws.{get-put_eq, get-put_fresh}
use relay_webhooks.Platform.Redis.{Redis, StreamFields, unread}
use relay_webhooks.Platform.Redis.Laws.{message-xadd_new, message-xadd_kept}
use relay_webhooks.Domain.Deliveries.{Delivery, pending}
use relay_webhooks.Domain.Endpoints.{Endpoint}
use relay_webhooks.Domain.Records.{Event}
use relay_webhooks.Infra.Streams.{enqueue_delivery}
use relay_webhooks.World.{World}
use relay_webhooks.Repositories.Deliveries
use relay_webhooks.Workers.Relay.{fan_out}

module _ ⦃σ : Storage⦄ ⦃ρ : Redis⦄ (event : Event) where
  abbrev pub new_delivery : ℕ → ℕ → Endpoint → Delivery
  new_delivery now i p = record {
    id = i;
    event_id = event.id;
    endpoint_id = p.id;
    state = pending;
    attempt_count = 0;
    created_at = now;
    next_retry_at = none;
  }

  abbrev pub fields_of : ℕ → StreamFields
  fields_of i = record { delivery_id = i; correlation_id = event.correlation_id }

  -- the endpoint has a new delivery of the event, and an unread message for it
  abbrev pub IsServed : World → Endpoint → Type 0
  IsServed w p =
      (i : ℕ) × (k : ℕ) × (σ.get Delivery w.session.deliveries i ≡ some (new_delivery w.clock i p))
      × (ρ.message w.stream k ≡ unread (fields_of i))

  -- nothing of an earlier world is lost in a later one
  pub record Extends (w w' : World) : Type 0 where
    pub rows :
        (i : ℕ) (d : Delivery)
        → σ.get Delivery w.session.deliveries i ≡ some d
        → σ.get Delivery w'.session.deliveries i ≡ some d
    pub messages :
        (k : ℕ) (f : StreamFields)
        → ρ.message w.stream k ≡ unread f
        → ρ.message w'.stream k ≡ unread f
    pub same_clock : w'.clock ≡ w.clock
    pub same_outbox : w'.session.outbox ≡ w.session.outbox
    pub same_events : w'.session.events ≡ w.session.events
    pub same_endpoints : w'.session.endpoints ≡ w.session.endpoints
    pub same_committed : w'.committed ≡ w.committed

  pub IsServed-later : (w w' : World) → Extends w w' → (p : Endpoint) → IsServed w p → IsServed w' p
  IsServed-later w w' x p (i, k, row, message) = (
    i,
    k,
    x.rows i (new_delivery w.clock i p) row
        ∙ ap (λ t. some (new_delivery t i p)) (sym x.same_clock),
    x.messages k (fields_of i) message,
  )

  -- the world after the delivery and the message of one endpoint
  unfoldable pub served : Endpoint → World → World
  served p w =
      let i = σ.fresh Delivery w.session.deliveries in
      record w {
        session = record w.session {
          deliveries = σ.put Delivery w.session.deliveries i (new_delivery w.clock i p);
        };
        stream = (ρ.xadd w.stream (fields_of i)).1;
      }

  fan_out_lem :
      (p : Endpoint) (rest : List Endpoint) (w : World)
      → fan_out event (p ∷ rest) w ≡ fan_out event rest (served p w)
  unfolding fan_out served Deliveries.create Deliveries.save Deliveries.write enqueue_delivery
  fan_out_lem p rest w = refl

  step :
      (p : Endpoint) (rest : List Endpoint) (w : World)
      → (fan_out event rest (served p w)).1 ≡ (fan_out event (p ∷ rest) w).1
  step p rest w = ap (λ (r : Result (Unit {0}) × World). r.1) (sym (fan_out_lem p rest w))

  served-Extends : (p : Endpoint) (w : World) → Extends w (served p w)
  unfolding served
  served-Extends p w = record {
    rows = λ i d h.
        get-put_fresh w.session.deliveries i
          (new_delivery w.clock (σ.fresh Delivery w.session.deliveries) p) d h;
    messages = λ k f h. message-xadd_kept w.stream f _ k h;
    same_clock = refl;
    same_outbox = refl;
    same_events = refl;
    same_endpoints = refl;
    same_committed = refl;
  }

  served-IsServed : (p : Endpoint) (w : World) → IsServed (served p w) p
  unfolding served
  served-IsServed p w = (
    σ.fresh Delivery w.session.deliveries,
    (ρ.xadd w.stream (fields_of (σ.fresh Delivery w.session.deliveries))).0,
    get-put_eq _ _ _ _ refl,
    message-xadd_new _ _,
  )

  Extends-trans : (u v w : World) → Extends u v → Extends v w → Extends u w
  Extends-trans u v w x y = record {
    rows = λ i d h. y.rows i d (x.rows i d h);
    messages = λ k f h. y.messages k f (x.messages k f h);
    same_clock = y.same_clock ∙ x.same_clock;
    same_outbox = y.same_outbox ∙ x.same_outbox;
    same_events = y.same_events ∙ x.same_events;
    same_endpoints = y.same_endpoints ∙ x.same_endpoints;
    same_committed = y.same_committed ∙ x.same_committed;
  }

  fan_out-Extends : (ps : List Endpoint) (w : World) → Extends w (fan_out event ps w).1
  unfolding fan_out
  fan_out-Extends [] w = record {
    rows = λ i d h. h;
    messages = λ k f h. h;
    same_clock = refl;
    same_outbox = refl;
    same_events = refl;
    same_endpoints = refl;
    same_committed = refl;
  }
  fan_out-Extends (p ∷ rest) w = subst (Extends w) (step p rest w) (
      Extends-trans w (served p w) (fan_out event rest (served p w)).1 (served-Extends p w)
        (fan_out-Extends rest (served p w)))

  fan_out_returns : (ps : List Endpoint) (w : World) → (fan_out event ps w).0 ≡ ok tt
  unfolding fan_out
  fan_out_returns [] w = refl
  fan_out_returns (p ∷ rest) w =
      ap (λ (r : Result (Unit {0}) × World). r.0) (fan_out_lem p rest w)
      ∙ fan_out_returns rest (served p w)

  fan_out-IsServed : (ps : List Endpoint) (w : World) → All (IsServed (fan_out event ps w).1) ps
  fan_out-IsServed [] w = tt
  fan_out-IsServed (p ∷ rest) w =
      subst (λ w'. All (IsServed w') (p ∷ rest)) (step p rest w)
        (
          IsServed-later (served p w) (fan_out event rest (served p w)).1
              (fan_out-Extends rest (served p w)) p (served-IsServed p w),
          fan_out-IsServed rest (served p w),
        )

  -- The loop of one entry raises nothing. At its end each endpoint has a new pending delivery of
  -- the event, and an unread message for it on the stream; no row and no unread message of before
  -- is lost, and nothing is committed yet.
  pub fan_out_serves :
      (ps : List Endpoint) (w : World)
      → let r = fan_out event ps w in (r.0 ≡ ok tt) × All (IsServed r.1) ps × Extends w r.1
  fan_out_serves ps w = (fan_out_returns ps w, fan_out-IsServed ps w, fan_out-Extends ps w)
