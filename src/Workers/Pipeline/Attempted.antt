-- ===== src/Workers/Pipeline/Attempted.antt =====
-- What an attempt does to the tables, whichever way it goes.
use relay_webhooks.Prelude.{
  ℕ, ◌≡◌, ◌≢◌, refl, arith, Bool, true, false, Bool-cases, inl, inr, some, String, Bytes, List,
}
use relay_webhooks.Prelude.Result.{err, not_found}
use relay_webhooks.Platform.Storage.{Storage}
use relay_webhooks.Domain.Deliveries.{Delivery, DeliveryState, pending, retrying}
use relay_webhooks.Domain.Endpoints.{Endpoint}
use relay_webhooks.Infra.HttpSender.{OutboundHttpResult, succeeded}
use relay_webhooks.Services.Attempt.{Outside, is_exhausted}
use relay_webhooks.Services.Attempt.Defer.{postponed}
use relay_webhooks.Services.Attempt.Outcome.{settled, tripped, probed, probed_id}
use relay_webhooks.Settings.{Settings}
use relay_webhooks.Workers.Dispatcher.{retry_time}
use relay_webhooks.World.{Db}

-- The delivery is still to be sent.
abbrev pub is_open : DeliveryState → Bool
is_open pending = true
is_open retrying = true
is_open _ = false

-- The sender raises no `NotFoundError`, which is an exception of the domain.
abbrev pub RaisesItsOwn : Outside → Type 0
RaisesItsOwn o =
    (url : String) (payload : Bytes) (headers : List (String × Bytes))
    → (o.send url payload headers).0 ≢ err not_found

-- If the delivery is still to be sent, a retry is asked for.
abbrev pub IsDue : Delivery → Type 0
IsDue d = is_open d.state ≡ true → (t : ℕ) × (retry_time d ≡ some t)

pub settled-IsDue :
    (s : Settings) (o : Outside) (d : Delivery) (result : OutboundHttpResult) (now : ℕ)
    → IsDue (settled s o d result now)
unfolding settled
settled-IsDue s o d result now = elim (Bool-cases (succeeded result)) [
  | inl good ↦ rw good (λ e. cc e)
  | inr bad ↦ elim (Bool-cases (is_exhausted s d)) [
    | inl last ↦ rw (bad, last) (λ e. cc e)
    | inr more ↦ rw (bad, more) (λ e. (_, refl))
  ]
]

pub postponed-IsDue : (s : Settings) (d : Delivery) (opened : ℕ) → IsDue (postponed s d opened)
unfolding postponed
postponed-IsDue s d opened e = (_, refl)

pub postponed_id : (s : Settings) (d : Delivery) (opened : ℕ) → (postponed s d opened).id ≡ d.id
unfolding postponed
postponed_id s d opened = refl

pub postponed_parents :
    (s : Settings) (d : Delivery) (opened : ℕ)
    → ((postponed s d opened).event_id ≡ d.event_id)
      × ((postponed s d opened).endpoint_id ≡ d.endpoint_id)
unfolding postponed
postponed_parents s d opened = (refl, refl)

pub settled_parents :
    (s : Settings) (o : Outside) (d : Delivery) (result : OutboundHttpResult) (now : ℕ)
    → ((settled s o d result now).event_id ≡ d.event_id)
      × ((settled s o d result now).endpoint_id ≡ d.endpoint_id)
unfolding settled
settled_parents s o d result now = ground arith

pub tripped_id :
    (s : Settings) (p : Endpoint) (result : OutboundHttpResult) (now : ℕ)
    → (tripped s (probed p) result now).id ≡ p.id
unfolding tripped
tripped_id s p result now = probed_id p

module _ ⦃σ : Storage⦄ where
  -- What an attempt on `d` that returns `d'` makes of the tables `db`.
  pub record Attempted (db db' : Db) (d d' : Delivery) : Type 0 where
    pub row : db'.deliveries ≡ σ.put Delivery db.deliveries d.id d'
    pub same_id : d'.id ≡ d.id
    pub same_parents : (d'.event_id ≡ d.event_id) × (d'.endpoint_id ≡ d.endpoint_id)
    pub same_events : db'.events ≡ db.events
    pub kept :
        (j : ℕ) (p : Endpoint)
        → σ.get Endpoint db.endpoints j ≡ some p
        → (p' : Endpoint) × (σ.get Endpoint db'.endpoints j ≡ some p')
    -- no endpoint comes or goes, or changes its id
    pub endpoints :
        (j : ℕ) (p' : Endpoint)
        → σ.get Endpoint db'.endpoints j ≡ some p'
        → (p : Endpoint) × (σ.get Endpoint db.endpoints j ≡ some p) × (p'.id ≡ p.id)
    pub due : IsDue d'
