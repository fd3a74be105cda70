-- ===== src/World.antt =====
-- The state that the coroutines read and write, and the monad of their effects: exceptions, and the
-- unit of work of src/relay/repositories/unit_of_work.py. Between two uses of the database the
-- committed tables and those of the open session are told apart.
pub mod Atomic
pub mod Inversion
use relay_webhooks.Prelude.{ℕ, String, Option, none, some, List, Bytes, Bool, true, false}
use relay_webhooks.Prelude.Result.{Error, Result, ok, err}
use relay_webhooks.Domain.Endpoints.{Endpoint, BreakerState}
use relay_webhooks.Domain.Deliveries.{Delivery, DeliveryAttempt}
use relay_webhooks.Domain.Records.{Tenant, ApiKey, Event, OutboxEntry}
use relay_webhooks.Platform.Storage.{Storage}
use relay_webhooks.Platform.Redis.{Redis}
use relay_webhooks.Infra.AttemptEvents.{AttemptEvent}
use relay_webhooks.Infra.RateLimit.{Bucket}

-- One call of `OutboundHttpSender.send`, with its arguments. The connections that the call makes, if
-- any, are those of Infra/Outbound.antt.
pub record SenderCall : Type 0 where
  pub url : String
  pub payload : Bytes
  pub headers : List (String × Bytes)

module _ ⦃σ : Storage⦄ where
  pub record Db : Type 0 where
    pub tenants : σ.Table Tenant
    pub api_keys : σ.Table ApiKey
    pub endpoints : σ.Table Endpoint
    pub events : σ.Table Event
    pub outbox : σ.Table OutboxEntry
    pub deliveries : σ.Table Delivery
    pub delivery_attempts : σ.Table DeliveryAttempt

module _ ⦃σ : Storage⦄ ⦃ρ : Redis⦄ where
  pub record World : Type 0 where
    pub committed : Db
    pub session : Db
    pub stream : ρ.Stream
    pub retries : ρ.Retries
    -- the token buckets, by tenant
    pub buckets : ℕ → Option Bucket
    pub clock : ℕ
    -- what was handed on, newest first: the calls of the sender, the published events and the metrics
    pub sender_calls : List SenderCall
    pub published : List (ℕ × AttemptEvent)
    pub breaker_gauge : List (ℕ × BreakerState)
    pub outcomes : List String

  abbrev pub Exec : Type 0 → Type 0
  Exec A = World → Result A × World

  abbrev pub pure : {A : Type 0} → A → Exec A
  pure a w = (ok a, w)

  abbrev pub raise : {A : Type 0} → Error → Exec A
  raise e w = (err e, w)

  abbrev pub lift : {A : Type 0} → Result A → Exec A
  lift r w = (r, w)

  abbrev pub gets : {A : Type 0} → (World → A) → Exec A
  gets f w = (ok (f w), w)

  abbrev pub modify : (World → World) → Exec (Unit {0})
  modify f w = (ok tt, f w)

  abbrev pub resume : {A B : Type 0} → Result A → (A → Exec B) → Exec B
  resume (ok a) f w = f a w
  resume (err e) f w = (err e, w)

  abbrev pub handled : {A : Type 0} → Result A → (Error → Exec A) → Exec A
  handled (ok a) handler w = (ok a, w)
  handled (err e) handler w = handler e w

  infixl 5 ◌>>=◌ ◌>>◌
  abbrev pub ◌>>=◌ : {A B : Type 0} → Exec A → (A → Exec B) → Exec B
  ◌>>=◌ m f w = resume (m w).0 f (m w).1

  abbrev pub ◌>>◌ : {B : Type 0} → Exec (Unit {0}) → Exec B → Exec B
  m >> k = m >>= λ _. k

  -- `if x is None: raise e`
  abbrev pub require : {A : Type 0} → Error → Option A → Exec A
  require e none = raise e
  require e (some a) = pure a

  -- `raise e` under `if`
  abbrev pub raise_when : Bool → Error → Exec (Unit {0})
  raise_when true e = raise e
  raise_when false e = pure tt

  abbrev pub when : Bool → Exec (Unit {0}) → Exec (Unit {0})
  when true m = m
  when false m = pure tt

  -- `try: m except e: handler`
  abbrev pub catch : {A : Type 0} → Exec A → (Error → Exec A) → Exec A
  catch m handler w = handled (m w).0 handler (m w).1

  unfoldable pub commit : Exec (Unit {0})
  commit w = (ok tt, record w { committed = w.session })

  unfoldable pub rollback : World → World
  rollback w = record w { session = w.committed }

  -- `async with uow:` opens a session on the committed tables; leaving it, by a result or by an
  -- exception, rolls back what was not committed.
  unfoldable pub with_uow : {A : Type 0} → Exec A → Exec A
  unfolding rollback
  with_uow m w = let w' = m (record w { session = w.committed }) in (w'.0, rollback w'.1)
