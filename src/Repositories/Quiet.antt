-- ===== src/Repositories/Quiet.antt =====
-- The repositories write to the open session only: none of their operations commits.
use relay_webhooks.Prelude.{ℕ, ◌≡◌, ◌∙◌, refl, [], ◌∷◌, List, Option, String, Bytes, Bool, arith}
use relay_webhooks.Platform.Storage.{Storage}
use relay_webhooks.Platform.Redis.{Redis}
use relay_webhooks.Domain.Records.{OutboxEntry}
use relay_webhooks.Domain.Deliveries.{Delivery, AttemptErrorClass}
use relay_webhooks.Domain.Endpoints.{Endpoint, EndpointStatus, BreakerState}
use relay_webhooks.World.{World, pure}
use relay_webhooks.World.Atomic.{IsQuiet, IsQuiet-pure, resume-keeps, quiet_rules, held}
use relay_webhooks.Repositories.Deliveries
use relay_webhooks.Repositories.Endpoints
use relay_webhooks.Repositories.Events
use relay_webhooks.Repositories.Outbox
use relay_webhooks.Repositories.Attempts
use relay_webhooks.Repositories.ApiKeys
use relay_webhooks.Repositories.Tenants

module _ ⦃σ : Storage⦄ ⦃ρ : Redis⦄ where
  pub delivery_get-IsQuiet : (i : ℕ) → IsQuiet (Deliveries.get i)
  unfolding Deliveries.get
  delivery_get-IsQuiet i = record { keeps = λ w. refl }

  pub delivery_get_or_raise-IsQuiet : (i : ℕ) → IsQuiet (Deliveries.get_or_raise i)
  unfolding Deliveries.get_or_raise
  delivery_get_or_raise-IsQuiet i = search quiet_rules

  pub delivery_save-IsQuiet : (d : Delivery) → IsQuiet (Deliveries.save d)
  unfolding Deliveries.save
  delivery_save-IsQuiet d = record { keeps = λ w. refl }

  pub delivery_create-IsQuiet : (i j : ℕ) → IsQuiet (Deliveries.create i j)
  unfolding Deliveries.create
  delivery_create-IsQuiet i j = record { keeps = λ w. refl }

  pub mark_delivered-IsQuiet : (i : ℕ) → IsQuiet (Deliveries.mark_delivered i)
  unfolding Deliveries.mark_delivered
  mark_delivered-IsQuiet i =
      search (quiet_rules, delivery_get_or_raise-IsQuiet, delivery_save-IsQuiet)

  pub mark_dead-IsQuiet : (i : ℕ) → IsQuiet (Deliveries.mark_dead i)
  unfolding Deliveries.mark_dead
  mark_dead-IsQuiet i = search (quiet_rules, delivery_get_or_raise-IsQuiet, delivery_save-IsQuiet)

  pub reset_for_replay-IsQuiet : (i : ℕ) → IsQuiet (Deliveries.reset_for_replay i)
  unfolding Deliveries.reset_for_replay
  reset_for_replay-IsQuiet i =
      search (quiet_rules, delivery_get_or_raise-IsQuiet, delivery_save-IsQuiet)

  pub mark_retrying-IsQuiet : (i t : ℕ) → IsQuiet (Deliveries.mark_retrying i t)
  unfolding Deliveries.mark_retrying
  mark_retrying-IsQuiet i t =
      search (quiet_rules, delivery_get_or_raise-IsQuiet, delivery_save-IsQuiet)

  pub reschedule-IsQuiet : (i t : ℕ) → IsQuiet (Deliveries.reschedule i t)
  unfolding Deliveries.reschedule
  reschedule-IsQuiet i t =
      search (quiet_rules, delivery_get_or_raise-IsQuiet, delivery_save-IsQuiet)

  pub endpoint_get-IsQuiet : (i : ℕ) → IsQuiet (Endpoints.get i)
  unfolding Endpoints.get
  endpoint_get-IsQuiet i = record { keeps = λ w. refl }

  pub endpoint_get_or_raise-IsQuiet : (i : ℕ) → IsQuiet (Endpoints.get_or_raise i)
  unfolding Endpoints.get_or_raise
  endpoint_get_or_raise-IsQuiet i = search quiet_rules

  pub endpoint_save-IsQuiet : (e : Endpoint) → IsQuiet (Endpoints.save e)
  unfolding Endpoints.save
  endpoint_save-IsQuiet e = record { keeps = λ w. refl }

  pub endpoint_create-IsQuiet :
      (i : ℕ) (url secret : String) (ts : List String) → IsQuiet (Endpoints.create i url secret ts)
  unfolding Endpoints.create
  endpoint_create-IsQuiet i url secret ts = record { keeps = λ w. refl }

  pub set_gauge-IsQuiet : (i : ℕ) (b : BreakerState) → IsQuiet (Endpoints.set_gauge i b)
  unfolding Endpoints.set_gauge
  set_gauge-IsQuiet i b = record { keeps = λ w. refl }

  pub endpoint_update-IsQuiet :
      (i : ℕ) (url : Option String) (ts : Option (List String)) (st : Option EndpointStatus)
      → IsQuiet (Endpoints.update i url ts st)
  unfolding Endpoints.update
  endpoint_update-IsQuiet i url ts st =
      search (quiet_rules, endpoint_get_or_raise-IsQuiet, endpoint_save-IsQuiet)

  pub record_delivery_outcome-IsQuiet :
      (i : ℕ) (b : BreakerState) (n : ℕ) (t : Option ℕ)
      → IsQuiet (Endpoints.record_delivery_outcome i b n t)
  unfolding Endpoints.record_delivery_outcome
  record_delivery_outcome-IsQuiet i b n t =
      search (quiet_rules, endpoint_get_or_raise-IsQuiet, endpoint_save-IsQuiet, set_gauge-IsQuiet)

  pub set_breaker_state-IsQuiet :
      (i : ℕ) (b : BreakerState) (t : Option ℕ) → IsQuiet (Endpoints.set_breaker_state i b t)
  unfolding Endpoints.set_breaker_state
  set_breaker_state-IsQuiet i b t =
      search (quiet_rules, endpoint_get_or_raise-IsQuiet, endpoint_save-IsQuiet, set_gauge-IsQuiet)

  pub list_active_subscribed-IsQuiet :
      (i : ℕ) (t : String) → IsQuiet (Endpoints.list_active_subscribed i t)
  unfolding Endpoints.list_active_subscribed
  list_active_subscribed-IsQuiet i t = record { keeps = λ w. refl }

  pub endpoint_count-IsQuiet : (i : ℕ) → IsQuiet (Endpoints.count_for_tenant i)
  unfolding Endpoints.count_for_tenant
  endpoint_count-IsQuiet i = record { keeps = λ w. refl }

  pub event_get-IsQuiet : (i : ℕ) → IsQuiet (Events.get i)
  unfolding Events.get
  event_get-IsQuiet i = record { keeps = λ w. refl }

  pub event_count-IsQuiet : (i : ℕ) → IsQuiet (Events.count_for_tenant i)
  unfolding Events.count_for_tenant
  event_count-IsQuiet i = record { keeps = λ w. refl }

  pub get_by_idempotency_key-IsQuiet :
      (i : ℕ) (k : String) → IsQuiet (Events.get_by_idempotency_key i k)
  unfolding Events.get_by_idempotency_key
  get_by_idempotency_key-IsQuiet i k = record { keeps = λ w. refl }

  pub outbox_create-IsQuiet : (i : ℕ) → IsQuiet (Outbox.create i)
  unfolding Outbox.create
  outbox_create-IsQuiet i = record { keeps = λ w. refl }

  pub attempt_create-IsQuiet :
      (i n l : ℕ) (c : Option ℕ) (x : Option AttemptErrorClass) (q r : Option Bytes)
      (h : Option (List (String × Bytes)))
      → IsQuiet (Attempts.create i n l c x q r h)
  unfolding Attempts.create
  attempt_create-IsQuiet i n l c x q r h = record { keeps = λ w. refl }

  pub api_key_get-IsQuiet : (i : ℕ) → IsQuiet (ApiKeys.get i)
  unfolding ApiKeys.get
  api_key_get-IsQuiet i = record { keeps = λ w. refl }

  pub api_key_create-IsQuiet :
      (i : ℕ) (h p : Bytes) (scopes : List String) (t : Option ℕ)
      → IsQuiet (ApiKeys.create i h p scopes t)
  unfolding ApiKeys.create
  api_key_create-IsQuiet i h p scopes t = record { keeps = λ w. refl }

  pub get_by_prefix-IsQuiet : (p : Bytes) → IsQuiet (ApiKeys.get_by_prefix p)
  unfolding ApiKeys.get_by_prefix
  get_by_prefix-IsQuiet p = record { keeps = λ w. refl }

  pub tenant_get-IsQuiet : (i : ℕ) → IsQuiet (Tenants.get i)
  unfolding Tenants.get
  tenant_get-IsQuiet i = record { keeps = λ w. refl }

  pub tenant_create-IsQuiet : (n : String) (b : Bool) → IsQuiet (Tenants.create n b)
  unfolding Tenants.create
  tenant_create-IsQuiet n b = record { keeps = λ w. refl }

  pub api_key_revoke-IsQuiet : (i : ℕ) → IsQuiet (ApiKeys.revoke i)
  unfolding ApiKeys.revoke
  api_key_revoke-IsQuiet i = record { keeps = λ w. ground arith }

  pub endpoint_delete-IsQuiet : (i : ℕ) → IsQuiet (Endpoints.delete i)
  unfolding Endpoints.delete
  endpoint_delete-IsQuiet i = record { keeps = λ w. ground arith }

  pub mark_processed-IsQuiet : (i : ℕ) → IsQuiet (Outbox.mark_processed i)
  unfolding Outbox.mark_processed
  mark_processed-IsQuiet i = record { keeps = λ w. ground arith }

  claim_all-keeps :
      (now : ℕ) (rows : List OutboxEntry) (w : World)
      → held (Outbox.claim_all now rows w).1 ≡ held w
  unfolding Outbox.claim_all Outbox.write
  claim_all-keeps now [] w = refl
  claim_all-keeps now (e ∷ rows) w =
      let w' = Outbox.write (Outbox.claimed now e) w in
      let rest = Outbox.claim_all now rows w' in
      resume-keeps rest.0 (λ es. pure (Outbox.claimed now e ∷ es)) rest.1 (λ es. IsQuiet-pure _)
      ∙ claim_all-keeps now rows w'

  pub claim_due-IsQuiet : (locked : ℕ → Bool) (limit : ℕ) → IsQuiet (Outbox.claim_due locked limit)
  unfolding Outbox.claim_due
  claim_due-IsQuiet locked limit = record {
    keeps = λ w. claim_all-keeps w.clock (Outbox.due locked limit w) w;
  }

pub ruleset repository_rules = (
  quiet_rules, delivery_get-IsQuiet, delivery_get_or_raise-IsQuiet, delivery_save-IsQuiet,
  delivery_create-IsQuiet, mark_delivered-IsQuiet, mark_dead-IsQuiet, reset_for_replay-IsQuiet,
  mark_retrying-IsQuiet, reschedule-IsQuiet, endpoint_get-IsQuiet, endpoint_get_or_raise-IsQuiet,
  endpoint_save-IsQuiet, endpoint_create-IsQuiet, set_gauge-IsQuiet, endpoint_update-IsQuiet,
  record_delivery_outcome-IsQuiet, set_breaker_state-IsQuiet, list_active_subscribed-IsQuiet,
  endpoint_count-IsQuiet, event_get-IsQuiet, event_count-IsQuiet, get_by_idempotency_key-IsQuiet,
  outbox_create-IsQuiet, attempt_create-IsQuiet, api_key_get-IsQuiet, api_key_create-IsQuiet,
  get_by_prefix-IsQuiet, tenant_get-IsQuiet, tenant_create-IsQuiet, api_key_revoke-IsQuiet,
  endpoint_delete-IsQuiet, mark_processed-IsQuiet, claim_due-IsQuiet,
)
