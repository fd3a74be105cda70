-- ===== src/Repositories/Endpoints.antt =====
-- src/relay/repositories/endpoints/repository.py.
use relay_webhooks.Prelude.{
  ℕ, ◌==◌, String, Bool, ◌&&◌, Option, none, some, List, [], ◌∷◌, map, filter_by, length, any,
  if◌then◌else◌,
}
use relay_webhooks.Prelude.Result.{not_found}
use relay_webhooks.Domain.Endpoints.{
  Endpoint, EndpointStatus, BreakerState, active, closed, is_active, is_subscribed_to,
}
use relay_webhooks.Domain.Deliveries.{Delivery, DeliveryAttempt}
use relay_webhooks.Platform.Storage.{Storage}
use relay_webhooks.Platform.Redis.{Redis}
use relay_webhooks.World.{World, Db, Exec, ◌>>=◌, ◌>>◌, gets, pure, require, modify}

-- the assignments under `is not None`
abbrev or_kept : {A : Type 0} → Option A → A → A
or_kept none old = old
or_kept (some new) old = new

module _ ⦃σ : Storage⦄ where
  -- the rows of a table that `p` finds are removed
  unfoldable pub remove_where : (R : Type 0) → (R → Bool) → List (ℕ × R) → σ.Table R → σ.Table R
  remove_where R p [] t = t
  remove_where R p ((k, r) ∷ rest) t =
      let t' = if p r then σ.remove R t k else t in remove_where R p rest t'

  -- the foreign keys of `deliveries` and `delivery_attempts` (migrations de700e1055fe and
  -- 157cc1f4495a)
  unfoldable pub cascade : ℕ → Db → Db
  unfolding remove_where
  cascade endpoint_id db =
      let gone =
        filter_by (λ (p : ℕ × Delivery). p.1.endpoint_id == endpoint_id)
          (σ.rows Delivery db.deliveries) in
      record db {
        deliveries =
            remove_where Delivery (λ d. d.endpoint_id == endpoint_id)
              (σ.rows Delivery db.deliveries) db.deliveries;
        delivery_attempts =
            remove_where DeliveryAttempt
              (λ a. any (λ (p : ℕ × Delivery). p.0 == a.delivery_id) gone)
              (σ.rows DeliveryAttempt db.delivery_attempts) db.delivery_attempts;
      }

module _ ⦃σ : Storage⦄ ⦃ρ : Redis⦄ where
  unfoldable pub find : World → ℕ → Option Endpoint
  find w endpoint_id = σ.get Endpoint w.session.endpoints endpoint_id

  unfoldable pub write : Endpoint → World → World
  write e w = record w {
    session = record w.session { endpoints = σ.put Endpoint w.session.endpoints e.id e };
  }

  unfoldable pub save : Endpoint → Exec Endpoint
  unfolding write
  save e w = pure e (write e w)

  unfoldable pub create : ℕ → String → String → List String → Exec Endpoint
  unfolding save
  create tenant_id url secret subscribed_event_types w =
      save
        (record {
          id = σ.fresh Endpoint w.session.endpoints;
          tenant_id = tenant_id;
          url = url;
          secret = secret;
          subscribed_event_types = subscribed_event_types;
          created_at = w.clock;
          status = active;
          breaker_state = closed;
          opened_at = none;
          consecutive_failures = 0;
        })
        w

  unfoldable pub get : ℕ → Exec (Option Endpoint)
  unfolding find
  get endpoint_id = gets (λ w. find w endpoint_id)

  unfoldable pub get_or_raise : ℕ → Exec Endpoint
  unfolding get
  get_or_raise endpoint_id = do found ← get endpoint_id; require not_found found

  unfoldable pub update :
      ℕ → Option String → Option (List String) → Option EndpointStatus → Exec Endpoint
  unfolding get_or_raise save
  update endpoint_id url subscribed_event_types status = do
    model ← get_or_raise endpoint_id
    save (record model {
      url = or_kept url model.url;
      subscribed_event_types = or_kept subscribed_event_types model.subscribed_event_types;
      status = or_kept status model.status;
    })

  -- the row, and its deliveries and their attempts with it: `ON DELETE CASCADE`
  unfoldable pub delete : ℕ → Exec (Unit {0})
  unfolding get_or_raise
  delete endpoint_id = do
    model ← get_or_raise endpoint_id
    modify (λ w. record w {
      session =
          cascade endpoint_id
            (record w.session { endpoints = σ.remove Endpoint w.session.endpoints endpoint_id });
    })

  abbrev pub gauge_set : ℕ → BreakerState → World → World
  gauge_set endpoint_id state w = record w {
    breaker_gauge = (endpoint_id, state) ∷ w.breaker_gauge;
  }

  -- `circuit_breaker_state.labels(...).state(...)`
  unfoldable pub set_gauge : ℕ → BreakerState → Exec (Unit {0})
  set_gauge endpoint_id state = modify (gauge_set endpoint_id state)

  unfoldable pub record_delivery_outcome : ℕ → BreakerState → ℕ → Option ℕ → Exec Endpoint
  unfolding get_or_raise save set_gauge
  record_delivery_outcome endpoint_id breaker_state consecutive_failures opened_at = do
    model ← get_or_raise endpoint_id
    saved ← save (record model {
      breaker_state = breaker_state;
      consecutive_failures = consecutive_failures;
      opened_at = opened_at;
    })
    set_gauge endpoint_id breaker_state
    pure saved

  unfoldable pub set_breaker_state : ℕ → BreakerState → Option ℕ → Exec Endpoint
  unfolding get_or_raise save set_gauge
  set_breaker_state endpoint_id breaker_state opened_at = do
    model ← get_or_raise endpoint_id
    saved ← save (record model { breaker_state = breaker_state; opened_at = opened_at })
    set_gauge endpoint_id breaker_state
    pure saved

  abbrev pub all_rows : World → List Endpoint
  all_rows w = map (λ (p : ℕ × Endpoint). p.1) (σ.rows Endpoint w.session.endpoints)

  -- the WHERE clause of `list_active_subscribed`
  unfoldable pub is_target : ℕ → String → Endpoint → Bool
  unfolding is_active is_subscribed_to
  is_target tenant_id event_type e =
      e.tenant_id == tenant_id && (is_active e && is_subscribed_to e event_type)

  unfoldable pub list_active_subscribed : ℕ → String → Exec (List Endpoint)
  list_active_subscribed tenant_id event_type =
      gets (λ w. filter_by (is_target tenant_id event_type) (all_rows w))

  unfoldable pub count_for_tenant : ℕ → Exec ℕ
  count_for_tenant tenant_id =
      gets (λ w. length (filter_by (λ (e : Endpoint). e.tenant_id == tenant_id) (all_rows w)))
