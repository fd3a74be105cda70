-- ===== src/Repositories/Listings.antt =====
-- The statements of src/relay/repositories that read many rows: `EndpointRepository.list`,
-- `DeliveryRepository.list_dead` and `count_by_states_for_tenant`,
-- `DeliveryAttemptRepository.recent_for_tenant`, `ApiKeyRepository.list` and
-- `TenantRepository.list`. A join on a primary key is a lookup.
pub mod Paged
use relay_webhooks.Prelude.{
  ℕ, ◌==◌, Bool, true, false, ◌&&◌, ◌||◌, Option, none, some, List, [], ◌∷◌, Bytes, map, filter_by,
  length, any, take, ltb, leb, if◌then◌else◌,
}
use relay_webhooks.Prelude.Result.{Result}
use relay_webhooks.Domain.Deliveries.{Delivery, DeliveryState, DeliveryAttempt, dead, state_eq}
use relay_webhooks.Domain.Endpoints.{Endpoint}
use relay_webhooks.Domain.Records.{ApiKey, Tenant, Event}
use relay_webhooks.Platform.Storage.{Storage}
use relay_webhooks.Platform.Redis.{Redis}
use relay_webhooks.World.{World, Exec, gets}
use relay_webhooks.Repositories.Pagination.{Texts, Page, list_page}

-- the rows of a table, without their keys
abbrev pub values : {R : Type 0} → List (ℕ × R) → List R
values {R} = map (λ (p : ℕ × R). p.1)

module _ {R : Type 0} (created_at : R → ℕ) where
  -- ORDER BY created_at; rows of one time keep the order of the table
  unfoldable pub insert_by_age : R → List R → List R
  insert_by_age r [] = r ∷ []
  insert_by_age r (y ∷ ys) =
      let rest = insert_by_age r ys in
      if leb (created_at r) (created_at y) then r ∷ y ∷ ys else y ∷ rest

  unfoldable pub oldest_first : List R → List R
  unfolding insert_by_age
  oldest_first [] = []
  oldest_first (r ∷ rs) = insert_by_age r (oldest_first rs)

  -- ORDER BY created_at DESC
  unfoldable pub insert_by_youth : R → List R → List R
  insert_by_youth r [] = r ∷ []
  insert_by_youth r (y ∷ ys) =
      let rest = insert_by_youth r ys in
      if leb (created_at y) (created_at r) then r ∷ y ∷ ys else y ∷ rest

  unfoldable pub newest_first : List R → List R
  unfolding insert_by_youth
  newest_first [] = []
  newest_first (r ∷ rs) = insert_by_youth r (newest_first rs)

abbrev pub endpoint_key : Endpoint → ℕ × ℕ
endpoint_key e = (e.created_at, e.id)

abbrev pub delivery_key : Delivery → ℕ × ℕ
delivery_key d = (d.created_at, d.id)

abbrev pub event_is_of : ℕ → Option Event → Bool
event_is_of tenant_id none = false
event_is_of tenant_id (some e) = e.tenant_id == tenant_id

module _ ⦃σ : Storage⦄ ⦃ρ : Redis⦄ where
  -- JOIN events ... WHERE events.tenant_id = tenant_id
  abbrev pub is_of_tenant : World → ℕ → Delivery → Bool
  is_of_tenant w tenant_id d = event_is_of tenant_id (σ.get Event w.session.events d.event_id)

  abbrev pub endpoints_of : World → ℕ → List Endpoint
  endpoints_of w tenant_id =
      filter_by (λ (e : Endpoint). e.tenant_id == tenant_id)
        (values (σ.rows Endpoint w.session.endpoints))

  abbrev pub is_dead_of : World → ℕ → Delivery → Bool
  is_dead_of w tenant_id d = is_of_tenant w tenant_id d && state_eq d.state dead

  abbrev pub dead_of : World → ℕ → List Delivery
  dead_of w tenant_id =
      filter_by (is_dead_of w tenant_id) (values (σ.rows Delivery w.session.deliveries))

  -- `EndpointRepository.list`
  unfoldable pub list_endpoints : Texts → ℕ → Option Bytes → ℕ → Exec (Page Endpoint)
  list_endpoints x tenant_id cursor limit w =
      (list_page endpoint_key x limit (endpoints_of w tenant_id) cursor, w)

  unfoldable pub list_dead : Texts → ℕ → Option Bytes → ℕ → Exec (Page Delivery)
  list_dead x tenant_id cursor limit w =
      (list_page delivery_key x limit (dead_of w tenant_id) cursor, w)

  unfoldable pub count_by_states_for_tenant : ℕ → List DeliveryState → Exec ℕ
  count_by_states_for_tenant tenant_id states = gets (λ w. length (
      filter_by
        (λ (d : Delivery). is_of_tenant w tenant_id d && any (λ s. state_eq s d.state) states)
        (values (σ.rows Delivery w.session.deliveries))))

  abbrev pub attempt_is_of : World → ℕ → Option Delivery → Bool
  attempt_is_of w tenant_id none = false
  attempt_is_of w tenant_id (some d) = is_of_tenant w tenant_id d

  -- the attempts on the tenant's deliveries
  abbrev pub attempts_of : World → ℕ → List DeliveryAttempt
  attempts_of w tenant_id =
      filter_by
        (λ (a : DeliveryAttempt).
          attempt_is_of w tenant_id (σ.get Delivery w.session.deliveries a.delivery_id))
        (values (σ.rows DeliveryAttempt w.session.delivery_attempts))

  unfoldable pub recent_for_tenant : ℕ → ℕ → Exec (List DeliveryAttempt)
  unfolding newest_first
  recent_for_tenant tenant_id limit = gets (λ w.
      take limit (newest_first (λ (a : DeliveryAttempt). a.created_at) (attempts_of w tenant_id)))

  -- `ApiKeyRepository.list`
  unfoldable pub list_api_keys : ℕ → Exec (List ApiKey)
  unfolding oldest_first
  list_api_keys tenant_id = gets (λ w.
      oldest_first (λ (k : ApiKey). k.created_at)
        (filter_by (λ (k : ApiKey). k.tenant_id == tenant_id)
          (values (σ.rows ApiKey w.session.api_keys))))

  -- `TenantRepository.list`
  unfoldable pub list_tenants : Exec (List Tenant)
  unfolding oldest_first
  list_tenants =
      gets (λ w.
        oldest_first (λ (t : Tenant). t.created_at) (values (σ.rows Tenant w.session.tenants)))
