-- ===== src/Repositories/Listings/Paged.antt =====
-- The paged listings, walked to their ends.
use relay_webhooks.Prelude.{ℕ, suc, ◌≡◌, ◌≢◌, ◌∙◌, sym, none, List, [], ◌∷◌, All, length}
use relay_webhooks.Prelude.Result.{ok}
use relay_webhooks.Domain.Deliveries.{Delivery}
use relay_webhooks.Domain.Endpoints.{Endpoint}
use relay_webhooks.Platform.Storage.{Storage, HaveDistinctKeys}
use relay_webhooks.Platform.Redis.{Redis}
use relay_webhooks.World.{World}
use relay_webhooks.Repositories.Pagination.{Texts, order_by_key}
use relay_webhooks.Repositories.Pagination.Ordered.{
  AreApart, Ascends, filter-AreApart, order-Ascends,
}
use relay_webhooks.Repositories.Pagination.Walk.{walk, walk-list_page}
use relay_webhooks.Repositories.Listings.{
  values, endpoint_key, delivery_key, endpoints_of, dead_of, list_endpoints, list_dead,
}

module _ {R : Type 0} (key : R → ℕ × ℕ) where
  -- each row stands under its own id
  abbrev pub AreKeyed : List (ℕ × R) → Type 0
  AreKeyed = All (λ (p : ℕ × R). (key p.1).1 ≡ p.0)

  apart-values :
      (r : R) (k : ℕ) (ps : List (ℕ × R))
      → (key r).1 ≡ k
      → All (λ (q : ℕ × R). k ≢ q.0) ps
      → AreKeyed ps
      → All (λ s. (key r).1 ≢ (key s).1) (values ps)
  apart-values r k [] own h keyed = tt
  apart-values r k (p ∷ ps) own h keyed =
      (λ same. h.0 (sym own ∙ same ∙ keyed.0), apart-values r k ps own h.1 keyed.1)

  pub values-AreApart :
      (ps : List (ℕ × R)) → HaveDistinctKeys ps → AreKeyed ps → AreApart key (values ps)
  values-AreApart [] h keyed = tt
  values-AreApart (p ∷ ps) h keyed =
      (apart-values p.1 p.0 ps keyed.0 h.0 keyed.1, values-AreApart ps h.1 keyed.1)

module _ ⦃σ : Storage⦄ ⦃ρ : Redis⦄ (x : Texts) (w : World) (tenant_id n : ℕ) where
  pub endpoints-Ascends :
      AreKeyed endpoint_key (σ.rows Endpoint w.session.endpoints)
      → Ascends endpoint_key (order_by_key endpoint_key (endpoints_of w tenant_id))
  endpoints-Ascends keyed = order-Ascends endpoint_key (endpoints_of w tenant_id) (
      filter-AreApart endpoint_key _ (values (σ.rows Endpoint w.session.endpoints)) (
        values-AreApart endpoint_key (σ.rows Endpoint w.session.endpoints)
          (σ.rows_distinct Endpoint w.session.endpoints) keyed))

  pub dead-Ascends :
      AreKeyed delivery_key (σ.rows Delivery w.session.deliveries)
      → Ascends delivery_key (order_by_key delivery_key (dead_of w tenant_id))
  dead-Ascends keyed = order-Ascends delivery_key (dead_of w tenant_id) (
      filter-AreApart delivery_key _ (values (σ.rows Delivery w.session.deliveries)) (
        values-AreApart delivery_key (σ.rows Delivery w.session.deliveries)
          (σ.rows_distinct Delivery w.session.deliveries) keyed))

  -- the listing of endpoints, walked in one state of the tables
  pub walk-list_endpoints :
      AreKeyed endpoint_key (σ.rows Endpoint w.session.endpoints)
      → let all = order_by_key endpoint_key (endpoints_of w tenant_id) in
        walk (suc (length all)) (λ c. (list_endpoints x tenant_id c (suc n) w).0) none ≡ ok all
  unfolding list_endpoints
  walk-list_endpoints keyed =
      walk-list_page endpoint_key x n (endpoints_of w tenant_id) (endpoints-Ascends keyed)

  pub walk-list_dead :
      AreKeyed delivery_key (σ.rows Delivery w.session.deliveries)
      → let all = order_by_key delivery_key (dead_of w tenant_id) in
        walk (suc (length all)) (λ c. (list_dead x tenant_id c (suc n) w).0) none ≡ ok all
  unfolding list_dead
  walk-list_dead keyed = walk-list_page delivery_key x n (dead_of w tenant_id) (dead-Ascends keyed)
