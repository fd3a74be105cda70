-- ===== src/Services/Dlq/Walked.antt =====
-- The dead-letter queue, walked to its end.
use relay_webhooks.Prelude.{ℕ, suc, ◌≡◌, ◌∙◌, refl, Option, none, List, [], ◌∷◌, Bytes, length, map}
use relay_webhooks.Prelude.Result.{Result, ok, err}
use relay_webhooks.Platform.Storage.{Storage}
use relay_webhooks.Platform.Redis.{Redis}
use relay_webhooks.Domain.Deliveries.{Delivery}
use relay_webhooks.World.{World, with_uow}
use relay_webhooks.Repositories.Attempts
use relay_webhooks.Repositories.Listings as Repository
use relay_webhooks.Repositories.Listings.{delivery_key, dead_of}
use relay_webhooks.Repositories.Listings.Paged.{AreKeyed, walk-list_dead}
use relay_webhooks.Repositories.Pagination.{Texts, Page, order_by_key, list_page}
use relay_webhooks.Repositories.Pagination.Walk.{walk, walk-page_map, page_map}
use relay_webhooks.Services.Dlq.{DeadDeliveryDetail, detail, details, list_dead}

module _ ⦃σ : Storage⦄ ⦃ρ : Redis⦄ (w : World) where
  -- a dead delivery with its log
  abbrev pub with_history : Delivery → DeadDeliveryDetail
  with_history d = record { delivery = d; attempts = Attempts.history w d.id }

  details-history : (ds : List Delivery) → details ds w ≡ (ok (map with_history ds), w)
  unfolding details detail Attempts.list_for_delivery
  details-history [] = refl
  details-history (d ∷ ds) = rw (details-history ds) refl

module _ ⦃σ : Storage⦄ ⦃ρ : Redis⦄ (x : Texts) (w : World) (tenant_id : ℕ) where
  -- what a unit of work on the committed tables sees
  abbrev pub opened : World
  opened = record w { session = w.committed }

  list_dead-page :
      (limit : ℕ) (r : Result (Page Delivery))
      → (c : Option Bytes) → list_page delivery_key x limit (dead_of opened tenant_id) c ≡ r
      → (list_dead x tenant_id c limit w).0 ≡ page_map (with_history opened) r
  unfolding list_dead with_uow Repository.list_dead
  list_dead-page limit (err e) c h = rw h refl
  list_dead-page limit (ok p) c h = rw (h, details-history opened p.items) refl

  -- While the tables stay as they are and each delivery stands under its own id, a client that
  -- follows the cursors of the dead-letter queue, with a limit of at least one, gets each dead
  -- delivery of the tenant's events once, oldest first, with its whole history of attempts.
  pub walk-dlq :
      (n : ℕ)
      → AreKeyed delivery_key (σ.rows Delivery w.committed.deliveries)
      → let all = order_by_key delivery_key (dead_of opened tenant_id) in
        walk (suc (length all)) (λ c. (list_dead x tenant_id c (suc n) w).0) none
        ≡ ok (map (with_history opened) all)
  unfolding Repository.list_dead
  walk-dlq n keyed =
      walk-page_map (with_history opened)
        (λ c. (Repository.list_dead x tenant_id c (suc n) opened).0)
        (λ c. (list_dead x tenant_id c (suc n) w).0) (λ c. list_dead-page (suc n) _ c refl)
        (suc (length (order_by_key delivery_key (dead_of opened tenant_id)))) none
      ∙ rw (walk-list_dead x opened tenant_id n keyed) refl
