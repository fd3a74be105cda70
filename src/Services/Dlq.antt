-- ===== src/Services/Dlq.antt =====
-- src/relay/services/deliveries/dlq_service.py.
pub mod Walked
use relay_webhooks.Prelude.{ℕ, Option, List, [], ◌∷◌, Bytes}
use relay_webhooks.Platform.Storage.{Storage}
use relay_webhooks.Platform.Redis.{Redis}
use relay_webhooks.Domain.Deliveries.{Delivery, DeliveryAttempt}
use relay_webhooks.World.{Exec, ◌>>=◌, pure, with_uow}
use relay_webhooks.Repositories.Attempts
use relay_webhooks.Repositories.Listings as Repository
use relay_webhooks.Repositories.Pagination.{Texts, Page}

pub record DeadDeliveryDetail : Type 0 where
  pub delivery : Delivery
  pub attempts : List DeliveryAttempt

module _ ⦃σ : Storage⦄ ⦃ρ : Redis⦄ where
  unfoldable pub detail : Delivery → Exec DeadDeliveryDetail
  detail delivery = do
    attempts ← Attempts.list_for_delivery delivery.id
    pure (record { delivery = delivery; attempts = attempts })

  -- the list comprehension, whose statements run in order
  unfoldable pub details : List Delivery → Exec (List DeadDeliveryDetail)
  unfolding detail
  details [] = pure []
  details (d ∷ ds) = do first ← detail d; rest ← details ds; pure (first ∷ rest)

  unfoldable pub list_dead : Texts → ℕ → Option Bytes → ℕ → Exec (Page DeadDeliveryDetail)
  unfolding details
  list_dead x tenant_id cursor limit = with_uow (do
    page ← Repository.list_dead x tenant_id cursor limit
    items ← details page.items
    pure (record { items = items; next_cursor = page.next_cursor; has_more = page.has_more }))
