-- ===== src/Api/Deliveries.antt =====
-- src/relay/api/v1/deliveries/router.py and src/relay/api/v1/dlq/router.py.
use relay_webhooks.Prelude.{ℕ, Option, Bytes}
use relay_webhooks.Platform.Storage.{Storage}
use relay_webhooks.Platform.Redis.{Redis}
use relay_webhooks.Repositories.Pagination.{Texts, Page}
use relay_webhooks.Services.Dlq
use relay_webhooks.Services.Replay
use relay_webhooks.World.{Exec, ◌>>=◌, ◌>>◌, pure}
use relay_webhooks.Api.Auth.{require_scope}
use relay_webhooks.Api.Endpoints.{check_limit}
use relay_webhooks.Api.Schemas.{
  DeliveryRead, DeadDeliveryRead, delivery_read, from_detail, page_read,
}

module _ ⦃σ : Storage⦄ ⦃ρ : Redis⦄ (sha256 : Bytes → Bytes) (api_key : Option Bytes) where
  unfoldable pub replay_delivery : ℕ → Exec DeliveryRead
  replay_delivery delivery_id = do
    auth ← require_scope sha256 "deliveries:replay" api_key
    delivery ← Replay.replay delivery_id auth.tenant.id
    pure (delivery_read delivery)

  unfoldable pub list_dead_deliveries : Texts → Option Bytes → ℕ → Exec (Page DeadDeliveryRead)
  list_dead_deliveries x cursor limit = do
    auth ← require_scope sha256 "dlq:read" api_key
    check_limit limit
    page ← Dlq.list_dead x auth.tenant.id cursor limit
    pure (page_read from_detail page)
