-- ===== src/Infra/Streams.antt =====
-- src/relay/infra/streams.py: the delivery stream and its consumer group.
use relay_webhooks.Prelude.{ℕ, String, Option, none, some, List, [], ◌∷◌}
use relay_webhooks.Platform.Storage.{Storage}
use relay_webhooks.Platform.Redis.{Redis, Entries}
use relay_webhooks.World.{Exec, pure}

pub record DeliveryMessage : Type 0 where
  pub message_id : ℕ
  pub delivery_id : ℕ
  pub correlation_id : Option String

-- `_parse_entries`; an entry without fields is left out.
unfoldable pub parse_entries : Entries → List DeliveryMessage
parse_entries [] = []
parse_entries ((message_id, none) ∷ rest) = parse_entries rest
parse_entries ((message_id, some f) ∷ rest) =
    record {
      message_id = message_id;
      delivery_id = f.delivery_id;
      correlation_id = f.correlation_id;
    }
    ∷ parse_entries rest

module _ ⦃σ : Storage⦄ ⦃ρ : Redis⦄ where
  unfoldable pub enqueue_delivery : ℕ → Option String → Exec ℕ
  enqueue_delivery delivery_id correlation_id w =
      let (message_id, stream') =
        ρ.xadd w.stream (record { delivery_id = delivery_id; correlation_id = correlation_id }) in
      pure message_id (record w { stream = stream' })

  unfoldable pub read_deliveries : String → ℕ → Exec (List DeliveryMessage)
  unfolding parse_entries
  read_deliveries consumer count w =
      let (entries, stream') = ρ.xreadgroup w.stream consumer count in
      pure (parse_entries entries) (record w { stream = stream' })

  unfoldable pub ack_delivery : ℕ → Exec (Unit {0})
  ack_delivery message_id w = pure tt (record w { stream = ρ.xack w.stream message_id })

  unfoldable pub claim_stale_deliveries : String → ℕ → ℕ → Exec (List DeliveryMessage)
  unfolding parse_entries
  claim_stale_deliveries consumer min_idle_ms count w =
      let (claimed, stream') = ρ.xautoclaim w.stream consumer min_idle_ms w.clock count in
      pure (parse_entries claimed) (record w { stream = stream' })
