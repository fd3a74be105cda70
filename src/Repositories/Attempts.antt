-- ===== src/Repositories/Attempts.antt =====
-- src/relay/repositories/delivery_attempts/repository.py: the append-only log of attempts.
use relay_webhooks.Prelude.{
  ℕ, ◌==◌, Option, String, List, Bytes, map, filter_by, leb, [], ◌∷◌, ltb, ◌||◌, ◌&&◌, Bool,
  if◌then◌else◌,
}
use relay_webhooks.Domain.Deliveries.{DeliveryAttempt, AttemptErrorClass}
use relay_webhooks.Platform.Storage.{Storage}
use relay_webhooks.Platform.Redis.{Redis}
use relay_webhooks.World.{World, Exec, gets, pure}

-- ORDER BY created_at, attempt_no
abbrev pub precedes : DeliveryAttempt → DeliveryAttempt → Bool
precedes a b =
    ltb a.created_at b.created_at || (a.created_at == b.created_at && leb a.attempt_no b.attempt_no)

insert_in_order : DeliveryAttempt → List DeliveryAttempt → List DeliveryAttempt
insert_in_order a [] = a ∷ []
insert_in_order a (x ∷ xs) =
    let rest = insert_in_order a xs in if precedes a x then a ∷ x ∷ xs else x ∷ rest

unfoldable pub in_order : List DeliveryAttempt → List DeliveryAttempt
unfolding insert_in_order
in_order [] = []
in_order (x ∷ xs) = insert_in_order x (in_order xs)

module _ ⦃σ : Storage⦄ ⦃ρ : Redis⦄ where
  unfoldable pub write : DeliveryAttempt → World → World
  write a w = record w {
    session = record w.session {
      delivery_attempts = σ.put DeliveryAttempt w.session.delivery_attempts a.id a;
    };
  }

  unfoldable pub new_row :
      World
      → ℕ
      → ℕ
      → ℕ
      → Option ℕ
      → Option AttemptErrorClass
      → Option Bytes
      → Option Bytes
      → Option (List (String × Bytes))
      → DeliveryAttempt
  new_row w delivery_id attempt_no latency_ms response_status error_class request response headers =
      record {
        id = σ.fresh DeliveryAttempt w.session.delivery_attempts;
        delivery_id = delivery_id;
        attempt_no = attempt_no;
        latency_ms = latency_ms;
        created_at = w.clock;
        response_status = response_status;
        error_class = error_class;
        request_snippet = request;
        response_snippet = response;
        request_headers = headers;
      }

  unfoldable pub create :
      ℕ
      → ℕ
      → ℕ
      → Option ℕ
      → Option AttemptErrorClass
      → Option Bytes
      → Option Bytes
      → Option (List (String × Bytes))
      → Exec DeliveryAttempt
  unfolding write new_row
  create delivery_id attempt_no latency_ms response_status error_class request response headers w =
      let a =
        new_row w delivery_id attempt_no latency_ms response_status error_class request response
          headers in
      pure a (write a w)

  -- the rows of one delivery, ordered
  unfoldable pub history : World → ℕ → List DeliveryAttempt
  unfolding in_order
  history w delivery_id = in_order (
      filter_by (λ (a : DeliveryAttempt). a.delivery_id == delivery_id)
        (map (λ (p : ℕ × DeliveryAttempt). p.1)
          (σ.rows DeliveryAttempt w.session.delivery_attempts)))

  unfoldable pub list_for_delivery : ℕ → Exec (List DeliveryAttempt)
  unfolding history
  list_for_delivery delivery_id = gets (λ w. history w delivery_id)
