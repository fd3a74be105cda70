-- ===== src/Services/Metrics.antt =====
-- src/relay/services/deliveries/metrics_service.py. A fraction of floats is a pair of numbers; the
-- product of a length and 0.95, rounded to a double and cut to an `int`, is `length * 95 / 100`.
pub mod Counts
pub mod Percentile
pub mod Snapshot
use relay_webhooks.Prelude.{
  ℕ, ◌+◌, ◌-◌, ◌*◌, ◌/◌, Bool, false, ◌&&◌, Option, none, some, List, [], ◌∷◌, map, length,
  filter_by, get_elem?, leb, ltb, if◌then◌else◌,
}
use relay_webhooks.Prelude.Result.{Result, ok, err, other_error, ◌>>=◌ as bind}
use relay_webhooks.Platform.Storage.{Storage}
use relay_webhooks.Platform.Redis.{Redis}
use relay_webhooks.Domain.Deliveries.{DeliveryAttempt, DeliveryState, pending, retrying}
use relay_webhooks.World.{Exec, ◌>>=◌, pure, lift, with_uow}
use relay_webhooks.Repositories.Listings.{count_by_states_for_tenant, recent_for_tenant}

pub record DeliveryMetrics : Type 0 where
  pub queue_depth : ℕ
  pub in_flight : ℕ
  pub p95_latency_ms : Option ℕ
  pub success_rate : Option (ℕ × ℕ)
  pub sample_size : ℕ

abbrev pub least : ℕ → ℕ → ℕ
least a b = if leb a b then a else b

abbrev or_index_error : Option ℕ → Result ℕ
or_index_error none = err other_error
or_index_error (some v) = ok v

-- `sorted_values[index]`; on an empty list the index is -1, and the IndexError is `other_error`.
unfoldable pub percentile : List ℕ → ℕ → ℕ → Result ℕ
percentile sorted_values numerator denominator =
    let index = least (length sorted_values - 1) (length sorted_values * numerator / denominator) in
    or_index_error (get_elem? sorted_values index)

insert_sorted : ℕ → List ℕ → List ℕ
insert_sorted v [] = v ∷ []
insert_sorted v (y ∷ ys) = let rest = insert_sorted v ys in if leb v y then v ∷ y ∷ ys else y ∷ rest

-- `sorted`
unfoldable pub sorted : List ℕ → List ℕ
unfolding insert_sorted
sorted [] = []
sorted (v ∷ vs) = insert_sorted v (sorted vs)

abbrev pub is_success : Option ℕ → Bool
is_success none = false
is_success (some status) = leb 200 status && ltb status 300

-- `_percentile(latencies, 0.95) if latencies else None`
unfoldable pub p95 : List ℕ → Result (Option ℕ)
unfolding percentile
p95 [] = ok none
p95 (v ∷ vs) = bind (percentile (v ∷ vs) 95 100) (λ p. ok (some p))

unfoldable pub success_rate_of : List DeliveryAttempt → Option (ℕ × ℕ)
success_rate_of [] = none
success_rate_of (a ∷ rest) =
    let recent = a ∷ rest in
    some (
      length (filter_by (λ (b : DeliveryAttempt). is_success b.response_status) recent),
      length recent,
    )

module _ ⦃σ : Storage⦄ ⦃ρ : Redis⦄ where
  -- the three statements of the unit of work
  unfoldable pub measured : ℕ → ℕ → Exec (ℕ × ℕ × List DeliveryAttempt)
  measured tenant_id sample_size = do
    queue_depth ← count_by_states_for_tenant tenant_id (pending ∷ retrying ∷ [])
    in_flight ← count_by_states_for_tenant tenant_id (retrying ∷ [])
    recent ← recent_for_tenant tenant_id sample_size
    pure (queue_depth, in_flight, recent)

  abbrev pub latencies_of : List DeliveryAttempt → List ℕ
  latencies_of recent = sorted (map (λ (a : DeliveryAttempt). a.latency_ms) recent)

  unfoldable pub snapshot : ℕ → ℕ → Exec DeliveryMetrics
  unfolding measured p95 success_rate_of
  snapshot tenant_id sample_size = do
    m ← with_uow (measured tenant_id sample_size)
    p95 ← lift (p95 (latencies_of m.2))
    pure (record {
      queue_depth = m.0;
      in_flight = m.1;
      p95_latency_ms = p95;
      success_rate = success_rate_of m.2;
      sample_size = length m.2;
    })
