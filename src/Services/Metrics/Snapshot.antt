-- ===== src/Services/Metrics/Snapshot.antt =====
-- What the snapshot of a tenant's metrics says.
use relay_webhooks.Prelude.{
  ℕ, ◌&&◌, any, true, ◌⊎◌, inl, inr, ◌↔◌, ◌*◌, ◌≤◌, ◌<◌, ◌≡◌, refl, ap, ◌∙◌, Option, none, some,
  List, [], ◌∷◌, arith, length, length-take-le, map, take,
}
use relay_webhooks.Prelude.Result.{ok, ◌>>=◌ as bind}
use relay_webhooks.Domain.Deliveries.{
  Delivery, DeliveryAttempt, DeliveryState, pending, retrying, delivered, dead, state_eq,
}
use relay_webhooks.Platform.Storage.{Storage}
use relay_webhooks.Platform.Redis.{Redis}
use relay_webhooks.World.{World, with_uow, rollback}
use relay_webhooks.Repositories.Listings.{
  values, attempts_of, newest_first, count_by_states_for_tenant, recent_for_tenant, event_is_of,
  is_of_tenant,
}
use relay_webhooks.Services.Metrics.{
  DeliveryMetrics, percentile, p95, sorted, success_rate_of, is_success, measured, snapshot,
}
use relay_webhooks.Domain.Records.{Event}
use relay_webhooks.Services.Metrics.Counts.{Counts, Counts-filter, and_iff}
use relay_webhooks.Services.Metrics.Percentile.{at_most, below, percentile-sorted, length-sorted}

-- The 95th percentile of a sample, which only the empty one has not.
abbrev pub IsP95 : List ℕ → Option ℕ → Type 0
IsP95 [] found = found ≡ none
IsP95 (x ∷ xs) found =
    (v : ℕ) × (found ≡ some v)
    × (95 * length (x ∷ xs) < 100 * at_most v (x ∷ xs))
    × (100 * below v (x ∷ xs) ≤ 95 * length (x ∷ xs))

-- an attempt whose response has a status of 2xx
abbrev pub IsSuccessful : DeliveryAttempt → Type 0
IsSuccessful a = (status : ℕ) × (a.response_status ≡ some status) × (200 ≤ status) × (status < 300)

is_success_iff :
    (found : Option ℕ)
    → (is_success found ≡ true)
      ↔ ((status : ℕ) × (found ≡ some status) × (200 ≤ status) × (status < 300))
is_success_iff none = (λ h. cc, λ h. cc (h.1))
is_success_iff (some n) =
    (λ h. (n, refl, ground arith, ground arith), λ h. ground (arith, h.1, h.2, h.3))

-- How many of a sample succeeded, and how many there are.
abbrev pub IsRate : List DeliveryAttempt → Option (ℕ × ℕ) → Type 0
IsRate [] rate = rate ≡ none
IsRate (a ∷ rest) rate =
    (n : ℕ) × (rate ≡ some (n, length (a ∷ rest))) × Counts IsSuccessful (a ∷ rest) n

p95_nonempty :
    (ys : List ℕ) → 0 < length ys → p95 ys ≡ bind (percentile ys 95 100) (λ p. ok (some p))
unfolding p95
p95_nonempty [] h = absurd (omega arith)
p95_nonempty (y ∷ ys) h = refl

p95-sorted : (xs : List ℕ) → (found : Option ℕ) × (p95 (sorted xs) ≡ ok found) × IsP95 xs found
unfolding p95 sorted
p95-sorted [] = (none, refl, refl)
p95-sorted (x ∷ xs) =
    let (v, is_v, more, fewer) = percentile-sorted (x ∷ xs) (omega arith) in
    (
      some v,
      p95_nonempty (sorted (x ∷ xs)) (omega (arith, length-sorted (x ∷ xs)))
          ∙ ap (λ r. bind r (λ p. ok (some p))) is_v,
      (v, refl, more, fewer),
    )

success_rate_of-IsRate : (recent : List DeliveryAttempt) → IsRate recent (success_rate_of recent)
unfolding success_rate_of
success_rate_of-IsRate [] = refl
success_rate_of-IsRate (a ∷ rest) = (
  _,
  refl,
  Counts-filter IsSuccessful (λ (b : DeliveryAttempt). is_success b.response_status)
      (λ b. is_success_iff b.response_status) (a ∷ rest),
)

queued_state_iff :
    (found : DeliveryState)
    → (any (λ s. state_eq s found) (pending ∷ retrying ∷ []) ≡ true)
      ↔ ((found ≡ pending) ⊎ (found ≡ retrying))
queued_state_iff pending = (λ h. inl refl, λ h. refl)
queued_state_iff retrying = (λ h. inr refl, λ h. refl)
queued_state_iff delivered = (λ h. cc, λ h. elim h [ inl e ↦ cc | inr e ↦ cc ])
queued_state_iff dead = (λ h. cc, λ h. elim h [ inl e ↦ cc | inr e ↦ cc ])

retrying_iff :
    (found : DeliveryState)
    → (any (λ s. state_eq s found) (retrying ∷ []) ≡ true) ↔ (found ≡ retrying)
retrying_iff retrying = (λ h. refl, λ h. refl)
retrying_iff pending = (λ h. cc, λ h. cc)
retrying_iff delivered = (λ h. cc, λ h. cc)
retrying_iff dead = (λ h. cc, λ h. cc)

module _ ⦃σ : Storage⦄ ⦃ρ : Redis⦄ (w : World) (tenant_id : ℕ) where
  -- a delivery of one of the tenant's events
  abbrev pub IsTheirs : Delivery → Type 0
  IsTheirs d =
      (e : Event) × (σ.get Event w.committed.events d.event_id ≡ some e) × (e.tenant_id ≡ tenant_id)

  -- a delivery that is pending or retrying
  abbrev pub IsQueued : Delivery → Type 0
  IsQueued d = IsTheirs d × ((d.state ≡ pending) ⊎ (d.state ≡ retrying))

  abbrev pub IsInFlight : Delivery → Type 0
  IsInFlight d = IsTheirs d × (d.state ≡ retrying)

  theirs_iff :
      (found : Option Event)
      → (event_is_of tenant_id found ≡ true)
        ↔ ((e : Event) × (found ≡ some e) × (e.tenant_id ≡ tenant_id))
  theirs_iff none = (λ h. cc, λ h. cc (h.1))
  theirs_iff (some e) = (λ h. (e, refl, ground arith), λ h. ground (arith, h.1, h.2))

  IsQueued-iff :
      (d : Delivery)
      → ((is_of_tenant (record w { session = w.committed }) tenant_id d
            && any (λ s. state_eq s d.state) (pending ∷ retrying ∷ []))
          ≡ true)
        ↔ IsQueued d
  IsQueued-iff d =
      and_iff (is_of_tenant (record w { session = w.committed }) tenant_id d)
        (any (λ s. state_eq s d.state) (pending ∷ retrying ∷ []))
        (theirs_iff (σ.get Event w.committed.events d.event_id)) (queued_state_iff d.state)

  IsInFlight-iff :
      (d : Delivery)
      → ((is_of_tenant (record w { session = w.committed }) tenant_id d
            && any (λ s. state_eq s d.state) (retrying ∷ []))
          ≡ true)
        ↔ IsInFlight d
  IsInFlight-iff d =
      and_iff (is_of_tenant (record w { session = w.committed }) tenant_id d)
        (any (λ s. state_eq s d.state) (retrying ∷ []))
        (theirs_iff (σ.get Event w.committed.events d.event_id)) (retrying_iff d.state)

module _ ⦃σ : Storage⦄ ⦃ρ : Redis⦄ (w : World) (tenant_id sample_size : ℕ) where
  -- the tenant's newest attempts, at most `sample_size` of them, as they are committed
  abbrev pub sample : List DeliveryAttempt
  sample = take sample_size (
      newest_first (λ (a : DeliveryAttempt). a.created_at)
        (attempts_of (record w { session = w.committed }) tenant_id))

  -- The snapshot is computed for every state of the tables, the empty ones included, and changes
  -- none of them. The queue's depth is the number of the tenant's deliveries that are pending or
  -- retrying, and what is in flight the number of those retrying. The sample is the tenant's newest
  -- attempts, as many as the bound lets in; more than 95 in 100 of their latencies are at most the
  -- one shown, and at most 95 in 100 are less; and the rate is the number of the attempts in the
  -- sample with a status of 2xx, and the sample's size. An empty sample has neither.
  pub snapshot_measures :
      let r = snapshot tenant_id sample_size w in
      (m : DeliveryMetrics) × (r.0 ≡ ok m)
      × (r.1.committed ≡ w.committed)
      × Counts
          (IsQueued w tenant_id)
          (values (σ.rows Delivery w.committed.deliveries))
          m.queue_depth
      × Counts
          (IsInFlight w tenant_id)
          (values (σ.rows Delivery w.committed.deliveries))
          m.in_flight
      × (m.sample_size ≡ length sample)
      × (m.sample_size ≤ sample_size)
      × IsP95 (map (λ (a : DeliveryAttempt). a.latency_ms) sample) m.p95_latency_ms
      × IsRate sample m.success_rate
  unfolding snapshot with_uow rollback measured count_by_states_for_tenant recent_for_tenant
  snapshot_measures =
      let (found, is_found, good) =
        p95-sorted (map (λ (a : DeliveryAttempt). a.latency_ms) sample) in
      rw is_found (
        _,
        refl,
        refl,
        Counts-filter (IsQueued w tenant_id) _ (IsQueued-iff w tenant_id)
            (values (σ.rows Delivery w.committed.deliveries)),
        Counts-filter (IsInFlight w tenant_id) _ (IsInFlight-iff w tenant_id)
            (values (σ.rows Delivery w.committed.deliveries)),
        refl,
        length-take-le sample_size _,
        good,
        success_rate_of-IsRate sample,
      )
