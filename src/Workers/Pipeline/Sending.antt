-- ===== src/Workers/Pipeline/Sending.antt =====
-- The steps around an attempt lose no delivery.
use relay_webhooks.Prelude.{
  ℕ, ◌==◌, ◌≡◌, ◌≢◌, ◌⊎◌, ◌∙◌, refl, ap, sym, subst, arith, true, Bool-cases, inl, inr, some,
  some-injective,
}
use relay_webhooks.Prelude.Result.{Error, Result-cases, ok, err, not_found, ok-injective}
use relay_webhooks.Platform.Storage.{Storage}
use relay_webhooks.Platform.Redis.{Redis, StreamFields}
use relay_webhooks.Domain.Deliveries.{Delivery}
use relay_webhooks.Domain.Endpoints.{Endpoint}
use relay_webhooks.Domain.Records.{Event}
use relay_webhooks.Services.Attempt.{Outside, attempt}
use relay_webhooks.Services.Offline.{attempt-IsOffline}
use relay_webhooks.Settings.{Settings}
use relay_webhooks.Workers.Dispatcher.Acks.{raise_keeps}
use relay_webhooks.Workers.Pipeline.Attempted.{is_open, RaisesItsOwn, Attempted}
use relay_webhooks.Workers.Pipeline.Ended.{attempt-Ends, attempt-found}
use relay_webhooks.Workers.Pipeline.Steps.{NoneLost, LosesNone, HasParents}
use relay_webhooks.Workers.Pipeline.Tracked.{IsTracked, on_stream, IsOpen}
use relay_webhooks.World.{World, Db}
use relay_webhooks.World.Atomic.{queues}

module _ ⦃σ : Storage⦄ ⦃ρ : Redis⦄ (db : Db) (s s' : ρ.Stream) (z z' : ρ.Retries) where
  pub NoneLost-moved :
      ((i : ℕ) → IsTracked s z i → IsTracked s' z' i) → NoneLost db s z → NoneLost db s' z'
  NoneLost-moved move n = record {
    delivery_ids = n.delivery_ids;
    endpoint_ids = n.endpoint_ids;
    event_ids = n.event_ids;
    parents = n.parents;
    tracked = λ i d at_i live. move i (n.tracked i d at_i live);
  }

module _ ⦃σ : Storage⦄ ⦃ρ : Redis⦄ (db db' : Db) (d d' : Delivery) (a : Attempted db db' d d') where
  parents-kept : (c : Delivery) → HasParents db c → HasParents db' c
  parents-kept c ((e, at_e), (p, at_p)) = (
    (e, ap (λ (t : σ.Table Event). σ.get Event t c.event_id) a.same_events ∙ at_e),
    a.kept c.endpoint_id p at_p,
  )

  parents-settled : HasParents db d → HasParents db d'
  parents-settled ((e, at_e), (p, at_p)) = (
    (e, ap (σ.get Event db.events) a.same_parents.0 ∙ at_e),
    (p, ap (σ.get Endpoint db.endpoints) a.same_parents.1 ∙ at_p),
  )

  settled-row :
      (i : ℕ) (c : Delivery)
      → (d.id == i) ≡ true
      → σ.get Delivery db'.deliveries i ≡ some c
      → d' ≡ c
  settled-row i c same at_i = some-injective (sym (rw (a.row, σ.get_put, same) refl) ∙ at_i)

  -- An attempt on `d` loses no delivery if `d` is tracked after it, in case it is still to be sent.
  pub NoneLost-Attempted :
      (s s' : ρ.Stream) (z z' : ρ.Retries)
      → σ.get Delivery db.deliveries d.id ≡ some d
      → NoneLost db s z
      → (is_open d'.state ≡ true → IsTracked s' z' d.id)
      → ((i : ℕ) → d.id ≢ i → IsTracked s z i → IsTracked s' z' i)
      → NoneLost db' s' z'
  NoneLost-Attempted s s' z z' stored n own others = record {
    delivery_ids = λ i c at_i. elim (Bool-cases (d.id == i)) [
      | inl same ↦
          ground (arith, a.row, a.same_id, at_i, σ.get_put Delivery db.deliveries d.id i d')
      | inr other ↦ n.delivery_ids i c (rw (a.row, σ.get_put, other) at at_i)
    ];
    endpoint_ids = λ j q at_j.
        let (p, before, same) = a.endpoints j q at_j in same ∙ n.endpoint_ids j p before;
    event_ids = λ j e at_j.
        n.event_ids j e (sym (ap (λ (t : σ.Table Event). σ.get Event t j) a.same_events) ∙ at_j);
    parents = λ i c at_i. elim (Bool-cases (d.id == i)) [
      | inl same ↦
          subst (HasParents db') (settled-row i c same at_i)
            (parents-kept d' (parents-settled (n.parents d.id d stored)))
      | inr other ↦ parents-kept c (n.parents i c (rw (a.row, σ.get_put, other) at at_i))
    ];
    tracked = λ i c at_i live. elim (Bool-cases (d.id == i)) [
      | inl same ↦
          let ids : d.id ≡ i = ground arith in
          let state = ap (λ (b : Delivery). is_open b.state) (settled-row i c same at_i) in
          subst (IsTracked s' z') ids (own (state ∙ live))
      | inr other ↦
          others i (ground arith) (n.tracked i c (rw (a.row, σ.get_put, other) at at_i) live)
    ];
  }

module _ ⦃σ : Storage⦄ ⦃ρ : Redis⦄ (s : Settings) (o : Outside) (own : RaisesItsOwn o) (w : World)
    (n : LosesNone w) (i : ℕ) where
  abbrev pub after : World
  after = (attempt s o i w).1

  -- The attempt has settled the stored delivery `d` as `d'`.
  abbrev pub Settles : Delivery → Delivery → Type 0
  Settles d d' =
      ((attempt s o i w).0 ≡ ok d')
      × (d.id ≡ i)
      × (σ.get Delivery w.committed.deliveries d.id ≡ some d)
      × Attempted w.committed after.committed d d'

  -- No delivery that could be sent has the id.
  abbrev pub IsGone : Type 0
  IsGone =
      (d : Delivery) (e : Event) (p : Endpoint)
      → σ.get Delivery w.committed.deliveries i ≡ some d
      → σ.get Event w.committed.events d.event_id ≡ some e
      → σ.get Endpoint w.committed.endpoints d.endpoint_id ≡ some p
      → ⊥

  -- the end of an attempt on a delivery that could be sent
  found-Ends :
      (d : Delivery) (e : Event) (p : Endpoint)
      → σ.get Delivery w.committed.deliveries i ≡ some d
      → σ.get Event w.committed.events d.event_id ≡ some e
      → σ.get Endpoint w.committed.endpoints d.endpoint_id ≡ some p
      → ((d' : Delivery) × Settles d d')
        ⊎ ((x : Error) × ((attempt s o i w).0 ≡ err x) × (x ≢ not_found))
  found-Ends d e p at_i at_e at_p =
      let same : d.id ≡ i = n.delivery_ids i d at_i in
      let keyed : d.endpoint_id ≡ p.id = sym (n.endpoint_ids d.endpoint_id p at_p) in
      let stored = ap (σ.get Delivery w.committed.deliveries) same ∙ at_i in
      elim (attempt-Ends s o w d e p stored at_e at_p keyed own) [
        | inl (d', returns, a) ↦ inl (
          d',
          (
            ap (λ j. (attempt s o j w).0) (sym same) ∙ returns,
            same,
            stored,
            subst (λ j. Attempted w.committed (attempt s o j w).1.committed d d') same a,
          ),
        )
        | inr (x, raises, other) ↦ inr (x, ap (λ j. (attempt s o j w).0) (sym same) ∙ raises, other)
      ]

  pub attempt-Settles :
      (d' : Delivery) → (attempt s o i w).0 ≡ ok d' → (d : Delivery) × Settles d d'
  attempt-Settles d' h =
      let (d, at_i, e, at_e, p, at_p) = attempt-found s o w i d' h in
      elim (found-Ends d e p at_i at_e at_p) [
        | inl (d'', settles) ↦ (d, subst (Settles d) (ok-injective (sym settles.0 ∙ h)) settles)
        | inr (x, raises, other) ↦ cc (raises, h)
      ]

  pub attempt-IsGone : (attempt s o i w).0 ≡ err not_found → IsGone
  attempt-IsGone h d e p at_i at_e at_p = elim (found-Ends d e p at_i at_e at_p) [
    | inl (d', settles) ↦ cc (settles.0, h)
    | inr (x, raises, other) ↦ absurd (other (cc (raises, h)))
  ]

  pub same_queues : queues after ≡ queues w
  same_queues = (attempt-IsOffline s o i).holds w

  -- A worker that dies after the commit still has its message open.
  pub attempt-LosesNone :
      (k : ℕ) (f : StreamFields)
      → IsOpen (ρ.message w.stream k) f
      → f.delivery_id ≡ i
      → LosesNone after
  attempt-LosesNone k f held names = elim (Result-cases (attempt s o i w).0) [
    | inr (x, raises) ↦
        let (undone, retries, stream) = raise_keeps s o i w x after (ap (λ r. (r, after)) raises) in
        rw (undone, retries, stream) n
    | inl (d', returns) ↦
        let (d, (same, id, stored, a)) = attempt-Settles d' returns in
        let open_after : IsOpen (ρ.message after.stream k) f =
          subst (λ (q : ρ.Stream × ρ.Retries). IsOpen (ρ.message q.0 k) f) (sym same_queues) held in
        NoneLost-Attempted w.committed after.committed d d' a w.stream after.stream w.retries
          after.retries stored n (λ live. on_stream k f open_after (names ∙ sym id))
          (λ j other h.
            subst (λ (q : ρ.Stream × ρ.Retries). IsTracked q.0 q.1 j) (sym same_queues) h)
  ]
