-- ===== src/Workers/Pipeline/Withdrawing.antt =====
-- The deletion of an endpoint, whose deliveries go with it, loses no other delivery.
use mathlib.Core.List.{Memᴰ}
use relay_webhooks.Prelude.{
  ℕ, ◌==◌, ◌≡◌, arith, Bool, Bool-cases, inl, inr, Option-cases, some, List, [], ◌∷◌, true, none,
  ap, sym, ◌∙◌, if◌then◌else◌,
}
use relay_webhooks.Platform.Storage.{Storage}
use relay_webhooks.Platform.Redis.{Redis}
use relay_webhooks.Domain.Deliveries.{Delivery}
use relay_webhooks.Domain.Endpoints.{Endpoint}
use relay_webhooks.Repositories.Endpoints as Repository
use relay_webhooks.Repositories.Endpoints.{remove_where, cascade}
use relay_webhooks.Services.Endpoints.{Urls, of_tenant, delete}
use relay_webhooks.Workers.Pipeline.Steps.{NoneLost, LosesNone}
use relay_webhooks.World.{World, Db, with_uow, rollback, commit}

module _ ⦃σ : Storage⦄ {R : Type 0} where
  remove-before :
      (t : σ.Table R) (k j : ℕ) (r : R) → σ.get R (σ.remove R t k) j ≡ some r → σ.get R t j ≡ some r
  remove-before t k j r h = ground (arith, h, σ.get_remove R t k j)

  remove_where-before :
      (p : R → Bool) (rows : List (ℕ × R)) (t : σ.Table R) (j : ℕ) (r : R)
      → σ.get R (remove_where R p rows t) j ≡ some r
      → σ.get R t j ≡ some r
  unfolding remove_where
  remove_where-before p [] t j r h = h
  remove_where-before p ((k, q) ∷ rest) t j r h = elim (Bool-cases (p q)) [
    | inl goes ↦
        remove-before t k j r (remove_where-before p rest (σ.remove R t k) j r (rw goes at h))
    | inr stays ↦ remove_where-before p rest t j r (rw stays at h)
  ]

  remove-gone : (t : σ.Table R) (k j : ℕ) → σ.get R t j ≡ none → σ.get R (σ.remove R t k) j ≡ none
  remove-gone t k j h = ground (arith, h, σ.get_remove R t k j)

  remove_where-stays :
      (p : R → Bool) (rows : List (ℕ × R)) (t : σ.Table R) (j : ℕ)
      → σ.get R t j ≡ none
      → σ.get R (remove_where R p rows t) j ≡ none
  unfolding remove_where
  remove_where-stays p [] t j h = h
  remove_where-stays p ((k, q) ∷ rest) t j h = elim (Bool-cases (p q)) [
    | inl goes ↦ rw goes (remove_where-stays p rest (σ.remove R t k) j (remove-gone t k j h))
    | inr stays ↦ rw stays (remove_where-stays p rest t j h)
  ]

  removed : (t : σ.Table R) (k : ℕ) → σ.get R (σ.remove R t k) k ≡ none
  removed t k = ground (arith, σ.get_remove R t k k)

  -- A listed row that is found is removed.
  remove_where-gone :
      (p : R → Bool) (rows : List (ℕ × R)) (t : σ.Table R) (j : ℕ) (r : R)
      → Memᴰ (j, r) rows
      → p r ≡ true
      → σ.get R (remove_where R p rows t) j ≡ none
  unfolding remove_where
  remove_where-gone p [] t j r m found = elim m [ ]
  remove_where-gone p ((k, q) ∷ rest) t j r (Memᴰ.head e) found =
      let key : j ≡ k = ap (λ (x : ℕ × R). x.0) e in
      let row : p q ≡ true = ap (λ (x : ℕ × R). p x.1) (sym e) ∙ found in
      rw row (
        remove_where-stays p rest (σ.remove R t k) j
          (ap (σ.get R (σ.remove R t k)) key ∙ removed t k))
  remove_where-gone p ((k, q) ∷ rest) t j r (Memᴰ.tail m) found =
      remove_where-gone p rest (if p q then σ.remove R t k else t) j r m found

module _ ⦃σ : Storage⦄ ⦃ρ : Redis⦄ where
  cascade-before :
      (db : Db) (k i : ℕ) (d : Delivery)
      → σ.get Delivery (cascade k db).deliveries i ≡ some d
      → σ.get Delivery db.deliveries i ≡ some d
  unfolding cascade
  cascade-before db k i d =
      remove_where-before (λ (c : Delivery). c.endpoint_id == k) (σ.rows Delivery db.deliveries)
        db.deliveries i d

  -- A delivery of the endpoint is gone.
  cascade-gone :
      (db : Db) (k i : ℕ) (d : Delivery)
      → σ.get Delivery db.deliveries i ≡ some d
      → (d.endpoint_id == k) ≡ true
      → σ.get Delivery (cascade k db).deliveries i ≡ none
  unfolding cascade
  cascade-gone db k i d at_i its =
      remove_where-gone (λ (c : Delivery). c.endpoint_id == k) (σ.rows Delivery db.deliveries)
        db.deliveries i d (σ.get_rows Delivery db.deliveries i d at_i) its

  cascade-NoneLost :
      (db : Db) (s : ρ.Stream) (z : ρ.Retries) (k : ℕ)
      → NoneLost db s z
      → NoneLost (cascade k (record db { endpoints = σ.remove Endpoint db.endpoints k })) s z
  unfolding cascade
  cascade-NoneLost db s z k n =
      let db' : Db = record db { endpoints = σ.remove Endpoint db.endpoints k } in
      record {
        delivery_ids = λ i d at_i. n.delivery_ids i d (cascade-before db' k i d at_i);
        endpoint_ids = λ j p at_j. n.endpoint_ids j p (remove-before db.endpoints k j p at_j);
        event_ids = n.event_ids;
        parents = λ i d at_i.
            let before = cascade-before db' k i d at_i in
            let (event, (p, at_p)) = n.parents i d before in
            elim (Bool-cases (d.endpoint_id == k)) [
              | inl its ↦ cc (cascade-gone db' k i d before its, at_i)
              | inr other ↦ (
                event,
                (p, ground (arith, at_p, σ.get_remove Endpoint db.endpoints k d.endpoint_id)),
              )
            ];
        tracked = λ i d at_i live. n.tracked i d (cascade-before db' k i d at_i) live;
      }

  pub delete-LosesNone :
      (u : Urls) (w : World) (k tenant_id : ℕ) → LosesNone w → LosesNone (delete u k tenant_id w).1
  unfolding delete with_uow rollback commit Repository.get Repository.delete
  delete-LosesNone u w k tenant_id n =
      elim (Option-cases (σ.get Endpoint w.committed.endpoints k)) [
        | inl gone ↦ rw gone n
        | inr (p, found) ↦ elim (Option-cases (of_tenant tenant_id (some p))) [
          | inl foreign ↦ rw (found, foreign) n
          | inr (q, own) ↦
              rw (found, own, found) (cascade-NoneLost w.committed w.stream w.retries k n)
        ]
      ]
