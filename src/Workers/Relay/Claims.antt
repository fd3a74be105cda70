-- ===== src/Workers/Relay/Claims.antt =====
-- The claim of a batch of outbox entries.
use relay_webhooks.Prelude.{
  ℕ, zero, suc, ◌==◌, ◌≡◌, ◌∙◌, refl, ap, sym, arith, Bool, some, some-injective, List, [], ◌∷◌,
  All, All-filter_by, take, map, Bool-cases, inl, inr, leb,
}
use relay_webhooks.Prelude.Result.{ok}
use relay_webhooks.Platform.Storage.{Storage}
use relay_webhooks.Platform.Storage.Laws.{get-put_eq}
use relay_webhooks.Platform.Redis.{Redis}
use relay_webhooks.Domain.Records.{OutboxEntry}
use relay_webhooks.World.{World}
use relay_webhooks.Repositories.Outbox.{write, claimed, claim_all, due, order_by_age, insert_by_age}

take-All {κ} : {A : Type 0} (P : A → Type κ) (n : ℕ) (xs : List A) → All P xs → All P (take n xs)
take-All P zero xs h = tt
take-All P (suc n) [] h = tt
take-All P (suc n) (x ∷ xs) h = (h.0, take-All P n xs h.1)

insert-All {κ} :
    (P : OutboxEntry → Type κ) (e : OutboxEntry) (xs : List OutboxEntry)
    → P e
    → All P xs
    → All P (insert_by_age e xs)
unfolding insert_by_age
insert-All P e [] h hs = (h, tt)
insert-All P e (x ∷ xs) h hs = elim (Bool-cases (leb e.created_at x.created_at)) [
  | inl b ↦ rw b (h, hs)
  | inr b ↦ rw b (hs.0, insert-All P e xs h hs.1)
]

order-All {κ} :
    (P : OutboxEntry → Type κ) (xs : List OutboxEntry) → All P xs → All P (order_by_age xs)
unfolding order_by_age
order-All P [] h = tt
order-All P (x ∷ xs) h = insert-All P x (order_by_age xs) h.0 (order-All P xs h.1)

module _ ⦃σ : Storage⦄ ⦃ρ : Redis⦄ where
  -- each entry stands under its own id
  abbrev pub OutboxIsKeyed : σ.Table OutboxEntry → Type 0
  OutboxIsKeyed t = All (λ (p : ℕ × OutboxEntry). p.1.id ≡ p.0) (σ.rows OutboxEntry t)

  abbrev pub IsStored : σ.Table OutboxEntry → OutboxEntry → Type 0
  IsStored t e = σ.get OutboxEntry t e.id ≡ some e

  values-IsStored :
      (t : σ.Table OutboxEntry) (ps : List (ℕ × OutboxEntry))
      → All (λ (p : ℕ × OutboxEntry). σ.get OutboxEntry t p.0 ≡ some p.1) ps
      → All (λ (p : ℕ × OutboxEntry). p.1.id ≡ p.0) ps
      → All (IsStored t) (map (λ (p : ℕ × OutboxEntry). p.1) ps)
  values-IsStored t [] h keyed = tt
  values-IsStored t (p ∷ ps) h keyed =
      (ap (σ.get OutboxEntry t) keyed.0 ∙ h.0, values-IsStored t ps h.1 keyed.1)

  -- What is due stands in the table.
  pub due-IsStored :
      (locked : ℕ → Bool) (limit : ℕ) (w : World)
      → OutboxIsKeyed w.session.outbox
      → All (IsStored w.session.outbox) (due locked limit w)
  unfolding due
  due-IsStored locked limit w keyed = take-All (IsStored w.session.outbox) limit _ (
      order-All (IsStored w.session.outbox) _ (
        All-filter_by (IsStored w.session.outbox) _ _ (
          values-IsStored w.session.outbox (σ.rows OutboxEntry w.session.outbox)
            (σ.rows_get OutboxEntry w.session.outbox) keyed)))

  abbrev pub with_outbox : σ.Table OutboxEntry → World → World
  with_outbox t w = record w { session = record w.session { outbox = t } }

  -- the table after the claims
  unfoldable pub claimed_table : ℕ → List OutboxEntry → σ.Table OutboxEntry → σ.Table OutboxEntry
  claimed_table now [] t = t
  claimed_table now (e ∷ rows) t = claimed_table now rows (σ.put OutboxEntry t e.id (claimed now e))

  -- A claim changes the outbox alone, and returns the entries as it wrote them.
  pub claim_all_lem :
      (now : ℕ) (rows : List OutboxEntry) (w : World)
      → claim_all now rows w
        ≡ (ok (map (claimed now) rows), with_outbox (claimed_table now rows w.session.outbox) w)
  unfolding claim_all claimed_table write claimed
  claim_all_lem now [] w = refl
  claim_all_lem now (e ∷ rows) w = rw (claim_all_lem now rows (write (claimed now e) w)) refl

  -- An entry that is claimed stays claimed while entries of the same table are.
  claimed-stays :
      (now : ℕ) (t0 : σ.Table OutboxEntry) (r : OutboxEntry) (rows : List OutboxEntry)
      (t : σ.Table OutboxEntry)
      → IsStored t0 r
      → All (IsStored t0) rows
      → σ.get OutboxEntry t r.id ≡ some (claimed now r)
      → σ.get OutboxEntry (claimed_table now rows t) r.id ≡ some (claimed now r)
  unfolding claimed_table
  claimed-stays now t0 r [] t stored all h = h
  claimed-stays now t0 r (e ∷ rows) t stored all h =
      let t' = σ.put OutboxEntry t e.id (claimed now e) in
      claimed-stays now t0 r rows t' stored all.1 (elim (Bool-cases (e.id == r.id)) [
        | inr other ↦ σ.get_put OutboxEntry t e.id r.id (claimed now e) ∙ rw other h
        | inl same ↦
            let ids : e.id ≡ r.id = ground arith in
            let twice : some e ≡ some r = sym all.0 ∙ ap (σ.get OutboxEntry t0) ids ∙ stored in
            σ.get_put OutboxEntry t e.id r.id (claimed now e)
            ∙ rw same (ap some (ap (claimed now) (some-injective twice)))
      ])

  -- Every entry of a claim is claimed at its end.
  pub claims-done :
      (now : ℕ) (t0 : σ.Table OutboxEntry) (rows : List OutboxEntry) (t : σ.Table OutboxEntry)
      → All (IsStored t0) rows
      → All (λ r. σ.get OutboxEntry (claimed_table now rows t) r.id ≡ some (claimed now r)) rows
  unfolding claimed_table
  claims-done now t0 [] t all = tt
  claims-done now t0 (e ∷ rows) t all =
      let t' = σ.put OutboxEntry t e.id (claimed now e) in
      (
        claimed-stays now t0 e rows t' all.0 all.1 (get-put_eq t e.id e.id (claimed now e) refl),
        claims-done now t0 rows t' all.1,
      )
