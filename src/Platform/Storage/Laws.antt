-- ===== src/Platform/Storage/Laws.antt =====
-- Consequences of the laws of a table.
use relay_webhooks.Prelude.{ℕ, ◌≡◌, ◌≢◌, ◌∙◌, some, arith}
use relay_webhooks.Platform.Storage.{Storage}

module _ ⦃σ : Storage⦄ {R : Type 0} (t : σ.Table R) (k j : ℕ) where
  pub get-put_eq : (r : R) → k ≡ j → σ.get R (σ.put R t k r) j ≡ some r
  get-put_eq r e = σ.get_put R t k j r ∙ ground arith

  pub get-put_ne : (r : R) → k ≢ j → σ.get R (σ.put R t k r) j ≡ σ.get R t j
  get-put_ne r n = σ.get_put R t k j r ∙ ground arith

module _ ⦃σ : Storage⦄ {R : Type 0} (t : σ.Table R) (j : ℕ) where
  -- A row that is written under a fresh key leaves the others alone.
  pub get-put_fresh :
      (r x : R) → σ.get R t j ≡ some x → σ.get R (σ.put R t (σ.fresh R t) r) j ≡ some x
  get-put_fresh r x h = σ.get_put R t (σ.fresh R t) j r ∙ ground (arith, σ.get_fresh R t)
