-- ===== src/Platform/Storage.antt =====
-- A database session of SQLAlchemy over PostgreSQL. A table maps primary keys to rows.
pub mod Laws
use mathlib.Core.List.{Memᴰ}
use relay_webhooks.Prelude.{
  ℕ, ◌==◌, ◌≡◌, ◌≢◌, Option, none, some, List, [], ◌∷◌, All, if◌then◌else◌,
}

abbrev pub HaveDistinctKeys : {R : Type 0} → List (ℕ × R) → Type 0
HaveDistinctKeys [] = Unit
HaveDistinctKeys {R} (p ∷ ps) = All (λ (q : ℕ × R). p.0 ≢ q.0) ps × HaveDistinctKeys ps

pub record Storage : Type 1 where
  pub Table : Type 0 → Type 0
  -- `session.get(Model, key)`
  pub get : (R : Type 0) → Table R → ℕ → Option R
  -- the flush of a new row, or of a row whose columns were assigned
  pub put : (R : Type 0) → Table R → ℕ → R → Table R
  -- `session.delete(model)`
  pub remove : (R : Type 0) → Table R → ℕ → Table R
  -- `SELECT *`, each row with its key
  pub rows : (R : Type 0) → Table R → List (ℕ × R)
  -- `gen_random_uuid()`
  pub fresh : (R : Type 0) → Table R → ℕ
  pub get_put :
      (R : Type 0) (t : Table R) (k j : ℕ) (r : R)
      → get R (put R t k r) j ≡ (if k == j then some r else get R t j)
  pub get_remove :
      (R : Type 0) (t : Table R) (k j : ℕ)
      → get R (remove R t k) j ≡ (if k == j then none else get R t j)
  pub get_fresh : (R : Type 0) (t : Table R) → get R t (fresh R t) ≡ none
  pub rows_get : (R : Type 0) (t : Table R) → All (λ (p : ℕ × R). get R t p.0 ≡ some p.1) (rows R t)
  pub rows_distinct : (R : Type 0) (t : Table R) → HaveDistinctKeys (rows R t)
  pub get_rows :
      (R : Type 0) (t : Table R) (k : ℕ) (r : R) → get R t k ≡ some r → Memᴰ (k, r) (rows R t)
