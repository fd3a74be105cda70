-- ===== src/Examples/Tables.antt =====
-- A table as the list of its rows, each at the place of its key.
use mathlib.Core.List.{Memᴰ}
use relay_webhooks.Prelude.{
  ℕ, zero, suc, ◌+◌, ◌==◌, ◌≤◌, ◌≡◌, refl, Option, none, some, List, [], ◌∷◌, All, All-map, arith,
  length, if◌then◌else◌, ap, ◌∙◌, subst,
}
use relay_webhooks.Platform.Storage.{Storage, HaveDistinctKeys}

abbrev pub Rows : Type 0 → Type 0
Rows R = List (Option R)

module _ {R : Type 0} where
  abbrev pub row : Rows R → ℕ → Option R
  row [] k = none
  row (r ∷ t) zero = r
  row (r ∷ t) (suc k) = row t k

  abbrev pub write : Rows R → ℕ → R → Rows R
  write [] zero x = some x ∷ []
  write [] (suc k) x = none ∷ write [] k x
  write (r ∷ t) zero x = some x ∷ t
  write (r ∷ t) (suc k) x = r ∷ write t k x

  abbrev pub erase : Rows R → ℕ → Rows R
  erase [] k = []
  erase (r ∷ t) zero = none ∷ t
  erase (r ∷ t) (suc k) = r ∷ erase t k

  abbrev pub keep : ℕ → Option R → List (ℕ × R) → List (ℕ × R)
  keep k none rest = rest
  keep k (some r) rest = (k, r) ∷ rest

  abbrev pub listed : ℕ → Rows R → List (ℕ × R)
  listed k [] = []
  listed k (r ∷ t) = keep k r (listed (suc k) t)

  pub row-write :
      (t : Rows R) (k j : ℕ) (x : R) → row (write t k x) j ≡ (if k == j then some x else row t j)
  row-write [] zero zero x = refl
  row-write [] zero (suc j) x = ground arith
  row-write [] (suc k) zero x = ground arith
  row-write [] (suc k) (suc j) x = ground (arith, row-write [] k j x)
  row-write (r ∷ t) zero zero x = refl
  row-write (r ∷ t) zero (suc j) x = ground arith
  row-write (r ∷ t) (suc k) zero x = ground arith
  row-write (r ∷ t) (suc k) (suc j) x = ground (arith, row-write t k j x)

  pub row-erase : (t : Rows R) (k j : ℕ) → row (erase t k) j ≡ (if k == j then none else row t j)
  row-erase [] k j = ground arith
  row-erase (r ∷ t) zero zero = refl
  row-erase (r ∷ t) zero (suc j) = ground arith
  row-erase (r ∷ t) (suc k) zero = ground arith
  row-erase (r ∷ t) (suc k) (suc j) = ground (arith, row-erase t k j)

  pub row-length : (t : Rows R) → row t (length t) ≡ none
  row-length [] = refl
  row-length (r ∷ t) = row-length t

  -- the row at place `j`, counted from `k`
  abbrev row_from : ℕ → Rows R → ℕ → Option R
  row_from k t j = if k == j then row t 0 else none

  listed-row :
      (k : ℕ) (t u : Rows R)
      → ((j : ℕ) → row u (k + j) ≡ row t j)
      → All (λ (p : ℕ × R). row u p.0 ≡ some p.1) (listed k t)
  listed-row k [] u h = tt
  listed-row k (none ∷ t) u h = listed-row (suc k) t u (λ j. ap (row u) (omega arith) ∙ h (suc j))
  listed-row k (some r ∷ t) u h = (
    ap (row u) (omega arith) ∙ h 0,
    listed-row (suc k) t u (λ j. ap (row u) (omega arith) ∙ h (suc j)),
  )

  pub rows_row : (t : Rows R) → All (λ (p : ℕ × R). row t p.0 ≡ some p.1) (listed 0 t)
  rows_row t = listed-row 0 t t (λ j. ap (row t) (omega arith))

  mem-keep :
      (k : ℕ) (r : Option R) (rest : List (ℕ × R)) (p : ℕ × R)
      → Memᴰ p rest
      → Memᴰ p (keep k r rest)
  mem-keep k none rest p m = m
  mem-keep k (some r) rest p m = Memᴰ.tail m

  mem-listed :
      (k : ℕ) (t : Rows R) (j : ℕ) (x : R) → row t j ≡ some x → Memᴰ (k + j, x) (listed k t)
  mem-listed k [] j x h = cc
  mem-listed k (none ∷ t) zero x h = cc
  mem-listed k (some r ∷ t) zero x h = Memᴰ.head (ground arith)
  mem-listed k (r ∷ t) (suc j) x h =
      mem-keep k r (listed (suc k) t) (k + suc j, x)
        (subst (λ i. Memᴰ (i, x) (listed (suc k) t)) (omega arith) (mem-listed (suc k) t j x h))

  pub row_listed : (t : Rows R) (k : ℕ) (x : R) → row t k ≡ some x → Memᴰ (k, x) (listed 0 t)
  row_listed t k x h = subst (λ i. Memᴰ (i, x) (listed 0 t)) (omega arith) (mem-listed 0 t k x h)

module _ {R : Type 0} where
  keep-All :
      (P : ℕ × R → Type 0) (k : ℕ) (r : Option R) (rest : List (ℕ × R))
      → ((x : R) → P (k, x))
      → All P rest
      → All P (keep k r rest)
  keep-All P k none rest h hs = hs
  keep-All P k (some x) rest h hs = (h x, hs)

  listed-ge : (k : ℕ) (t : Rows R) → All (λ (p : ℕ × R). k ≤ p.0) (listed k t)
  listed-ge k [] = tt
  listed-ge k (r ∷ t) =
      keep-All (λ (p : ℕ × R). k ≤ p.0) k r (listed (suc k) t) (λ x. omega arith)
        (All-map (λ p h. omega arith) (listed (suc k) t) (listed-ge (suc k) t))

  pub listed_distinct : (k : ℕ) (t : Rows R) → HaveDistinctKeys (listed k t)
  listed_distinct k [] = tt
  listed_distinct k (none ∷ t) = listed_distinct (suc k) t
  listed_distinct k (some x ∷ t) = (
    All-map (λ p h. omega arith) (listed (suc k) t) (listed-ge (suc k) t),
    listed_distinct (suc k) t,
  )

instance abbrev pub list_storage : Storage
list_storage = record {
  Table = Rows;
  get = λ R. row;
  put = λ R. write;
  remove = λ R. erase;
  rows = λ R. listed 0;
  fresh = λ R. length;
  get_put = λ R. row-write;
  get_remove = λ R. row-erase;
  get_fresh = λ R. row-length;
  rows_get = λ R. rows_row;
  rows_distinct = λ R. listed_distinct 0;
  get_rows = λ R. row_listed;
}
