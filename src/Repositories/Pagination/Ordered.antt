-- ===== src/Repositories/Pagination/Ordered.antt =====
-- ORDER BY (created_at, id) of rows with distinct ids ascends strictly, so that the rows after a
-- row's own key are those that follow it.
use relay_webhooks.Prelude.{
  ℕ, zero, suc, ◌≡◌, ◌≢◌, ap, ◌∙◌, Bool, true, false, some, List, [], ◌∷◌, All, All-map,
  All-filter_by, arith, filter_by, filter_by-All', drop, get_elem?, get_elem-All, inl, inr,
  Bool-cases, subst,
}
use relay_webhooks.Repositories.Pagination.{precedes, insert_by_key, order_by_key, after}

pub precedes_trans :
    (a b c : ℕ × ℕ) → precedes a b ≡ true → precedes b c ≡ true → precedes a c ≡ true
precedes_trans (a, i) (b, j) (c, k) h h' = ground arith

precedes_total : (a b : ℕ × ℕ) → a.1 ≢ b.1 → precedes a b ≡ false → precedes b a ≡ true
precedes_total (a, i) (b, j) n h = ground arith

precedes_asym : (a b : ℕ × ℕ) → precedes a b ≡ true → precedes b a ≡ false
precedes_asym (a, i) (b, j) h = ground arith

precedes_irrefl : (a : ℕ × ℕ) → precedes a a ≡ false
precedes_irrefl (a, i) = ground arith

module _ {R : Type 0} (key : R → ℕ × ℕ) where
  abbrev pub Less : R → R → Type 0
  Less a b = precedes (key a) (key b) ≡ true

  abbrev pub Apart : R → R → Type 0
  Apart a b = (key a).1 ≢ (key b).1

  -- every row precedes all that follow it
  abbrev pub Ascends : List R → Type 0
  Ascends [] = Unit
  Ascends (r ∷ rs) = All (Less r) rs × Ascends rs

  -- no two rows have the same id
  abbrev pub AreApart : List R → Type 0
  AreApart [] = Unit
  AreApart (r ∷ rs) = All (Apart r) rs × AreApart rs

  insert-All {κ} :
      (P : R → Type κ) (r : R) (ys : List R) → P r → All P ys → All P (insert_by_key key r ys)
  unfolding insert_by_key
  insert-All P r [] h hs = (h, tt)
  insert-All P r (y ∷ ys) h hs = elim (Bool-cases (precedes (key r) (key y))) [
    | inl e ↦ rw e (h, hs)
    | inr e ↦ rw e (hs.0, insert-All P r ys h hs.1)
  ]

  pub order-All {κ} : (P : R → Type κ) (rs : List R) → All P rs → All P (order_by_key key rs)
  unfolding order_by_key
  order-All P [] h = tt
  order-All P (r ∷ rs) h = insert-All P r (order_by_key key rs) h.0 (order-All P rs h.1)

  insert-Ascends :
      (r : R) (ys : List R) → All (Apart r) ys → Ascends ys → Ascends (insert_by_key key r ys)
  unfolding insert_by_key
  insert-Ascends r [] apart h = (tt, tt)
  insert-Ascends r (y ∷ ys) apart h = elim (Bool-cases (precedes (key r) (key y))) [
    | inl e ↦ rw e ((e, All-map (λ z. precedes_trans (key r) (key y) (key z) e) ys h.0), h)
    | inr e ↦ rw e (
      insert-All (Less y) r ys (precedes_total (key r) (key y) apart.0 e) h.0,
      insert-Ascends r ys apart.1 h.1,
    )
  ]

  pub order-Ascends : (rs : List R) → AreApart rs → Ascends (order_by_key key rs)
  unfolding order_by_key
  order-Ascends [] h = tt
  order-Ascends (r ∷ rs) h =
      insert-Ascends r (order_by_key key rs) (order-All (Apart r) rs h.0) (order-Ascends rs h.1)

  pub filter-Ascends : (p : R → Bool) (rs : List R) → Ascends rs → Ascends (filter_by p rs)
  filter-Ascends p [] h = tt
  filter-Ascends p (r ∷ rs) h = elim (Bool-cases (p r)) [
    | inl e ↦ rw e (All-filter_by (Less r) p rs h.0, filter-Ascends p rs h.1)
    | inr e ↦ rw e (filter-Ascends p rs h.1)
  ]

  pub filter-AreApart : (p : R → Bool) (rs : List R) → AreApart rs → AreApart (filter_by p rs)
  filter-AreApart p [] h = tt
  filter-AreApart p (r ∷ rs) h = elim (Bool-cases (p r)) [
    | inl e ↦ rw e (All-filter_by (Apart r) p rs h.0, filter-AreApart p rs h.1)
    | inr e ↦ rw e (filter-AreApart p rs h.1)
  ]

  -- The rows after the key of the row at place `n` are those that follow it.
  pub after-drop :
      (n : ℕ) (ys : List R) (z : R)
      → Ascends ys
      → get_elem? ys n ≡ some z
      → filter_by (after key (some (key z))) ys ≡ drop (suc n) ys
  after-drop n [] z h e = cc
  after-drop zero (y ∷ ys) z h e =
      let same : y ≡ z = ground arith in
      rw (ap (λ r. precedes (key z) (key r)) same ∙ precedes_irrefl (key z))
        (filter_by-All' (after key (some (key z))) ys (subst (λ r. All (Less r) ys) same h.0))
  after-drop (suc n) (y ∷ ys) z h e =
      rw (precedes_asym (key y) (key z) (get_elem-All (Less y) ys n z h.0 e))
        (after-drop n ys z h.1 e)
