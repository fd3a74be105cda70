-- ===== src/Services/Metrics/Percentile.antt =====
-- What the percentile of a sample is.
use relay_webhooks.Prelude.{
  ℕ, zero, suc, ◌-◌, ◌*◌, ◌/◌, ◌≤◌, ◌<◌, ◌≡◌, refl, ◌∙◌, Bool, some, List, [], ◌∷◌, All, All-map,
  arith, length, filter_by, get_elem?, get_elem_lt, get_elem-All, leb, ltb, inl, inr, Bool-cases,
}
use relay_webhooks.Prelude.Result.{ok}
use relay_webhooks.Services.Metrics.{percentile, insert_sorted, sorted, least}

abbrev pub at_most : ℕ → List ℕ → ℕ
at_most v xs = length (filter_by (λ x. leb x v) xs)

abbrev pub below : ℕ → List ℕ → ℕ
below v xs = length (filter_by (λ x. ltb x v) xs)

abbrev IsAscending : List ℕ → Type 0
IsAscending [] = Unit
IsAscending (x ∷ xs) = All (λ y. x ≤ y) xs × IsAscending xs

insert-All : (P : ℕ → Type 0) (v : ℕ) (ys : List ℕ) → P v → All P ys → All P (insert_sorted v ys)
unfolding insert_sorted
insert-All P v [] h hs = (h, tt)
insert-All P v (y ∷ ys) h hs = elim (Bool-cases (leb v y)) [
  | inl e ↦ rw e (h, hs)
  | inr e ↦ rw e (hs.0, insert-All P v ys h hs.1)
]

insert-IsAscending : (v : ℕ) (ys : List ℕ) → IsAscending ys → IsAscending (insert_sorted v ys)
unfolding insert_sorted
insert-IsAscending v [] h = (tt, tt)
insert-IsAscending v (y ∷ ys) h = elim (Bool-cases (leb v y)) [
  | inl e ↦
      let small : v ≤ y = ground arith in rw e ((small, All-map (λ z h'. omega arith) ys h.0), h)
  | inr e ↦
      let small : y ≤ v = ground arith in
      rw e (insert-All (λ z. y ≤ z) v ys small h.0, insert-IsAscending v ys h.1)
]

sorted-IsAscending : (xs : List ℕ) → IsAscending (sorted xs)
unfolding sorted
sorted-IsAscending [] = tt
sorted-IsAscending (x ∷ xs) = insert-IsAscending x (sorted xs) (sorted-IsAscending xs)

-- sorting changes no count
count-insert :
    (p : ℕ → Bool) (v : ℕ) (ys : List ℕ)
    → length (filter_by p (insert_sorted v ys)) ≡ length (filter_by p (v ∷ ys))
unfolding insert_sorted
count-insert p v [] = refl
count-insert p v (y ∷ ys) = ground (arith, count-insert p v ys)

pub count-sorted :
    (p : ℕ → Bool) (xs : List ℕ) → length (filter_by p (sorted xs)) ≡ length (filter_by p xs)
unfolding sorted
count-sorted p [] = refl
count-sorted p (x ∷ xs) = count-insert p x (sorted xs) ∙ ground (arith, count-sorted p xs)

length-insert : (v : ℕ) (ys : List ℕ) → length (insert_sorted v ys) ≡ suc (length ys)
unfolding insert_sorted
length-insert v [] = refl
length-insert v (y ∷ ys) = ground (arith, length-insert v ys)

pub length-sorted : (xs : List ℕ) → length (sorted xs) ≡ length xs
unfolding sorted
length-sorted [] = refl
length-sorted (x ∷ xs) = omega (arith, length-insert x (sorted xs), length-sorted xs)

below_none : (v : ℕ) (ys : List ℕ) → All (λ y. v ≤ y) ys → below v ys ≡ 0
below_none v [] h = refl
below_none v (y ∷ ys) h = ground (arith, below_none v ys, h.0)

-- the value at a place of an ascending list
rank :
    (i : ℕ) (ys : List ℕ) (v : ℕ)
    → IsAscending ys
    → get_elem? ys i ≡ some v
    → (suc i ≤ at_most v ys) × (below v ys ≤ i)
rank i [] v h e = absurd (ground arith)
rank zero (y ∷ ys) v h e =
    let same : y ≡ v = ground arith in
    rw same (ground arith, ground (arith, below_none v ys (rw (← same) h.0)))
rank (suc i) (y ∷ ys) v h e =
    let small = get_elem-All (λ z. y ≤ z) ys i v h.0 e in
    let (more, fewer) = rank i ys v h.1 e in (ground arith, ground arith)

-- The 95th percentile of a sample that is not empty: it is found, more than 95 in 100 of the sample
-- are at most it, and at most 95 in 100 are less.
pub percentile-sorted :
    (xs : List ℕ)
    → 0 < length xs
    → (v : ℕ) × (percentile (sorted xs) 95 100 ≡ ok v)
      × (95 * length xs < 100 * at_most v xs)
      × (100 * below v xs ≤ 95 * length xs)
unfolding percentile
percentile-sorted xs some_sample =
    let n = length (sorted xs) in
    let index = least (n - 1) (n * 95 / 100) in
    let same = length-sorted xs in
    let inside : index < n = ground (arith, length-sorted xs) in
    let (v, at_index) = get_elem_lt index (sorted xs) inside in
    let (more, fewer) = rank index (sorted xs) v (sorted-IsAscending xs) at_index in
    let high = count-sorted (λ x. leb x v) xs in
    let low = count-sorted (λ x. ltb x v) xs in
    (v, rw at_index refl, ground (arith, same, high), ground (arith, same, low))
