-- ===== src/Prelude/Slices.antt =====
-- Lemmas on slices, on indexing and on filters.
use Prim.Native.Nat.{ℕ, zero, suc, ◌-◌, ◌≤◌, ◌<◌}
use mathlib.Core.Path.{◌≡◌, refl, ap, ◌∙◌, subst}
use mathlib.Core.Bool.{Bool, true}
use mathlib.Core.Logic.{inl, inr}
use mathlib.Core.Option.{some}
use mathlib.Core.List.{List, [], ◌∷◌, ◌++◌, map}
use native.Mathlib.Omega.{arith}
use relay_webhooks.Prelude.Tests.{ltb, Bool-cases}
use relay_webhooks.Prelude.Lists.{length, take, drop, last, get_elem?, filter_by, All}

module _ {ℓ} {A : Type ℓ} where
  pub take-take-suc : (n : ℕ) (xs : List A) → take n (take (suc n) xs) ≡ take n xs
  take-take-suc zero xs = refl
  take-take-suc (suc n) [] = refl
  take-take-suc (suc n) (x ∷ xs) = ap (λ r. x ∷ r) (take-take-suc n xs)

  pub take_all : (n : ℕ) (xs : List A) → length xs ≤ n → take n xs ≡ xs
  take_all zero [] h = refl
  take_all zero (x ∷ xs) h = absurd (omega arith)
  take_all (suc n) [] h = refl
  take_all (suc n) (x ∷ xs) h = ap (λ r. x ∷ r) (take_all n xs (omega arith))

  pub take-append-drop : (n : ℕ) (xs : List A) → take n xs ++ drop n xs ≡ xs
  take-append-drop zero xs = refl
  take-append-drop (suc n) [] = refl
  take-append-drop (suc n) (x ∷ xs) = ap (λ r. x ∷ r) (take-append-drop n xs)

  pub length-drop : (n : ℕ) (xs : List A) → length (drop n xs) ≡ length xs - n
  length-drop zero xs = omega arith
  length-drop (suc n) [] = omega arith
  length-drop (suc n) (x ∷ xs) = length-drop n xs ∙ omega arith

  -- one more than the limit is fetched exactly if the list is longer than the limit
  pub length-take-suc : (n : ℕ) (xs : List A) → ltb n (length (take (suc n) xs)) ≡ ltb n (length xs)
  length-take-suc zero [] = refl
  length-take-suc zero (x ∷ xs) = ground arith
  length-take-suc (suc n) [] = refl
  length-take-suc (suc n) (x ∷ xs) = ground (arith, length-take-suc n xs)

  pub get_elem_lt : (n : ℕ) (xs : List A) → n < length xs → (x : A) × (get_elem? xs n ≡ some x)
  get_elem_lt n [] h = absurd (omega arith)
  get_elem_lt zero (x ∷ xs) h = (x, refl)
  get_elem_lt (suc n) (x ∷ xs) h = get_elem_lt n xs (omega arith)

  pub last-take :
      (n : ℕ) (xs : List A) (x : A) → get_elem? xs n ≡ some x → last (take (suc n) xs) ≡ some x
  last-take n [] x h = cc
  last-take zero (y ∷ ys) x h = h
  last-take (suc n) (y ∷ []) x h = cc
  last-take (suc n) (y ∷ z ∷ zs) x h = last-take n (z ∷ zs) x h

  pub get_elem-All {κ} :
      (P : A → Type κ) (xs : List A) (n : ℕ) (x : A) → All P xs → get_elem? xs n ≡ some x → P x
  get_elem-All P [] n x h e = absurd (ground arith)
  get_elem-All P (y ∷ ys) zero x h e = let same : y ≡ x = ground arith in subst P same h.0
  get_elem-All P (y ∷ ys) (suc n) x h e = get_elem-All P ys n x h.1 e

  pub filter_by-All' : (p : A → Bool) (xs : List A) → All (λ x. p x ≡ true) xs → filter_by p xs ≡ xs
  filter_by-All' p [] h = refl
  filter_by-All' p (x ∷ xs) h = rw (h.0, filter_by-All' p xs h.1) refl

  -- the weaker of two tests is not needed
  pub filter_by_stronger :
      (p q : A → Bool)
      → ((x : A) → p x ≡ true → q x ≡ true)
      → (xs : List A) → filter_by p (filter_by q xs) ≡ filter_by p xs
  filter_by_stronger p q h [] = refl
  filter_by_stronger p q h (x ∷ xs) = ground (arith, filter_by_stronger p q h xs, h x)

  pub map-append {κ} :
      {B : Type κ} (f : A → B) (xs ys : List A) → map f (xs ++ ys) ≡ map f xs ++ map f ys
  map-append f [] ys = refl
  map-append f (x ∷ xs) ys = ap (λ r. f x ∷ r) (map-append f xs ys)

  -- what a filter keeps passes its test
  pub filter_by-All : (p : A → Bool) (xs : List A) → All (λ x. p x ≡ true) (filter_by p xs)
  filter_by-All p [] = tt
  filter_by-All p (x ∷ xs) = elim (Bool-cases (p x)) [
    | inl e ↦ rw e (e, filter_by-All p xs)
    | inr e ↦ rw e (filter_by-All p xs)
  ]

  -- a weaker test keeps no fewer
  pub length-filter_mono :
      (p q : A → Bool)
      → ((x : A) → p x ≡ true → q x ≡ true)
      → (xs : List A) → length (filter_by p xs) ≤ length (filter_by q xs)
  length-filter_mono p q h [] = omega arith
  length-filter_mono p q h (x ∷ xs) = ground (arith, length-filter_mono p q h xs, h x)

  pub length-filter-le : (p : A → Bool) (xs : List A) → length (filter_by p xs) ≤ length xs
  length-filter-le p [] = omega arith
  length-filter-le p (x ∷ xs) = ground (arith, length-filter-le p xs)

pub map-All {ℓ κ μ} :
    {A : Type ℓ} {B : Type μ} (f : A → B) (P : B → Type κ) (xs : List A)
    → All (λ x. P (f x)) xs
    → All P (map f xs)
map-All f P [] h = tt
map-All f P (x ∷ xs) h = (h.0, map-All f P xs h.1)

pub All-of_map {ℓ κ μ} :
    {A : Type ℓ} {B : Type μ} (f : A → B) (P : B → Type κ) (xs : List A)
    → All P (map f xs)
    → All (λ x. P (f x)) xs
All-of_map f P [] h = tt
All-of_map f P (x ∷ xs) h = (h.0, All-of_map f P xs h.1)

pub length-map {ℓ μ} :
    {A : Type ℓ} {B : Type μ} (f : A → B) (xs : List A) → length (map f xs) ≡ length xs
length-map f [] = refl
length-map f (x ∷ xs) = ap suc (length-map f xs)
