-- ===== src/Services/Metrics/Counts.antt =====
-- How many elements of a list have a property, as a relation.
use relay_webhooks.Prelude.{
  ℕ, suc, ◌≡◌, ◌↔◌, ◌&&◌, refl, Bool, true, false, Bool-cases, inl, inr, List, [], ◌∷◌, length,
  filter_by,
}

pub data Counts {A : Type 0} (P : A → Type 0) : List A → ℕ → Type 0 where
  none_left : Counts P [] 0
  hit : {x : A} {xs : List A} {n : ℕ} → P x → Counts P xs n → Counts P (x ∷ xs) (suc n)
  miss : {x : A} {xs : List A} {n : ℕ} → ¬ P x → Counts P xs n → Counts P (x ∷ xs) n

-- A filter by a test of the property keeps as many elements as have it.
pub Counts-filter :
    {A : Type 0} (P : A → Type 0) (p : A → Bool)
    → ((a : A) → (p a ≡ true) ↔ P a)
    → (xs : List A) → Counts P xs (length (filter_by p xs))
Counts-filter P p test [] = none_left
Counts-filter P p test (x ∷ xs) = elim (Bool-cases (p x)) [
  | inl h ↦ rw h (hit ((test x).0 h) (Counts-filter P p test xs))
  | inr h ↦ rw h (miss (λ has. cc (h, (test x).1 has)) (Counts-filter P p test xs))
]

pub and_iff :
    {P Q : Type 0} (b c : Bool) → (b ≡ true) ↔ P → (c ≡ true) ↔ Q → ((b && c) ≡ true) ↔ (P × Q)
and_iff true c p q = (λ h. (p.0 refl, q.0 h), λ h. q.1 h.1)
and_iff false c p q = (λ h. cc, λ h. p.1 h.0)
