-- ===== src/Services/Attempt/Budget.antt =====
-- The retry budget: no delivery is sent more often than the settings allow.
use relay_webhooks.Prelude.{
  ℕ, ◌+◌, ◌*◌, ◌≤◌, ◌<◌, ◌≡◌, refl, ap, ◌∙◌, arith, Option, some, none, leb, Bool-cases, inl, inr,
}
use relay_webhooks.Prelude.Result.{Result, ok}
use relay_webhooks.Platform.Storage.{Storage}
use relay_webhooks.Platform.Storage.Laws.{get-put_eq}
use relay_webhooks.Platform.Redis.{Redis}
use relay_webhooks.World.{World}
use relay_webhooks.Repositories.Deliveries
use relay_webhooks.Domain.Deliveries.{Delivery, DeliveryState, pending, delivered, retrying, dead}
use relay_webhooks.Domain.Deliveries.Backoff.{
  IsUniform, backoff_bound, backoff_bound-le-cap, default_base_seconds, default_cap_seconds, second,
}
use relay_webhooks.Infra.HttpSender.{OutboundHttpResult, succeeded}
use relay_webhooks.Settings.{Settings}
use relay_webhooks.Services.Attempt.{Outside, is_exhausted, settle}
use relay_webhooks.Services.Attempt.Outcome.{settled, settled_id, settle_lem}

-- when a retry is due: at most a minute from now
abbrev IsSoon : ℕ → Option ℕ → Type 0
IsSoon now none = ⊥
IsSoon now (some t) = (now ≤ t) × (t ≤ now + 60 * second)

-- A delivery that is still to be sent has attempts left, and a retry is due within a minute of the
-- last attempt; a dead one has used up the budget exactly.
abbrev pub IsBudgeted : Settings → ℕ → DeliveryState → ℕ → Option ℕ → Type 0
IsBudgeted s now pending count next = (count < s.delivery_max_attempts) × (next ≡ none)
IsBudgeted s now retrying count next = (count < s.delivery_max_attempts) × IsSoon now next
IsBudgeted s now delivered count next = (count ≤ s.delivery_max_attempts) × (next ≡ none)
IsBudgeted s now dead count next = (count ≡ s.delivery_max_attempts) × (next ≡ none)

settled-IsBudgeted :
    (s : Settings) (o : Outside) (d : Delivery) (result : OutboundHttpResult) (now : ℕ)
    → IsUniform o.uniform
    → d.attempt_count < s.delivery_max_attempts
    → let d' = settled s o d result now in
      IsBudgeted s now d'.state d'.attempt_count d'.next_retry_at
      × (d'.attempt_count ≡ d.attempt_count + 1)
unfolding settled is_exhausted
settled-IsBudgeted s o d result now uniform left =
    let n = backoff_bound d.attempt_count default_base_seconds default_cap_seconds in
    let bounds = uniform 0 n (omega arith) in
    let cap = backoff_bound-le-cap d.attempt_count default_base_seconds default_cap_seconds in
    elim (Bool-cases (succeeded result)) [
      | inl good ↦ rw good ((omega arith, refl), refl)
      | inr bad ↦ elim (Bool-cases (leb s.delivery_max_attempts (d.attempt_count + 1))) [
        | inl last ↦ rw (bad, last) ((ground arith, refl), refl)
        | inr more ↦
            rw (bad, more) ((ground arith, (omega arith, omega (arith, bounds, cap))), refl)
      ]
    ]

-- A delivery with attempts left that an attempt settles: the row counts one attempt more, and is
-- delivered, dead with the budget used up exactly, or retrying with attempts left and due within a
-- minute, if `random.uniform` keeps its bounds.
pub settle-IsBudgeted :
    ⦃σ : Storage⦄ ⦃ρ : Redis⦄ (s : Settings) (o : Outside) (d : Delivery)
    (result : OutboundHttpResult) (now : ℕ) (w : World)
    → IsUniform o.uniform
    → d.attempt_count < s.delivery_max_attempts
    → σ.get Delivery w.session.deliveries d.id ≡ some d
    → let r = settle s o d result now w in
      (d' : Delivery) × (r.0 ≡ ok d')
      × (σ.get Delivery r.1.session.deliveries d.id ≡ some d')
      × IsBudgeted s now d'.state d'.attempt_count d'.next_retry_at
      × (d'.attempt_count ≡ d.attempt_count + 1)
unfolding Deliveries.write
settle-IsBudgeted ⦃σ = σ⦄ s o d result now w uniform left h =
    let (budgeted, counted) = settled-IsBudgeted s o d result now uniform left in
    let done = settle_lem s o d result now w h in
    (
      settled s o d result now,
      ap (λ (r : Result Delivery × World). r.0) done,
      ap (λ (r : Result Delivery × World). σ.get Delivery r.1.session.deliveries d.id) done
          ∙ get-put_eq _ _ _ _ (settled_id s o d result now),
      budgeted,
      counted,
    )
