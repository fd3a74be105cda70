-- ===== src/Domain/Endpoints/Breaker.antt =====
-- The invariant of the circuit breaker.
use relay_webhooks.Prelude.{
  ℕ, ◌+◌, ◌<◌, ◌≡◌, refl, arith, Bool, true, false, Option, none, is_some, leb, ltb, Bool-cases,
  inl, inr,
}
use relay_webhooks.Domain.Endpoints.{
  BreakerState, closed, open_, half_open, is_half_open, next_breaker_state,
  should_skip_for_open_breaker,
}

-- A breaker that is closed has fewer failures than the threshold and no opening time; one that is
-- open knows when it opened. Only a probe under way is half-open.
abbrev pub IsSettled : ℕ → BreakerState → ℕ → Option ℕ → Type 0
IsSettled threshold closed failures opened_at = (failures < threshold) × (opened_at ≡ none)
IsSettled threshold open_ failures opened_at = is_some opened_at ≡ true
IsSettled threshold half_open failures opened_at = ⊥

-- Whatever an attempt finds and gets, the breaker that it records is settled, for a threshold above
-- 0: closed with fewer failures than the threshold, or open with its time, and never half-open.
pub next_breaker_state-IsSettled :
    (current : BreakerState) (failures now : ℕ) (success : Bool) (threshold : ℕ)
    → 0 < threshold
    → let t = next_breaker_state current failures now success threshold in
      IsSettled threshold t.state t.consecutive_failures t.opened_at
unfolding next_breaker_state
next_breaker_state-IsSettled current failures now true threshold pos = (pos, refl)
next_breaker_state-IsSettled current failures now false threshold pos =
    elim (Bool-cases (is_half_open current)) [
      | inl probe ↦ rw probe refl
      | inr other ↦ elim (Bool-cases (leb threshold (failures + 1))) [
        | inl reached ↦ rw (other, reached) refl
        | inr below ↦ rw (other, below) (ground arith, refl)
      ]
    ]

-- A failed probe opens the breaker again, whatever the threshold; while the cooldown lasts every
-- attempt is skipped, and from its end on none is.
pub should_skip-reopened :
    (failures now threshold cooldown later : ℕ)
    → let t = next_breaker_state half_open failures now false threshold in
      should_skip_for_open_breaker t.state t.opened_at later cooldown ≡ ltb later (now + cooldown)
unfolding next_breaker_state should_skip_for_open_breaker
should_skip-reopened failures now threshold cooldown later = refl
