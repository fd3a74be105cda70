-- ===== src/Infra/RateLimit/Grants.antt =====
-- What the token bucket grants, at most and at least.
use relay_webhooks.Prelude.{
  ℕ, suc, ◌+◌, ◌-◌, ◌*◌, ◌/◌, ◌≤◌, ◌<◌, ◌≡◌, refl, subst, sym, arith, true, false, Option, none,
  some, List, [], ◌∷◌, leb, ltb, if◌then◌else◌, Bool-cases, inl, inr,
}
use native.Mathlib.Omega.{div_any}
use native.Mathlib.Nat.{mod-lt, mul-le-mul_right}
use relay_webhooks.Api.Errors.{retry_after_header}
use relay_webhooks.Infra.RateLimit.{
  Bucket, allow, million, token_bucket_script, unexpired, refilled, spend, time_to_live,
}

ceil_div_lem : (needed d : ℕ) → 0 < d → needed ≤ (needed + (d - 1)) / d * d
ceil_div_lem needed d h = omega (arith, div_any (needed + (d - 1)) d, mod-lt (needed + (d - 1)) h)

le_of_leb : (a b : ℕ) → leb a b ≡ true → a ≤ b
le_of_leb a b h = ground arith

time_to_live_lem : (rate burst : ℕ) → 0 < rate → burst ≤ time_to_live rate burst * rate
unfolding time_to_live
time_to_live_lem rate burst h = omega (arith, ceil_div_lem burst (rate * 1_000_000) (omega arith))

-- a bucket as the script leaves it
abbrev pub IsWellFormed : ℕ → ℕ → Bucket → Type 0
IsWellFormed rate burst b = b.expires_at ≡ b.updated_at + time_to_live rate burst

full :
    (rate burst t elapsed : ℕ)
    → 0 < rate
    → time_to_live rate burst ≤ elapsed
    → burst ≤ t + elapsed * rate
full rate burst t elapsed pos h =
    omega (arith, time_to_live_lem rate burst pos, mul-le-mul_right rate h)

-- The expiry of a bucket that the script left changes nothing, at a rate above 0: it would have
-- been full again.
pub refilled-unexpired :
    (rate burst now : ℕ) (b : Bucket)
    → 0 < rate
    → IsWellFormed rate burst b
    → refilled rate burst now (unexpired now (some b)) ≡ refilled rate burst now (some b)
unfolding refilled
refilled-unexpired rate burst now b pos e = elim (Bool-cases (ltb now b.expires_at)) [
  | inl live ↦ rw live refl
  | inr gone ↦
      rw gone (ground (arith, full rate burst b.tokens (now - b.updated_at) pos (ground arith)))
]

-- how many of the calls at the given times are allowed
unfoldable pub granted : ℕ → ℕ → ℕ → Option Bucket → List ℕ → ℕ
granted rate burst cost b [] = 0
granted rate burst cost b (now ∷ times) =
    let r = allow rate burst cost now b in
    let more = granted rate burst cost (some r.1) times in if r.0.allowed then suc more else more

-- the times are in order from `t` on, and the last of them is `end_of t times`
abbrev pub InOrder : ℕ → List ℕ → Type 0
InOrder t [] = Unit
InOrder t (now ∷ times) = (t ≤ now) × InOrder now times

abbrev pub end_of : ℕ → List ℕ → ℕ
end_of t [] = t
end_of t (now ∷ times) = end_of now times

end_of-le : (t : ℕ) (times : List ℕ) → InOrder t times → t ≤ end_of t times
end_of-le t [] h = omega arith
end_of-le t (now ∷ times) h = omega (arith, end_of-le now times h.1, h.0)

-- a call at `now` on a bucket that refills to `r`, and what is granted after it
refill_step :
    (rate burst cost now r more end : ℕ) (b : Option Bucket)
    → refilled rate burst now (unexpired now b) ≡ r
    → more * cost ≤ (allow rate burst cost now b).1.tokens + (end - now) * rate
    → (if (allow rate burst cost now b).0.allowed then suc more else more) * cost
      ≤ r + (end - now) * rate
unfolding allow token_bucket_script spend
refill_step rate burst cost now r more end b e h = elim (Bool-cases (leb cost r)) [
  | inl enough ↦
      let h' : more * cost ≤ (r - cost) + (end - now) * rate = ground (arith, h) in
      rw (e, enough) (omega (arith, h', le_of_leb cost r enough))
  | inr short ↦
      let h' : more * cost ≤ r + (end - now) * rate = ground (arith, h) in rw (e, short) h'
]

left_in_order :
    (rate burst cost now : ℕ) (b : Option Bucket)
    → let b' = (allow rate burst cost now b).1 in (b'.updated_at ≡ now) × IsWellFormed rate burst b'
unfolding allow token_bucket_script
left_in_order rate burst cost now b = (refl, refl)

refilled-none : (rate burst now : ℕ) → refilled rate burst now none ≤ burst + 0 * rate
unfolding refilled
refilled-none rate burst now = ground arith

refilled-le :
    (rate burst now : ℕ) (b : Bucket)
    → refilled rate burst now (some b) ≤ b.tokens + (now - b.updated_at) * rate
unfolding refilled
refilled-le rate burst now b = ground arith

chain : (g r t x y z rate : ℕ) → g ≤ r + y * rate → r ≤ t + x * rate → x + y ≡ z → g ≤ t + z * rate
chain g r t x y z rate h h' e = rw (← e) (omega (arith, h, h'))

granted_cons :
    (rate burst cost now : ℕ) (b : Option Bucket) (times : List ℕ)
    → let r = allow rate burst cost now b in
      let more = granted rate burst cost (some r.1) times in
      granted rate burst cost b (now ∷ times) ≡ (if r.0.allowed then suc more else more)
unfolding granted
granted_cons rate burst cost now b times = refl

-- the bound for the calls that follow on a bucket
abbrev IsBound : ℕ → ℕ → ℕ → List ℕ → Bucket → Type 0
IsBound rate burst cost times b =
    granted rate burst cost (some b) times * cost
    ≤ b.tokens + (end_of b.updated_at times - b.updated_at) * rate

granted_after :
    (rate burst cost now : ℕ) (b : Option Bucket) (times : List ℕ)
    → ((b' : Bucket)
        → IsWellFormed rate burst b'
        → InOrder b'.updated_at times
        → IsBound rate burst cost times b')
    → InOrder now times
    → granted rate burst cost b (now ∷ times) * cost
      ≤ refilled rate burst now (unexpired now b) + (end_of now times - now) * rate
granted_after rate burst cost now b times after h =
    let b' = (allow rate burst cost now b).1 in
    let (stamped, wf) = left_in_order rate burst cost now b in
    let rest = after b' wf (subst (λ t. InOrder t times) (sym stamped) h) in
    rw granted_cons (
      refill_step rate burst cost now (refilled rate burst now (unexpired now b))
        (granted rate burst cost (some b') times) (end_of now times) b refl
        (subst
          (λ t.
            granted rate burst cost (some b') times * cost
            ≤ b'.tokens + (end_of t times - t) * rate)
          stamped rest))

granted_from :
    (rate burst cost : ℕ) (b : Bucket) (times : List ℕ)
    → 0 < rate
    → IsWellFormed rate burst b
    → InOrder b.updated_at times
    → IsBound rate burst cost times b
unfolding granted
granted_from rate burst cost b [] pos wf h = omega arith
granted_from rate burst cost b (now ∷ times) pos wf h =
    chain (granted rate burst cost (some b) (now ∷ times) * cost) (refilled rate burst now (some b))
      b.tokens (now - b.updated_at) (end_of now times - now) (end_of now times - b.updated_at) rate
      (subst
        (λ r.
          granted rate burst cost (some b) (now ∷ times) * cost
          ≤ r + (end_of now times - now) * rate)
        (refilled-unexpired rate burst now b pos wf)
        (granted_after rate burst cost now (some b) times
          (λ b' wf' h'. granted_from rate burst cost b' times pos wf' h') h.1))
      (refilled-le rate burst now b) (omega (arith, h.0, end_of-le now times h.1))

-- Calls at times in order, the first at `now` on a tenant with no bucket, at a rate above 0: what
-- they are granted costs no more than the burst and what the rate refills until the last of them.
-- Buckets that expire on the way do not change that.
pub granted-le :
    (rate burst cost now : ℕ) (times : List ℕ)
    → 0 < rate
    → InOrder now times
    → granted rate burst cost none (now ∷ times) * cost ≤ burst + (end_of now times - now) * rate
granted-le rate burst cost now times pos h =
    chain (granted rate burst cost none (now ∷ times) * cost) (refilled rate burst now none) burst 0
      (end_of now times - now) (end_of now times - now) rate
      (granted_after rate burst cost now none times
        (λ b' wf h'. granted_from rate burst cost b' times pos wf h') h)
      (refilled-none rate burst now) (omega arith)

refused_lem :
    (rate burst cost now : ℕ) (b : Option Bucket)
    → (allow rate burst cost now b).0.allowed ≡ false
    → let r = allow rate burst cost now b in r.1.tokens + r.0.needed ≡ cost
unfolding allow token_bucket_script spend
refused_lem rate burst cost now b h =
    elim (Bool-cases (leb cost (refilled rate burst now (unexpired now b)))) [
      | inl enough ↦ absurd (ground (arith, h))
      | inr short ↦ rw short (ground arith)
    ]

enough_lem :
    (rate burst cost now : ℕ) (b : Bucket)
    → 0 < rate
    → IsWellFormed rate burst b
    → cost ≤ burst
    → cost ≤ b.tokens + (now - b.updated_at) * rate
    → (allow rate burst cost now (some b)).0.allowed ≡ true
unfolding allow token_bucket_script spend refilled
enough_lem rate burst cost now b pos wf small enough =
    rw (refilled-unexpired rate burst now b pos wf) (ground arith)

header_lem : (needed d : ℕ) → 0 < d → needed ≤ retry_after_header needed d * d
unfolding retry_after_header
header_lem needed d pos = ground (arith, ceil_div_lem needed d pos)

-- A call that finds less than its cost is refused, and says how much is short.
pub allow-short :
    (rate burst cost now : ℕ) (b : Option Bucket)
    → refilled rate burst now (unexpired now b) < cost
    → let d = (allow rate burst cost now b).0 in
      (d.allowed ≡ false) × (d.needed ≡ cost - refilled rate burst now (unexpired now b))
unfolding allow token_bucket_script spend
allow-short rate burst cost now b short =
    let small : leb cost (refilled rate burst now (unexpired now b)) ≡ false = ground arith in
    rw small (refl, refl)

-- A call that is refused says how long to wait, at a rate above 0: a call at the end of the Retry-
-- After of its response is allowed, if nobody spends in between and the cost is within the burst.
pub allow-retry_after :
    (rate burst cost now : ℕ) (b : Option Bucket)
    → 0 < rate
    → cost ≤ burst
    → (allow rate burst cost now b).0.allowed ≡ false
    → let r = allow rate burst cost now b in
      let wait = retry_after_header r.0.needed (rate * million) * million in
      (allow rate burst cost (now + wait) (some r.1)).0.allowed ≡ true
allow-retry_after rate burst cost now b pos small refused =
    let r = allow rate burst cost now b in
    let h = retry_after_header r.0.needed (rate * 1_000_000) in
    let covers : r.0.needed ≤ h * (rate * 1_000_000) =
      header_lem r.0.needed (rate * 1_000_000) (omega arith) in
    let (stamped, wf) = left_in_order rate burst cost now b in
    let waited : now + h * 1_000_000 - r.1.updated_at ≡ h * 1_000_000 = omega (arith, stamped) in
    enough_lem rate burst cost (now + h * 1_000_000) r.1 pos wf small
      (rw waited (omega (arith, covers, refused_lem rate burst cost now b refused)))
