-- ===== src/Workers/Pipeline/Tracked.antt =====
-- What keeps a delivery on its way: a message that is not acknowledged, or a retry that is
-- scheduled; and what the commands of Redis leave of it.
use relay_webhooks.Prelude.{
  ℕ, ◌==◌, ◌≡◌, ◌≢◌, ◌⊎◌, ◌∙◌, refl, ap, sym, arith, true, Bool-cases, inl, inr, Option, none, some,
  subst, String, List, [], ◌∷◌, All, any, map,
}
use relay_webhooks.Platform.Storage.{Storage}
use relay_webhooks.Platform.Redis.{
  Redis, RetryMember, envelope, bare_uuid, member_eq, StreamFields, MessageStatus, absent, unread,
  unacked, has_message, after_read,
}
use relay_webhooks.Platform.Redis.Laws.{message-xadd_new}
use relay_webhooks.Infra.RetrySchedule.{DueRetry, parse_member}
use relay_webhooks.Workers.Dispatcher.Acks.{scheduled}
use relay_webhooks.Workers.Scheduler.Fires.{IsFired, fired, fields_of, fired-IsFired}

-- The consumer group still holds the message, read or not.
abbrev pub IsOpen : MessageStatus → StreamFields → Type 0
IsOpen m f = (m ≡ unread f) ⊎ (m ≡ unacked f)

open-present : (m : MessageStatus) (f : StreamFields) → IsOpen m f → m ≢ absent
open-present m f (inl a) b = cc (a, b)
open-present m f (inr a) b = cc (a, b)

IsOpen-read : (m : MessageStatus) (f : StreamFields) → IsOpen m f → IsOpen (after_read m) f
IsOpen-read m f (inl a) = rw a (inr refl)
IsOpen-read m f (inr a) = rw a (inr refl)

-- the same delivery, whichever spelling a member has
member_eq-delivery :
    (m n : RetryMember)
    → member_eq m n ≡ true
    → (parse_member m).delivery_id ≡ (parse_member n).delivery_id
unfolding parse_member
member_eq-delivery (envelope a c) (envelope b d) h = ground arith
member_eq-delivery (bare_uuid a) (bare_uuid b) h = ground arith
member_eq-delivery (envelope a c) (bare_uuid b) h = cc h
member_eq-delivery (bare_uuid a) (envelope b d) h = cc h

module _ ⦃ρ : Redis⦄ where
  pub data IsTracked (s : ρ.Stream) (z : ρ.Retries) (i : ℕ) : Type 0 where
    on_stream :
        (k : ℕ) (f : StreamFields) → IsOpen (ρ.message s k) f → f.delivery_id ≡ i → IsTracked s z i
    waiting :
        (m : RetryMember) (t : ℕ)
        → ρ.zscore z m ≡ some t
        → (parse_member m).delivery_id ≡ i
        → IsTracked s z i

  -- The later stream still holds each message that the earlier one does.
  abbrev pub Holds : ρ.Stream → ρ.Stream → Type 0
  Holds s s' = (k : ℕ) (f : StreamFields) → IsOpen (ρ.message s k) f → IsOpen (ρ.message s' k) f

  pub tracked-Holds :
      (s s' : ρ.Stream) (z : ρ.Retries) (i : ℕ) → Holds s s' → IsTracked s z i → IsTracked s' z i
  tracked-Holds s s' z i h (on_stream k f o e) = on_stream k f (h k f o) e
  tracked-Holds s s' z i h (waiting m t at_m e) = waiting m t at_m e

  pub xadd-Holds : (s : ρ.Stream) (g : StreamFields) → Holds s (ρ.xadd s g).1
  xadd-Holds s g k f o = elim (Bool-cases ((ρ.xadd s g).0 == k)) [
    | inl same ↦
        let ids : (ρ.xadd s g).0 ≡ k = ground arith in
        absurd (open-present (ρ.message s k) f o (sym (ap (ρ.message s) ids) ∙ ρ.xadd_fresh s g))
    | inr other ↦ rw (ρ.message_xadd s g k, other) o
  ]

  pub read-Holds : (s : ρ.Stream) (c : String) (n : ℕ) → Holds s (ρ.xreadgroup s c n).1
  read-Holds s c n k f o = elim (Bool-cases (has_message k (ρ.xreadgroup s c n).0)) [
    | inl given ↦ rw (ρ.message_xreadgroup s c n k, given) (IsOpen-read (ρ.message s k) f o)
    | inr other ↦ rw (ρ.message_xreadgroup s c n k, other) o
  ]

  pub claim-Holds :
      (s : ρ.Stream) (c : String) (idle now n : ℕ) → Holds s (ρ.xautoclaim s c idle now n).1
  claim-Holds s c idle now n k f o = rw (ρ.message_xautoclaim s c idle now n k) o

  -- A message that is added tracks its delivery.
  pub tracked-xadd :
      (s : ρ.Stream) (z : ρ.Retries) (f : StreamFields) → IsTracked (ρ.xadd s f).1 z f.delivery_id
  tracked-xadd s z f = on_stream (ρ.xadd s f).0 f (inl (message-xadd_new s f)) refl

  -- What the consumer group still holds under the id `k`, if anything, is a message for `i`.
  abbrev pub NamesOnly : ρ.Stream → ℕ → ℕ → Type 0
  NamesOnly s k i = (f : StreamFields) → IsOpen (ρ.message s k) f → f.delivery_id ≡ i

  -- An acknowledgement takes from no other delivery.
  pub tracked-xack :
      (s : ρ.Stream) (z : ρ.Retries) (k i j : ℕ)
      → NamesOnly s k i
      → i ≢ j
      → IsTracked s z j
      → IsTracked (ρ.xack s k) z j
  tracked-xack s z k i j names n (on_stream l f o e) = elim (Bool-cases (k == l)) [
    | inr other ↦ on_stream l f (rw (ρ.message_xack s k l, other) o) e
    | inl same ↦
        let ids : l ≡ k = ground arith in
        absurd (n (sym (names f (subst (λ l. IsOpen (ρ.message s l) f) ids o)) ∙ e))
  ]
  tracked-xack s z k i j names n (waiting m t at_m e) = waiting m t at_m e

  zadd-kept :
      (z : ρ.Retries) (a m : RetryMember) (u t : ℕ)
      → ρ.zscore z m ≡ some t
      → (v : ℕ) × (ρ.zscore (ρ.zadd z a u) m ≡ some v)
  zadd-kept z a m u t h = elim (Bool-cases (member_eq a m)) [
    | inl same ↦ (u, ρ.zscore_zadd z a m u ∙ rw same refl)
    | inr other ↦ (t, ρ.zscore_zadd z a m u ∙ rw other h)
  ]

module _ ⦃σ : Storage⦄ ⦃ρ : Redis⦄ where
  pub tracked-scheduled :
      (s : ρ.Stream) (z : ρ.Retries) (i j : ℕ) (c : Option String) (time : Option ℕ)
      → IsTracked s z i
      → IsTracked s (scheduled time j c z) i
  tracked-scheduled s z i j c none h = h
  tracked-scheduled s z i j c (some u) (on_stream k f o e) = on_stream k f o e
  tracked-scheduled s z i j c (some u) (waiting m t at_m e) =
      let (v, kept) = zadd-kept z (envelope j c) m u t at_m in waiting m v kept e

  fired-tracks :
      (s : ρ.Stream) (z : ρ.Retries) (ms : List RetryMember) (m : RetryMember)
      → All (IsFired s) (map parse_member ms)
      → any (λ n. member_eq n m) ms ≡ true
      → IsTracked s z (parse_member m).delivery_id
  fired-tracks s z [] m all h = cc h
  fired-tracks s z (n ∷ ms) m ((k, at_k), all) h = elim (Bool-cases (member_eq n m)) [
    | inl same ↦ on_stream k (fields_of (parse_member n)) (inl at_k) (member_eq-delivery n m same)
    | inr other ↦ fired-tracks s z ms m all (rw other at h)
  ]

  fired-Holds : (rs : List DueRetry) (s : ρ.Stream) → Holds s (fired rs s)
  unfolding fired
  fired-Holds [] s k f o = o
  fired-Holds (r ∷ rest) s k f o =
      fired-Holds rest (ρ.xadd s (fields_of r)).1 k f (xadd-Holds s (fields_of r) k f o)

  -- Retries that go back to the stream stay tracked.
  pub tracked-fired :
      (s : ρ.Stream) (z : ρ.Retries) (ms : List RetryMember) (i : ℕ)
      → IsTracked s z i
      → IsTracked (fired (map parse_member ms) s) (ρ.zrem z ms) i
  tracked-fired s z ms i (on_stream k f o e) =
      on_stream k f (fired-Holds (map parse_member ms) s k f o) e
  tracked-fired s z ms i (waiting m t at_m e) = elim (Bool-cases (any (λ n. member_eq n m) ms)) [
    | inl popped ↦ subst (IsTracked (fired (map parse_member ms) s) (ρ.zrem z ms)) e (
        fired-tracks (fired (map parse_member ms) s) (ρ.zrem z ms) ms m
          (fired-IsFired (map parse_member ms) s) popped)
    | inr left ↦ waiting m t (ρ.zscore_zrem z ms m ∙ rw left at_m) e
  ]
