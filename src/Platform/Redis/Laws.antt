-- ===== src/Platform/Redis/Laws.antt =====
-- Consequences of the laws of the stream and the retry set.
use relay_webhooks.Prelude.{ℕ, ◌≡◌, ◌∙◌, arith, some, true, Option, String, eq_iff, refl, none}
use relay_webhooks.Platform.Redis.{
  Redis, RetryMember, envelope, bare_uuid, correlation_eq, member_eq, StreamFields, unread,
  after_ack,
}

correlation_eq_refl : (c : Option String) → correlation_eq c c ≡ true
correlation_eq_refl none = refl
correlation_eq_refl (some t) = (eq_iff t t).1 refl

pub member_eq_refl : (m : RetryMember) → member_eq m m ≡ true
member_eq_refl (envelope i c) = ground (arith, correlation_eq_refl c)
member_eq_refl (bare_uuid i) = ground arith

module _ ⦃ρ : Redis⦄ where
  -- A message that is added is unread.
  pub message-xadd_new :
      (s : ρ.Stream) (f : StreamFields) → ρ.message (ρ.xadd s f).1 (ρ.xadd s f).0 ≡ unread f
  message-xadd_new s f = ρ.message_xadd s f (ρ.xadd s f).0 ∙ ground arith

  -- An acknowledgement is of its own message.
  pub message-xack_same :
      (s : ρ.Stream) (m : ℕ) → ρ.message (ρ.xack s m) m ≡ after_ack (ρ.message s m)
  message-xack_same s m = ρ.message_xack s m m ∙ ground arith

  pub zscore-zadd_same :
      (z : ρ.Retries) (m : RetryMember) (t : ℕ) → ρ.zscore (ρ.zadd z m t) m ≡ some t
  zscore-zadd_same z m t = ρ.zscore_zadd z m m t ∙ ground (arith, member_eq_refl m)

  -- A message that is added leaves the unread ones alone.
  pub message-xadd_kept :
      (s : ρ.Stream) (f g : StreamFields) (k : ℕ)
      → ρ.message s k ≡ unread f
      → ρ.message (ρ.xadd s g).1 k ≡ unread f
  message-xadd_kept s f g k h = ρ.message_xadd s g k ∙ ground (arith, ρ.xadd_fresh s g)
