-- ===== src/Platform/Redis.antt =====
-- The Redis server, as far as the code uses it: one stream with one consumer group, and one sorted
-- set. The two stand under different keys, so no command on one changes the other.
pub mod Laws
use relay_webhooks.Prelude.{
  ℕ, String, ◌==◌, ◌≤◌, ◌≡◌, Bool, true, false, ◌&&◌, Option, none, some, List, All, any, length,
  str_eq, if◌then◌else◌,
}

-- The fields of a stream entry of `relay.infra.streams`. A UUID is its number.
pub record StreamFields : Type 0 where
  pub delivery_id : ℕ
  pub correlation_id : Option String

-- The text of a member of the retry set: the JSON envelope, or the bare UUID of older processes.
pub data RetryMember : Type 0 where
  envelope : ℕ → Option String → RetryMember
  bare_uuid : ℕ → RetryMember

abbrev pub correlation_eq : Option String → Option String → Bool
correlation_eq none none = true
correlation_eq (some a) (some b) = str_eq a b
correlation_eq _ _ = false

abbrev pub member_eq : RetryMember → RetryMember → Bool
member_eq (envelope a c) (envelope b d) = a == b && correlation_eq c d
member_eq (bare_uuid a) (bare_uuid b) = a == b
member_eq _ _ = false

-- What the consumer group holds of a message id.
pub data MessageStatus : Type 0 where
  absent : MessageStatus
  unread unacked acked : StreamFields → MessageStatus

-- The effect of XACK and of XREADGROUP on one message.
abbrev pub after_ack : MessageStatus → MessageStatus
after_ack (unacked f) = acked f
after_ack m = m

abbrev pub after_read : MessageStatus → MessageStatus
after_read (unread f) = unacked f
after_read m = m

-- A list of entries of the reply of XREADGROUP or XAUTOCLAIM; a deleted entry has no fields.
abbrev pub Entries : Type 0
Entries = List (ℕ × Option StreamFields)

abbrev pub has_message : ℕ → Entries → Bool
has_message j entries = any (λ (e : ℕ × Option StreamFields). e.0 == j) entries

pub record Redis : Type 1 where
  pub Stream : Type 0
  pub Retries : Type 0
  pub xadd : Stream → StreamFields → ℕ × Stream
  pub xreadgroup : Stream → String → ℕ → Entries × Stream
  pub xack : Stream → ℕ → Stream
  -- the consumer, the least idle time, the time now and the count
  pub xautoclaim : Stream → String → ℕ → ℕ → ℕ → Entries × Stream
  pub message : Stream → ℕ → MessageStatus
  pub zadd : Retries → RetryMember → ℕ → Retries
  -- `ZRANGEBYSCORE key -inf max LIMIT 0 count`
  pub zrangebyscore : Retries → ℕ → ℕ → List RetryMember
  pub zrem : Retries → List RetryMember → Retries
  pub zscore : Retries → RetryMember → Option ℕ
  pub xadd_fresh : (s : Stream) (f : StreamFields) → message s (xadd s f).0 ≡ absent
  pub message_xadd :
      (s : Stream) (f : StreamFields) (j : ℕ)
      → message (xadd s f).1 j ≡ (if (xadd s f).0 == j then unread f else message s j)
  pub message_xack :
      (s : Stream) (m j : ℕ)
      → message (xack s m) j ≡ (if m == j then after_ack (message s j) else message s j)
  pub message_xreadgroup :
      (s : Stream) (c : String) (n j : ℕ)
      → message (xreadgroup s c n).1 j
        ≡ (if has_message j (xreadgroup s c n).0 then after_read (message s j) else message s j)
  pub message_xautoclaim :
      (s : Stream) (c : String) (idle now n j : ℕ)
      → message (xautoclaim s c idle now n).1 j ≡ message s j
  pub zscore_zadd :
      (z : Retries) (m k : RetryMember) (score : ℕ)
      → zscore (zadd z m score) k ≡ (if member_eq m k then some score else zscore z k)
  pub zscore_zrem :
      (z : Retries) (ms : List RetryMember) (k : RetryMember)
      → zscore (zrem z ms) k ≡ (if any (λ m. member_eq m k) ms then none else zscore z k)
  pub zrangebyscore_due :
      (z : Retries) (top n : ℕ)
      → All (λ m. (s : ℕ) × (zscore z m ≡ some s) × (s ≤ top)) (zrangebyscore z top n)
  pub zrangebyscore_limit : (z : Retries) (top n : ℕ) → length (zrangebyscore z top n) ≤ n
