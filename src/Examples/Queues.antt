-- ===== src/Examples/Queues.antt =====
-- A stream as the list of the states of its messages, and a retry set as the list of the scores
-- that were set, the newest first.
use relay_webhooks.Prelude.{
  ℕ, zero, suc, ◌+◌, ◌≤◌, ◌<◌, ◌==◌, ◌≡◌, refl, Bool, true, false, not, Option, none, some, List,
  [], ◌∷◌, All, arith, length, length-take-le, take, filter_by, any, map, sym, leb, if◌then◌else◌,
  ap, ◌∙◌, subst, String, eq_iff, Bool-cases, inl, inr,
}
use relay_webhooks.Platform.Redis.{
  Redis, RetryMember, envelope, bare_uuid, correlation_eq, member_eq, MessageStatus, absent, unread,
  unacked, acked, Entries, after_read, after_ack, has_message,
}

abbrev pub Messages : Type 0
Messages = List MessageStatus

abbrev pub status : Messages → ℕ → MessageStatus
status [] j = absent
status (m ∷ s) zero = m
status (m ∷ s) (suc j) = status s j

abbrev pub appended : Messages → MessageStatus → Messages
appended [] x = x ∷ []
appended (m ∷ s) x = m ∷ appended s x

abbrev pub acknowledged : Messages → ℕ → Messages
acknowledged [] k = []
acknowledged (m ∷ s) zero = after_ack m ∷ s
acknowledged (m ∷ s) (suc k) = m ∷ acknowledged s k

-- the reply and the stream of a read of at most `n` messages, from the message `k` on
abbrev pub read : ℕ → ℕ → Messages → Entries × Messages
read k n [] = ([], [])
read k zero (m ∷ s) = ([], m ∷ s)
read k (suc n) (unread f ∷ s) = let r = read (suc k) n s in ((k, some f) ∷ r.0, unacked f ∷ r.1)
read k (suc n) (m ∷ s) = let r = read (suc k) (suc n) s in (r.0, m ∷ r.1)

abbrev pub stale : ℕ → Messages → Entries
stale k [] = []
stale k (unacked f ∷ s) = (k, some f) ∷ stale (suc k) s
stale k (m ∷ s) = stale (suc k) s

pub status-appended :
    (s : Messages) (x : MessageStatus) (j : ℕ)
    → status (appended s x) j ≡ (if length s == j then x else status s j)
status-appended [] x zero = refl
status-appended [] x (suc j) = ground arith
status-appended (m ∷ s) x zero = ground arith
status-appended (m ∷ s) x (suc j) = ground (arith, status-appended s x j)

pub status-length : (s : Messages) → status s (length s) ≡ absent
status-length [] = refl
status-length (m ∷ s) = status-length s

pub status-acknowledged :
    (s : Messages) (k j : ℕ)
    → status (acknowledged s k) j ≡ (if k == j then after_ack (status s j) else status s j)
status-acknowledged [] k j = ground arith
status-acknowledged (m ∷ s) zero zero = refl
status-acknowledged (m ∷ s) zero (suc j) = ground arith
status-acknowledged (m ∷ s) (suc k) zero = ground arith
status-acknowledged (m ∷ s) (suc k) (suc j) = ground (arith, status-acknowledged s k j)

-- A read from message `k` on returns no earlier one.
read_low : (k n : ℕ) (s : Messages) (j : ℕ) → j < k → has_message j (read k n s).0 ≡ false
read_low k n [] j h = refl
read_low k zero (m ∷ s) j h = refl
read_low k (suc n) (unread f ∷ s) j h = ground (arith, read_low (suc k) n s j)
read_low k (suc n) (absent ∷ s) j h = read_low (suc k) (suc n) s j (omega arith)
read_low k (suc n) (unacked f ∷ s) j h = read_low (suc k) (suc n) s j (omega arith)
read_low k (suc n) (acked f ∷ s) j h = read_low (suc k) (suc n) s j (omega arith)

pub status-read :
    (k n : ℕ) (s : Messages) (j i : ℕ)
    → i ≡ k + j
    → status (read k n s).1 j
      ≡ (if has_message i (read k n s).0 then after_read (status s j) else status s j)
status-read k n [] j i h = refl
status-read k zero (m ∷ s) j i h = refl
status-read k (suc n) (unread f ∷ s) zero i h = ground arith
status-read k (suc n) (unread f ∷ s) (suc j) i h =
    ground (arith, status-read (suc k) n s j i (omega arith))
status-read k (suc n) (absent ∷ s) zero i h =
    rw (h, read_low (suc k) (suc n) s (k + 0) (omega arith))
status-read k (suc n) (unacked f ∷ s) zero i h =
    rw (h, read_low (suc k) (suc n) s (k + 0) (omega arith))
status-read k (suc n) (acked f ∷ s) zero i h =
    rw (h, read_low (suc k) (suc n) s (k + 0) (omega arith))
status-read k (suc n) (absent ∷ s) (suc j) i h = status-read (suc k) (suc n) s j i (omega arith)
status-read k (suc n) (unacked f ∷ s) (suc j) i h = status-read (suc k) (suc n) s j i (omega arith)
status-read k (suc n) (acked f ∷ s) (suc j) i h = status-read (suc k) (suc n) s j i (omega arith)

abbrev pub Scores : Type 0
Scores = List (RetryMember × ℕ)

abbrev pub score : Scores → RetryMember → Option ℕ
score [] k = none
score ((m, s) ∷ z) k = if member_eq m k then some s else score z k

abbrev pub unlisted : List RetryMember → RetryMember × ℕ → Bool
unlisted ms p = not (any (λ m. member_eq m p.0) ms)

abbrev pub at_most : ℕ → Option ℕ → Bool
at_most top none = false
at_most top (some s) = leb s top

abbrev pub is_due : Scores → ℕ → RetryMember → Bool
is_due z top m = at_most top (score z m)

abbrev pub members : Scores → List RetryMember
members z = map (λ (p : RetryMember × ℕ). p.0) z

correlation_eq_sound : (a b : Option String) → correlation_eq a b ≡ true → a ≡ b
correlation_eq_sound none none h = refl
correlation_eq_sound none (some b) h = cc
correlation_eq_sound (some a) none h = cc
correlation_eq_sound (some a) (some b) h = ap some ((eq_iff a b).0 h)

member_eq_sound : (a b : RetryMember) → member_eq a b ≡ true → a ≡ b
member_eq_sound (envelope a c) (envelope b d) h = ground (arith, correlation_eq_sound c d)
member_eq_sound (envelope a c) (bare_uuid b) h = cc
member_eq_sound (bare_uuid a) (envelope b d) h = cc
member_eq_sound (bare_uuid a) (bare_uuid b) h = ground arith

correlation_eq_refl : (a : Option String) → correlation_eq a a ≡ true
correlation_eq_refl none = refl
correlation_eq_refl (some a) = (eq_iff a a).1 refl

member_eq_refl : (a : RetryMember) → member_eq a a ≡ true
member_eq_refl (envelope a c) = ground (arith, correlation_eq_refl c)
member_eq_refl (bare_uuid a) = ground arith

abbrev Unlists : Scores → List RetryMember → RetryMember → ℕ → RetryMember → Type 0
Unlists z ms m s k =
    score (filter_by (unlisted ms) ((m, s) ∷ z)) k
    ≡ (if any (λ m'. member_eq m' k) ms then none else score ((m, s) ∷ z) k)

Unlists-same :
    (z : Scores) (ms : List RetryMember) (k : RetryMember) (s : ℕ) (u : Bool)
    → any (λ m'. member_eq m' k) ms ≡ u
    → score (filter_by (unlisted ms) z) k
      ≡ (if any (λ m'. member_eq m' k) ms then none else score z k)
    → Unlists z ms k s k
Unlists-same z ms k s true e rest = rw e (rest ∙ (rw e refl))
Unlists-same z ms k s false e rest = rw (e, member_eq_refl k) refl

Unlists-other :
    (z : Scores) (ms : List RetryMember) (m k : RetryMember) (s : ℕ) (u : Bool)
    → any (λ m'. member_eq m' m) ms ≡ u
    → member_eq m k ≡ false
    → score (filter_by (unlisted ms) z) k
      ≡ (if any (λ m'. member_eq m' k) ms then none else score z k)
    → Unlists z ms m s k
Unlists-other z ms m k s true e h rest = rw (e, h) rest
Unlists-other z ms m k s false e h rest = rw (e, h) rest

pub score-zrem :
    (z : Scores) (ms : List RetryMember) (k : RetryMember)
    → score (filter_by (unlisted ms) z) k
      ≡ (if any (λ m. member_eq m k) ms then none else score z k)
score-zrem [] ms k = ground arith
score-zrem ((m, s) ∷ z) ms k =
    let rest = score-zrem z ms k in
    elim (Bool-cases (member_eq m k)) [
      | inl same ↦
          subst (λ m'. Unlists z ms m' s k) (sym (member_eq_sound m k same))
            (Unlists-same z ms k s (any (λ m'. member_eq m' k) ms) refl rest)
      | inr differ ↦ Unlists-other z ms m k s (any (λ m'. member_eq m' m) ms) refl differ rest
    ]

abbrev IsDue : Scores → ℕ → RetryMember → Type 0
IsDue z top m = (s : ℕ) × (score z m ≡ some s) × (s ≤ top)

due_score : (o : Option ℕ) (top : ℕ) → at_most top o ≡ true → (s : ℕ) × (o ≡ some s) × (s ≤ top)
due_score none top h = cc
due_score (some s) top h = (s, refl, ground arith)

All-IsDue_if :
    (z : Scores) (top : ℕ) (m : RetryMember) (rest : List RetryMember) (b : Bool)
    → is_due z top m ≡ b
    → All (IsDue z top) rest
    → All (IsDue z top) (if b then m ∷ rest else rest)
All-IsDue_if z top m rest true e h = (due_score (score z m) top e, h)
All-IsDue_if z top m rest false e h = h

pub All-IsDue :
    (z : Scores) (top : ℕ) (ms : List RetryMember) → All (IsDue z top) (filter_by (is_due z top) ms)
All-IsDue z top [] = tt
All-IsDue z top (m ∷ ms) =
    All-IsDue_if z top m (filter_by (is_due z top) ms) (is_due z top m) refl (All-IsDue z top ms)

pub All-take :
    (P : RetryMember → Type 0) (n : ℕ) (ms : List RetryMember) → All P ms → All P (take n ms)
All-take P zero ms h = tt
All-take P (suc n) [] h = tt
All-take P (suc n) (m ∷ ms) (p, h) = (p, All-take P n ms h)

instance abbrev pub list_redis : Redis
list_redis = record {
  Stream = Messages;
  Retries = Scores;
  xadd = λ s f. (length s, appended s (unread f));
  xreadgroup = λ s c n. read 0 n s;
  xack = acknowledged;
  xautoclaim = λ s c idle now n. (take n (stale 0 s), s);
  message = status;
  zadd = λ z m s. (m, s) ∷ z;
  zrangebyscore = λ z top n. take n (filter_by (is_due z top) (members z));
  zrem = λ z ms. filter_by (unlisted ms) z;
  zscore = score;
  xadd_fresh = λ s f. status-length s;
  message_xadd = λ s f. status-appended s (unread f);
  message_xack = status-acknowledged;
  message_xreadgroup = λ s c n j. status-read 0 n s j j (omega arith);
  message_xautoclaim = λ s c idle now n j. refl;
  zscore_zadd = λ z m k s. refl;
  zscore_zrem = score-zrem;
  zrangebyscore_due = λ z top n.
      All-take (IsDue z top) n (filter_by (is_due z top) (members z)) (All-IsDue z top (members z));
  zrangebyscore_limit = λ z top n. length-take-le n (filter_by (is_due z top) (members z));
}
