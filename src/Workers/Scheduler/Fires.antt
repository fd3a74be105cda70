-- ===== src/Workers/Scheduler/Fires.antt =====
-- One tick of the scheduler.
use relay_webhooks.Prelude.{
  ℕ, ◌≡◌, ◌≤◌, ◌∙◌, refl, arith, some, none, List, [], ◌∷◌, All, map, length, any, true,
}
use relay_webhooks.Prelude.Result.{ok}
use relay_webhooks.Platform.Storage.{Storage}
use relay_webhooks.Platform.Redis.{Redis, RetryMember, StreamFields, unread, member_eq}
use relay_webhooks.Platform.Redis.Laws.{message-xadd_new, message-xadd_kept, member_eq_refl}
use relay_webhooks.Infra.Streams.{enqueue_delivery}
use relay_webhooks.Infra.RetrySchedule.{DueRetry, parse_member, pop_due_retries, pop_due_script}
use relay_webhooks.World.{World}
use relay_webhooks.Workers.Scheduler.{fire_all, run_once}

abbrev pub fields_of : DueRetry → StreamFields
fields_of r = record { delivery_id = r.delivery_id; correlation_id = r.correlation_id }

module _ ⦃σ : Storage⦄ ⦃ρ : Redis⦄ where
  -- an unread message for the retry stands on the stream
  abbrev pub IsFired : ρ.Stream → DueRetry → Type 0
  IsFired s r = (k : ℕ) × (ρ.message s k ≡ unread (fields_of r))

  -- the stream after the messages of the retries
  unfoldable pub fired : List DueRetry → ρ.Stream → ρ.Stream
  fired [] s = s
  fired (r ∷ rest) s = fired rest (ρ.xadd s (fields_of r)).1

  pub fire_all_lem :
      (rs : List DueRetry) (w : World)
      → fire_all rs w ≡ (ok tt, record w { stream = fired rs w.stream })
  unfolding fire_all fired enqueue_delivery
  fire_all_lem [] w = refl
  fire_all_lem (r ∷ rest) w =
      fire_all_lem rest (record w { stream = (ρ.xadd w.stream (fields_of r)).1 })

  fired_kept :
      (rs : List DueRetry) (s : ρ.Stream) (k : ℕ) (f : StreamFields)
      → ρ.message s k ≡ unread f
      → ρ.message (fired rs s) k ≡ unread f
  unfolding fired
  fired_kept [] s k f h = h
  fired_kept (r ∷ rest) s k f h =
      fired_kept rest (ρ.xadd s (fields_of r)).1 k f (message-xadd_kept s f (fields_of r) k h)

  pub fired-IsFired : (rs : List DueRetry) (s : ρ.Stream) → All (IsFired (fired rs s)) rs
  unfolding fired
  fired-IsFired [] s = tt
  fired-IsFired (r ∷ rest) s = (
    (
      (ρ.xadd s (fields_of r)).0,
      fired_kept rest (ρ.xadd s (fields_of r)).1 (ρ.xadd s (fields_of r)).0 (fields_of r)
          (message-xadd_new s (fields_of r)),
    ),
    fired-IsFired rest (ρ.xadd s (fields_of r)).1,
  )

  -- every member of the list is removed by it
  All-zrem :
      (z : ρ.Retries) (ms all : List RetryMember)
      → ((k : RetryMember)
          → any (λ m. member_eq m k) ms ≡ true
          → any (λ m. member_eq m k) all ≡ true)
      → All (λ m. ρ.zscore (ρ.zrem z all) m ≡ none) ms
  All-zrem z [] all h = tt
  All-zrem z (m ∷ ms) all h =
      let listed : any (λ m'. member_eq m' m) all ≡ true = h m (ground (arith, member_eq_refl m)) in
      (ρ.zscore_zrem z all m ∙ ground arith, All-zrem z ms all (λ k e. h k (ground arith)))

  -- A tick takes at most `limit` members, none of which is early; each is gone from the retry set
  -- and has an unread message on the stream, with its correlation id. The tables stay.
  pub run_once_fires :
      (limit : ℕ) (w : World)
      → let due = ρ.zrangebyscore w.retries w.clock limit in
        let r = run_once limit w in
        (r.0 ≡ ok (length (map parse_member due)))
        × (length due ≤ limit)
        × All (λ m. (s : ℕ) × (ρ.zscore w.retries m ≡ some s) × (s ≤ w.clock)) due
        × All (λ m. ρ.zscore r.1.retries m ≡ none) due
        × All (IsFired r.1.stream) (map parse_member due)
        × (r.1.committed ≡ w.committed)
  unfolding run_once pop_due_retries pop_due_script
  run_once_fires limit w =
      let due = ρ.zrangebyscore w.retries w.clock limit in
      let retries' = ρ.zrem w.retries due in
      rw (fire_all_lem (map parse_member due) (record w { retries = retries' })) (
        refl,
        ρ.zrangebyscore_limit w.retries w.clock limit,
        ρ.zrangebyscore_due w.retries w.clock limit,
        All-zrem w.retries due due (λ k e. e),
        fired-IsFired (map parse_member due) w.stream,
        refl,
      )
