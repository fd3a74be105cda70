-- ===== src/Infra/RetrySchedule.antt =====
-- src/relay/infra/retry_schedule.py: the sorted set of retries. The Lua script runs atomically.
use relay_webhooks.Prelude.{ℕ, String, Option, none, List, map}
use relay_webhooks.Platform.Storage.{Storage}
use relay_webhooks.Platform.Redis.{Redis, RetryMember, envelope, bare_uuid}
use relay_webhooks.World.{Exec, pure}

pub record DueRetry : Type 0 where
  pub delivery_id : ℕ
  pub correlation_id : Option String

-- `_parse_member`, with its fallback for a member that is no JSON
unfoldable pub parse_member : RetryMember → DueRetry
parse_member (envelope delivery_id correlation_id) = record {
  delivery_id = delivery_id;
  correlation_id = correlation_id;
}
parse_member (bare_uuid delivery_id) = record { delivery_id = delivery_id; correlation_id = none }

module _ ⦃σ : Storage⦄ ⦃ρ : Redis⦄ where
  unfoldable pub schedule_retry : ℕ → ℕ → Option String → Exec (Unit {0})
  schedule_retry delivery_id next_retry_at correlation_id w =
      pure tt (record w {
        retries = ρ.zadd w.retries (envelope delivery_id correlation_id) next_retry_at;
      })

  -- `_POP_DUE_SCRIPT`; ZREM of no members, which the script skips, removes nothing
  unfoldable pub pop_due_script : ρ.Retries → ℕ → ℕ → List RetryMember × ρ.Retries
  pop_due_script retries now limit =
      let due = ρ.zrangebyscore retries now limit in (due, ρ.zrem retries due)

  unfoldable pub pop_due_retries : ℕ → ℕ → Exec (List DueRetry)
  unfolding pop_due_script
  pop_due_retries now limit w =
      let (due, retries') = pop_due_script w.retries now limit in
      pure (map parse_member due) (record w { retries = retries' })
