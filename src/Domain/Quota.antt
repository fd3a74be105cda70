-- ===== src/Domain/Quota.antt =====
-- src/relay/domain/sandbox/quota.py.
use relay_webhooks.Prelude.{ℕ, String, leb}
use relay_webhooks.Prelude.Result.{Result, raise_if, sandbox_quota_exceeded}

unfoldable pub check_quota : ℕ → ℕ → String → Result (Unit {0})
check_quota current_count limit resource =
    raise_if (leb limit current_count) (sandbox_quota_exceeded resource limit)
