-- ===== src/Domain/Deliveries/Backoff.antt =====
-- src/relay/domain/deliveries/backoff.py. `random.uniform` is a parameter of the code.
use relay_webhooks.Prelude.{ℕ, ◌*◌, ◌^◌, ◌≤◌, ◌≡◌, arith, if◌then◌else◌, leb}
use relay_webhooks.Prelude.Int.{ℤ, pos, negsuc}
use relay_webhooks.Prelude.Result.{Result, ok, err, value_error}

abbrev pub second : ℕ
second = 1_000_000

abbrev pub default_base_seconds : ℕ
default_base_seconds = second

abbrev pub default_cap_seconds : ℕ
default_cap_seconds = 60 * second

-- `min` of Python on two numbers.
unfoldable pub backoff_bound : ℕ → ℕ → ℕ → ℕ
backoff_bound attempt base cap =
    let grown = base * 2 ^ attempt in if leb cap grown then cap else grown

unfoldable pub compute_backoff_seconds : (ℕ → ℕ → ℕ) → ℤ → ℕ → ℕ → Result ℕ
unfolding backoff_bound
compute_backoff_seconds uniform (negsuc n) base cap = err value_error
compute_backoff_seconds uniform (pos attempt) base cap =
    ok (uniform 0 (backoff_bound attempt base cap))

-- What the documentation of `random.uniform` says of its result.
abbrev pub IsUniform : (ℕ → ℕ → ℕ) → Type 0
IsUniform uniform = (a b : ℕ) → a ≤ b → (a ≤ uniform a b) × (uniform a b ≤ b)

pub backoff_bound-le-cap : (attempt base cap : ℕ) → backoff_bound attempt base cap ≤ cap
unfolding backoff_bound
backoff_bound-le-cap attempt base cap = ground arith

-- A wait that is computed, from a count of attempts and a `random.uniform` that keeps its bounds, is
-- at most the cap and at most the base times two to the attempt count.
pub compute_backoff-le-cap :
    (uniform : ℕ → ℕ → ℕ) (attempt base cap : ℕ) {wait : ℕ}
    → IsUniform uniform
    → compute_backoff_seconds uniform (pos attempt) base cap ≡ ok wait
    → (wait ≤ cap) × (wait ≤ base * 2 ^ attempt)
unfolding compute_backoff_seconds
compute_backoff-le-cap uniform attempt base cap u h =
    ground (arith, u 0 (backoff_bound attempt base cap))
