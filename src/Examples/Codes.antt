-- ===== src/Examples/Codes.antt =====
-- Signatures, keys and backoff at concrete inputs.
use relay_webhooks.Prelude.{◌≡◌, ◌⊎◌, decimal, digits, ◌++◌, refl, true, Bytes, codes}
use relay_webhooks.Prelude.Int.{pos, negsuc}
use relay_webhooks.Prelude.Result.{ok}
use relay_webhooks.Domain.Deliveries.Backoff.{backoff_bound, compute_backoff_seconds}
use relay_webhooks.Infra.Signing.{sign, verify, signed_message, int_text}
use relay_webhooks.Infra.Signing.Message.{signed_message-injective}
use relay_webhooks.Infra.Signing.Verify.{verify-sign, IsFresh, Collides}

abbrev keyed : Bytes → Bytes → Bytes
keyed key message = key ++ message

accepted :
    verify codes keyed "s"
      (pos 100)
      (codes "a")
      (sign codes keyed "s" (pos 100) (codes "a"))
      (pos 300)
      150
    ≡ ok true
unfolding verify sign signed_message int_text decimal digits
accepted = refl

verify-sign_example :
    IsFresh (pos 300) 150 (pos 100)
    × (((pos 100 ≡ pos 100) × (codes "a" ≡ codes "a")) ⊎ Collides keyed (codes "s"))
verify-sign_example =
    verify-sign codes keyed "s" (pos 100) (pos 100) (codes "a") (codes "a") (pos 300) 150 accepted

signed_message-injective_example : let t = negsuc 16 in (t ≡ t) × (codes "a.b" ≡ codes "a.b")
signed_message-injective_example =
    signed_message-injective (negsuc 16) (negsuc 16) (codes "a.b") (codes "a.b") refl

computed : compute_backoff_seconds (λ a b. b) (pos 3) 1_000_000 60_000_000 ≡ ok 8_000_000
unfolding compute_backoff_seconds backoff_bound
computed = refl
