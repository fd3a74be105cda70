-- ===== src/Api/Middleware/BodySize.antt =====
-- The limit on the declared size of a body.
use relay_webhooks.Prelude.{ℕ, ◌≤◌, ◌<◌, ◌≡◌, refl, true, false, some, ltb, Bytes, arith, length}
use relay_webhooks.Prelude.Result.{ok}
use relay_webhooks.Prelude.IntText.{AreDigits, max_digits, spelled, int_of_bytes-digits}
use relay_webhooks.Platform.Storage.{Storage}
use relay_webhooks.Platform.Redis.{Redis}
use relay_webhooks.World.{World, Exec, ◌>>=◌, pure}
use relay_webhooks.Api.Middleware.{
  Scope, passed, refused, content_length, declared_bytes, limit_body, refusal, too_large,
}

module _ ⦃σ : Storage⦄ ⦃ρ : Redis⦄ {A : Type 0} (max_bytes : ℕ) (scope : Scope) (app : Exec A)
    (w : World) (size : Bytes) where
  -- A request whose Content-Length is decimal digits, not more than `int` takes: above the limit
  -- it is answered with a 413 that names the declared length, the limit and the path, and the
  -- application is not called; up to the limit it is the application's.
  pub limit_body-digits :
      scope.is_http ≡ true
      → content_length scope.headers ≡ some size
      → AreDigits size
      → 0 < length size
      → length size ≤ max_digits
      → (max_bytes < spelled 0 size
          → limit_body max_bytes scope app w
            ≡ (ok (refused (too_large (spelled 0 size) max_bytes scope.path)), w))
        × (spelled 0 size ≤ max_bytes
            → limit_body max_bytes scope app w ≡ (app >>= λ response. pure (passed response)) w)
  unfolding limit_body refusal declared_bytes
  limit_body-digits http at_size digits some_digit few =
      let read = int_of_bytes-digits size digits some_digit few in
      (
        λ large.
            let over : ltb max_bytes (spelled 0 size) ≡ true = ground arith in
            rw (http, at_size, read, over) refl,
        λ small.
            let under : ltb max_bytes (spelled 0 size) ≡ false = ground arith in
            rw (http, at_size, read, under) refl,
      )
