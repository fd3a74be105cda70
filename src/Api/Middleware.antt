-- ===== src/Api/Middleware.antt =====
-- src/relay/api/middleware.py. The application behind a middleware is an argument; logging and the
-- histogram of durations are left out.
pub mod BodySize
use relay_webhooks.Prelude.{
  ℕ, String, ◌≡◌, Bool, true, false, Option, none, some, List, Bytes, bytes_eq, codes, find_first,
  is_empty, ltb, if◌then◌else◌,
}
use relay_webhooks.Prelude.Int.{ℤ, pos, negsuc}
use relay_webhooks.Prelude.IntText.{int_of_bytes}
use relay_webhooks.Platform.Storage.{Storage}
use relay_webhooks.Platform.Redis.{Redis}
use relay_webhooks.World.{World, Exec, ◌>>=◌, pure}

-- What the code reads of an ASGI scope. Header names are in lower case, as ASGI has them.
pub record Scope : Type 0 where
  pub is_http : Bool
  pub path : String
  pub headers : List (Bytes × Bytes)

-- The body of the 413 that the middleware sends, with the two numbers of its `detail`. Unlike those
-- of the error handlers it has no `trace_id`.
pub record TooLarge : Type 0 where
  pub type : String
  pub title : String
  pub status : ℕ
  pub declared : ℕ
  pub max : ℕ
  pub path : String

-- The response of the application, or the one that the middleware sends in its place.
pub data Answer (A : Type 0) : Type 0 where
  passed : A → Answer A
  refused : TooLarge → Answer A

abbrev pub too_large : ℕ → ℕ → String → TooLarge
too_large declared max_bytes path = record {
  type = "/problems/payload-too-large";
  title = "Payload Too Large";
  status = 413;
  declared = declared;
  max = max_bytes;
  path = path;
}

abbrev value_of : Option (Bytes × Bytes) → Option Bytes
value_of none = none
value_of (some header) = some header.1

unfoldable pub content_length : List (Bytes × Bytes) → Option Bytes
content_length headers =
    value_of (find_first (λ (h : Bytes × Bytes). bytes_eq h.0 (codes "content-length")) headers)

-- a length that is no number counts as 0; a negative one is below every limit
abbrev int_or_zero : Option ℤ → ℕ
int_or_zero none = 0
int_or_zero (some (pos n)) = n
int_or_zero (some (negsuc n)) = 0

unfoldable pub declared_bytes : Bytes → ℕ
declared_bytes length = int_or_zero (int_of_bytes length)

-- the response to a declared length above the limit
unfoldable pub refusal : ℕ → String → Option Bytes → Option TooLarge
unfolding declared_bytes
refusal max_bytes path none = none
refusal max_bytes path (some length) =
    let declared = declared_bytes length in
    if ltb max_bytes declared then some (too_large declared max_bytes path) else none

-- `request.headers.get(TRACE_ID_HEADER) or str(uuid.uuid4())`
abbrev pub trace_id_of : Option Bytes → Bytes → Bytes
trace_id_of none fresh = fresh
trace_id_of (some given) fresh = if is_empty given then fresh else given

module _ ⦃σ : Storage⦄ ⦃ρ : Redis⦄ {A : Type 0} where
  abbrev pub respond : Exec A → Option TooLarge → Exec (Answer A)
  respond app (some response) = pure (refused response)
  respond app none = do response ← app; pure (passed response)

  -- `MaxBodySizeMiddleware.__call__`
  unfoldable pub limit_body : ℕ → Scope → Exec A → Exec (Answer A)
  unfolding refusal content_length
  limit_body max_bytes scope app =
      if scope.is_http
      then respond app (refusal max_bytes scope.path (content_length scope.headers))
      else respond app none

  -- `TraceIdMiddleware.dispatch`: the handlers get the trace id, and the response carries it. An
  -- exception passes through.
  unfoldable pub trace : Option Bytes → Bytes → (Bytes → Exec A) → Exec (A × Bytes)
  trace header fresh call_next = do
    let trace_id = trace_id_of header fresh
    response ← call_next trace_id
    pure (response, trace_id)
