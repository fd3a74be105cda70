-- ===== src/Api/Errors.antt =====
-- src/relay/api/errors.py: the status, type, title and Retry-After of the response to an exception.
use relay_webhooks.Prelude.{ℕ, ◌+◌, ◌-◌, ◌/◌, String, Option, none, some, ◌==◌, leb, if◌then◌else◌}
use relay_webhooks.Prelude.Result.{
  Error, not_found, conflict, idempotency_key_conflict, differing_body_conflict, delivery_not_dead,
  validation, cursor_decode, rate_limit_exceeded, payload_too_large, sandbox_quota_exceeded,
  ssrf_blocked, http_exception,
}

pub record Problem : Type 0 where
  pub status : ℕ
  pub type : String
  pub title : String
  pub retry_after : Option ℕ

-- `_TYPE_BY_STATUS.get(status_code, "about:blank")`
unfoldable pub type_by_status : ℕ → String
type_by_status code =
    if code == 401
    then "/problems/unauthorized"
    else if code == 403
    then "/problems/forbidden"
    else if code == 404
    then "/problems/not-found"
    else if code == 409
    then "/problems/conflict"
    else if code == 422
    then "/problems/validation-error"
    else if code == 413
    then "/problems/payload-too-large"
    else if code == 429
    then "/problems/rate-limited"
    else if code == 500
    then "/problems/internal-error"
    else "about:blank"

-- `_TITLE_BY_STATUS.get(status_code, "Error")`
unfoldable pub title_by_status : ℕ → String
title_by_status code =
    if code == 401
    then "Unauthorized"
    else if code == 403
    then "Forbidden"
    else if code == 404
    then "Not Found"
    else if code == 409
    then "Conflict"
    else if code == 413
    then "Payload Too Large"
    else if code == 422
    then "Validation Error"
    else if code == 429
    then "Too Many Requests"
    else if code == 500
    then "Internal Server Error"
    else "Error"

unfoldable pub problem_response : ℕ → Option ℕ → Problem
unfolding type_by_status title_by_status
problem_response status retry_after = record {
  status = status;
  type = type_by_status status;
  title = title_by_status status;
  retry_after = retry_after;
}

-- the first entry of `_DOMAIN_ERROR_STATUS` whose class the exception is an instance of; `none`
-- for the other subclasses of `DomainError`
unfoldable pub domain_error_status : Error → Option ℕ
domain_error_status not_found = some 404
domain_error_status conflict = some 409
domain_error_status idempotency_key_conflict = some 409
domain_error_status differing_body_conflict = some 409
domain_error_status delivery_not_dead = some 409
domain_error_status (payload_too_large actual top) = some 413
domain_error_status (sandbox_quota_exceeded resource limit) = some 403
domain_error_status ssrf_blocked = some 422
domain_error_status validation = some 422
domain_error_status cursor_decode = some 422
domain_error_status e = none

-- `math.ceil(needed / rate)`
abbrev pub ceil_div : ℕ → ℕ → ℕ
ceil_div needed rate = (needed + (rate - 1)) / rate

-- `max(1, math.ceil(seconds))`
unfoldable pub retry_after_header : ℕ → ℕ → ℕ
retry_after_header needed rate =
    let seconds = ceil_div needed rate in if leb 1 seconds then seconds else 1

mapped_status : Option ℕ → Problem
mapped_status (some status) = problem_response status none
mapped_status none = problem_response 500 none

unfoldable pub domain_error_handler : Error → Problem
unfolding retry_after_header mapped_status
domain_error_handler (rate_limit_exceeded needed rate) =
    problem_response 429 (some (retry_after_header needed rate))
domain_error_handler e = mapped_status (domain_error_status e)

-- which handler `install_error_handlers` registers for the exception
unfoldable pub handle : Error → Problem
unfolding domain_error_handler
handle (http_exception status) = problem_response status none
handle e = domain_error_handler e
