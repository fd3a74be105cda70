-- ===== src/Infra/Metrics.antt =====
-- src/relay/infra/metrics.py: the label of an attempt's outcome.
use relay_webhooks.Prelude.{String, Bool, Option, none, some, if◌then◌else◌}
use relay_webhooks.Domain.Deliveries.{
  AttemptErrorClass, http_error, timeout, connection_error, ssrf_blocked,
}

-- the string `error_class.value`, or "retry" where it is not one of the two
class_label : Option AttemptErrorClass → String
class_label (some ssrf_blocked) = "ssrf_blocked"
class_label (some timeout) = "timeout"
class_label (some http_error) = "retry"
class_label (some connection_error) = "retry"
class_label none = "retry"

unfoldable pub attempt_outcome_label : Bool → Bool → Option AttemptErrorClass → String
unfolding class_label
attempt_outcome_label succeeded exhausted error_class =
    if succeeded then "success" else if exhausted then "exhausted" else class_label error_class
