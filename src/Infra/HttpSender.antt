-- ===== src/Infra/HttpSender.antt =====
-- src/relay/infra/http_sender.py: the result of one outbound delivery attempt, and the port
-- `OutboundHttpSender` that the service depends on.
use relay_webhooks.Prelude.{
  ℕ, String, Bool, true, false, Option, none, some, List, Bytes, ◌&&◌, leb, ltb,
}
use relay_webhooks.Prelude.Result.{Result}
use relay_webhooks.Domain.Deliveries.{AttemptErrorClass}

pub record OutboundHttpResult : Type 0 where
  pub latency_ms : ℕ
  pub status_code : Option ℕ
  pub error_class : Option AttemptErrorClass
  pub response_snippet : Option Bytes

-- `200 <= status_code < 300`
abbrev pub is_2xx : Option ℕ → Bool
is_2xx none = false
is_2xx (some code) = leb 200 code && ltb code 300

no_error : Option AttemptErrorClass → Bool
no_error none = true
no_error (some c) = false

unfoldable pub succeeded : OutboundHttpResult → Bool
unfolding no_error
succeeded r = no_error r.error_class && is_2xx r.status_code

-- `OutboundHttpSender.send`: the result, or the exception that escapes, and the microseconds that
-- the call takes.
abbrev pub OutboundHttpSender : Type 0
OutboundHttpSender = String → Bytes → List (String × Bytes) → Result OutboundHttpResult × ℕ
