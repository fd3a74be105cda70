-- ===== src/Infra/Outbound.antt =====
-- src/relay/infra/http_sender.py, `HttpxOutboundSender`, over the transport of
-- src/relay/infra/pinned_transport.py, which connects to the pinned address. What the network and
-- the resolver answer may differ from hop to hop.
pub mod Hops
pub mod Escapes
use relay_webhooks.Prelude.{
  ℕ, zero, suc, ◌+◌, ◌/◌, String, str_eq, Bool, true, false, ◌&&◌, Option, none, some, List, [],
  ◌∷◌, Bytes, take, leb, ltb, filter_by, find_first, not, codes, is_some, if◌then◌else◌,
}
use relay_webhooks.Prelude.Result.{Error, Result, ok, err, assertion_error}
use relay_webhooks.Domain.Deliveries.{
  AttemptErrorClass, http_error, timeout, connection_error, ssrf_blocked,
}
use relay_webhooks.Infra.HttpSender.{OutboundHttpResult, OutboundHttpSender}
use relay_webhooks.Infra.SsrfGuard.{UrlParsing, Reason, SsrfCheckResult, check_url}

abbrev pub response_snippet_max_len : ℕ
response_snippet_max_len = 2048

abbrev pub max_redirect_hops : ℕ
max_redirect_hops = 3

-- one connection: the address that the transport is pinned to, the host that it keeps for the Host
-- header and SNI, and the POST
pub record Connection : Type 0 where
  pub pinned_ip : String
  pub original_host : String
  pub url : String
  pub payload : Bytes
  pub headers : List (String × Bytes)

-- how `client.post` ends
pub data PostOutcome : Type 0 where
  responded : (status_code : ℕ) → (location : Option String) → (text : Bytes) → PostOutcome
  timed_out http_failed : PostOutcome
  raised : Error → PostOutcome

-- What is not under the repository's control, for the hop of the given number: DNS, the HTTP
-- client, with the microseconds that each takes, and the texts.
pub record Network : Type 0 where
  pub parsing : UrlParsing
  pub resolver : ℕ → String → Result (List String)
  pub resolve_time : ℕ → ℕ
  pub post : ℕ → Connection → PostOutcome × ℕ
  pub urljoin : String → String → String
  pub reason_text : Option Reason → Option Bytes
  pub budget_text : String → Bytes

-- the adapter's own configuration
pub record SenderConfig : Type 0 where
  pub allowed_ports : List ℕ
  pub user_agent : Bytes

-- `{"User-Agent": self._user_agent, **headers}`: a header of that name takes the value over
abbrev pub agent_or : Bytes → Option (String × Bytes) → Bytes
agent_or agent none = agent
agent_or agent (some given) = given.1

unfoldable pub with_user_agent : Bytes → List (String × Bytes) → List (String × Bytes)
with_user_agent agent headers =
    ("User-Agent", agent_or agent (find_first (λ h. str_eq h.0 "User-Agent") headers))
    ∷ filter_by (λ h. not (str_eq h.0 "User-Agent")) headers

abbrev pub elapsed_ms : ℕ → ℕ
elapsed_ms elapsed = elapsed / 1000

-- `location` is not None and not empty
abbrev pub location_of : Option String → Option String
location_of none = none
location_of (some l) = if str_eq l "" then none else some l

-- the redirect to follow: `300 <= status_code < 400 and location`
abbrev pub redirect_of : ℕ → Option String → Option String
redirect_of code location = if leb 300 code && ltb code 400 then location_of location else none

unfoldable pub failed : ℕ → Option ℕ → AttemptErrorClass → Option Bytes → OutboundHttpResult
failed elapsed code error_class snippet = record {
  latency_ms = elapsed_ms elapsed;
  status_code = code;
  error_class = some error_class;
  response_snippet = snippet;
}

-- the result of a response that is not followed
unfoldable pub final_response : ℕ → ℕ → Bytes → OutboundHttpResult
unfolding failed
final_response elapsed code text =
    let snippet = some (take response_snippet_max_len text) in
    if leb 200 code && ltb code 300
    then record {
      latency_ms = elapsed_ms elapsed;
      status_code = some code;
      error_class = none;
      response_snippet = snippet;
    }
    else failed elapsed (some code) http_error snippet

-- the result or exception, the connections made, and the time taken
pub record Sending : Type 0 where
  pub result : Result OutboundHttpResult
  pub connections : List Connection
  pub elapsed : ℕ

unfoldable pub finish : OutboundHttpResult → ℕ → Sending
finish r elapsed = record { result = ok r; connections = []; elapsed = elapsed }

unfoldable pub escape : Error → ℕ → Sending
escape e elapsed = record { result = err e; connections = []; elapsed = elapsed }

-- the assertion after the check
abbrev pub both : Option String → Option String → Option (String × String)
both (some host) (some ip) = some (host, ip)
both _ _ = none

abbrev pub pin_of : SsrfCheckResult → Option (String × String)
pin_of r = both r.hostname r.resolved_ip

-- `check_url` of this hop
unfoldable pub check_hop : Network → SenderConfig → ℕ → String → Result SsrfCheckResult
check_hop net cfg hop url = check_url net.parsing cfg.allowed_ports (net.resolver hop) url

-- A response: a redirect goes to the next iteration `follow`, if there is one.
unfoldable pub after_response :
    Network → String → ℕ → Bytes → Option String → Option (String → ℕ → Sending) → ℕ → Sending
unfolding failed
after_response net url code text none follow elapsed =
    finish (final_response elapsed code text) elapsed
after_response net url code text (some target) none elapsed =
    finish (failed elapsed (some code) http_error (some (net.budget_text target))) elapsed
after_response net url code text (some target) (some next) elapsed =
    next (net.urljoin url target) elapsed

-- the code after `client.post`
unfoldable pub after_post :
    Network → String → PostOutcome → Option (String → ℕ → Sending) → ℕ → Sending
unfolding failed
after_post net url timed_out follow elapsed = finish (failed elapsed none timeout none) elapsed
after_post net url http_failed follow elapsed =
    finish (failed elapsed none connection_error none) elapsed
after_post net url (raised e) follow elapsed = escape e elapsed
after_post net url (responded code location text) follow elapsed =
    after_response net url code text (redirect_of code location) follow elapsed

module _ (net : Network) (cfg : SenderConfig) (payload : Bytes)
    (headers : List (String × Bytes)) where
  -- a connection to the checked address
  unfoldable pub connect :
      ℕ → String → Option (String × String) → Option (String → ℕ → Sending) → ℕ → Sending
  connect hop url none follow elapsed = escape assertion_error elapsed
  connect hop url (some (host, ip)) follow elapsed =
      let connection : Connection = record {
        pinned_ip = ip;
        original_host = host;
        url = url;
        payload = payload;
        headers = headers;
      } in
      let (outcome, took) = net.post hop connection in
      let rest = after_post net url outcome follow (elapsed + took) in
      record rest { connections = connection ∷ rest.connections }

  -- the code after the check
  unfoldable pub checked :
      ℕ → String → Result SsrfCheckResult → Option (String → ℕ → Sending) → ℕ → Sending
  unfolding failed
  checked hop url (err e) follow elapsed = escape e elapsed
  checked hop url (ok check) follow elapsed =
      if check.allowed
      then connect hop url (pin_of check) follow elapsed
      else finish (failed elapsed none ssrf_blocked (net.reason_text check.reason)) elapsed

  -- The iterations from `hop` on, of which `left` may follow this one: `hop` is the last of the
  -- range exactly if `left` is 0, so the code after the loop is never reached.
  unfoldable pub send_from : ℕ → ℕ → String → ℕ → Sending
  unfolding check_hop
  send_from zero hop url elapsed =
      checked hop url (check_hop net cfg hop url) none (elapsed + net.resolve_time hop)
  send_from (suc left) hop url elapsed =
      checked hop url (check_hop net cfg hop url) (some (send_from left (hop + 1)))
        (elapsed + net.resolve_time hop)

  unfoldable pub send_all : String → Sending
  unfolding send_from
  send_all url = send_from max_redirect_hops 0 url 0

-- `HttpxOutboundSender.send`, behind the port that the service takes
unfoldable pub httpx_send : Network → SenderConfig → OutboundHttpSender
unfolding send_all
httpx_send net cfg url payload headers =
    let s = send_all net cfg payload (with_user_agent cfg.user_agent headers) url in
    (s.result, s.elapsed)
