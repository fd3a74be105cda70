-- ===== src/Infra/SsrfGuard.antt =====
-- src/relay/infra/ssrf_guard.py, `check_url`.
pub mod Sound
pub mod Raises
use relay_webhooks.Prelude.{
  ℕ, ◌==◌, String, str_eq, Bool, true, false, ◌||◌, not, Option, none, some, List, [], ◌∷◌, any,
  if◌then◌else◌,
}
use relay_webhooks.Prelude.Result.{Error, Result, ok, err, os_error}
use relay_webhooks.Infra.Addresses.{Ip, is_denied}

-- `urlsplit(url)` with its lazy `port`, which may raise ValueError
pub record SplitUrl : Type 0 where
  pub scheme : String
  pub hostname : Option String
  pub port : Result (Option ℕ)

-- `urlsplit`, which may raise ValueError, and `ipaddress.ip_address`, which raises ValueError on a
-- text that is no address
pub record UrlParsing : Type 0 where
  pub urlsplit : String → Result SplitUrl
  pub ip_address : String → Result Ip

-- what the texts of `reason` say
pub data Reason : Type 0 where
  unsupported_scheme : String → Reason
  no_host dns_failed dns_empty : Reason
  port_not_allowed : ℕ → Reason
  address_denied : String → Reason

pub record SsrfCheckResult : Type 0 where
  pub allowed : Bool
  pub hostname : Option String
  pub port : Option ℕ
  pub resolved_ip : Option String
  pub reason : Option Reason

abbrev pub blocked : Option String → Option ℕ → Option String → Reason → SsrfCheckResult
blocked hostname port resolved_ip reason = record {
  allowed = false;
  hostname = hostname;
  port = port;
  resolved_ip = resolved_ip;
  reason = some reason;
}

-- `not hostname`: a host that is missing or empty
abbrev pub host_of : Option String → Option String
host_of none = none
host_of (some name) = if str_eq name "" then none else some name

-- `parsed.port or (443 if parsed.scheme == "https" else 80)`: the port 0 counts as none
abbrev pub port_or_default : Option ℕ → String → ℕ
port_or_default none scheme = if str_eq scheme "https" then 443 else 80
port_or_default (some p) scheme = if p == 0 then (if str_eq scheme "https" then 443 else 80) else p

abbrev pub is_http : String → Bool
is_http scheme = str_eq scheme "http" || str_eq scheme "https"

-- `except OSError`
abbrev pub is_os_error : Error → Bool
is_os_error os_error = true
is_os_error e = false

module _ (lib : UrlParsing) where
  -- the loop over the candidates; `first` is the one to pin
  unfoldable pub check_candidates : String → ℕ → String → List String → Result SsrfCheckResult
  check_candidates hostname port first [] = ok (record {
    allowed = true;
    hostname = some hostname;
    port = some port;
    resolved_ip = some first;
    reason = none;
  })
  check_candidates hostname port first (candidate ∷ rest) = elim (lib.ip_address candidate) [
    | ok ip ↦
        if is_denied ip
        then ok (blocked (some hostname) (some port) (some candidate) (address_denied candidate))
        else check_candidates hostname port first rest
    | err e ↦ err e
  ]

  -- what `resolver(hostname)` returned or raised
  unfoldable pub check_resolved : String → ℕ → Result (List String) → Result SsrfCheckResult
  check_resolved hostname port (ok []) = ok (blocked (some hostname) (some port) none dns_empty)
  check_resolved hostname port (ok (first ∷ rest)) =
      check_candidates hostname port first (first ∷ rest)
  check_resolved hostname port (err e) =
      if is_os_error e then ok (blocked (some hostname) (some port) none dns_failed) else err e

  module _ (allowed_ports : List ℕ) (resolver : String → Result (List String)) where
    unfoldable pub check_port : String → String → Result (Option ℕ) → Result SsrfCheckResult
    check_port scheme hostname (err e) = err e
    check_port scheme hostname (ok given) =
        let port = port_or_default given scheme in
        if any (λ p. p == port) allowed_ports
        then check_resolved hostname port (resolver hostname)
        else ok (blocked (some hostname) (some port) none (port_not_allowed port))

    unfoldable pub check_host : SplitUrl → Option String → Result SsrfCheckResult
    check_host parsed none = ok (blocked none none none no_host)
    check_host parsed (some hostname) = check_port parsed.scheme hostname parsed.port

    unfoldable pub check_split : Result SplitUrl → Result SsrfCheckResult
    check_split (err e) = err e
    check_split (ok parsed) =
        if is_http parsed.scheme
        then check_host parsed (host_of parsed.hostname)
        else ok (blocked none none none (unsupported_scheme parsed.scheme))

    unfoldable pub check_url : String → Result SsrfCheckResult
    check_url url = check_split (lib.urlsplit url)
