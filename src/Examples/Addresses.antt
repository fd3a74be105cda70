-- ===== src/Examples/Addresses.antt =====
-- The guard and the sender at concrete inputs: `shop` redirects to `inner`, whose address is private.
use relay_webhooks.Prelude.{
  ◌≡◌, ◌+◌, ◌*◌, ◌^◌, ◌&&◌, not, refl, true, false, none, some, [], ◌∷◌, String, str_eq, List,
  codes, inl, inr, arith, if◌then◌else◌,
}
use relay_webhooks.Prelude.Result.{Result, ok, err, value_error}
use relay_webhooks.Infra.Addresses.{v4, v6, octets, is_denied, in_network, cgnat_network}
use relay_webhooks.Infra.Addresses.Ranges.{is_denied-internal, is_denied-mapped}
use relay_webhooks.Infra.SsrfGuard.{
  UrlParsing, SsrfCheckResult, check_url, check_split, check_host, check_port, check_resolved,
  check_candidates,
}
use relay_webhooks.Infra.SsrfGuard.Sound.{Passed, check_url-Passed}
use relay_webhooks.Infra.Outbound.{
  Network, SenderConfig, responded, send_all, send_from, check_hop, checked, connect, after_post,
  after_response, escape,
}
use relay_webhooks.Infra.Outbound.Escapes.{Accounts, send_all-Accounts}
use relay_webhooks.Infra.Outbound.Hops.{AreVetted, send_all-AreVetted}

is_denied-internal_example : is_denied (v4 (octets 10 0 0 5)) ≡ true
is_denied-internal_example =
    is_denied-internal (octets 10 0 0 5) (inr (inl (omega arith, omega arith)))

-- a URL is the name of its host
abbrev parsing : UrlParsing
parsing = record {
  urlsplit = λ url. ok (record { scheme = "https"; hostname = some url; port = ok none });
  ip_address = λ t. ok (v4 (if str_eq t "8.8.8.8" then octets 8 8 8 8 else octets 10 0 0 5));
}

abbrev resolve : String → Result (List String)
resolve host = if str_eq host "shop" then ok ("8.8.8.8" ∷ []) else ok ("10.0.0.5" ∷ [])

abbrev pinned : SsrfCheckResult
pinned = record {
  allowed = true;
  hostname = some "shop";
  port = some 443;
  resolved_ip = some "8.8.8.8";
  reason = none;
}

passing : check_url parsing (443 ∷ []) resolve "shop" ≡ ok pinned
unfolding check_url check_split check_host check_port check_resolved check_candidates is_denied
passing = refl

check_url-Passed_example : Passed parsing (443 ∷ []) resolve "shop" pinned
check_url-Passed_example = check_url-Passed parsing (443 ∷ []) resolve "shop" pinned passing refl

abbrev net : Network
net = record {
  parsing = parsing;
  resolver = λ hop. resolve;
  resolve_time = λ hop. 2_000;
  post = λ hop c. (responded 302 (some "inner") [], 10_000);
  urljoin = λ base target. target;
  reason_text = λ r. none;
  budget_text = codes;
}

abbrev config : SenderConfig
config = record { allowed_ports = 443 ∷ []; user_agent = codes "relay" }

send_all-AreVetted_example : AreVetted net config 4 (send_all net config [] [] "shop")
send_all-AreVetted_example = send_all-AreVetted net config [] [] "shop"

-- a destination that redirects to a URL whose port is no number
abbrev crooked : Network
crooked = record net {
  parsing = record parsing {
    urlsplit = λ url. ok (record {
      scheme = "https";
      hostname = some url;
      port = if str_eq url "inner" then err value_error else ok none;
    });
  };
}

raised_test : (send_all crooked config [] [] "shop").result ≡ err value_error
unfolding send_all send_from check_hop checked connect after_post after_response escape check_url
    check_split check_host check_port check_resolved check_candidates is_denied
raised_test = refl

send_all-Accounts_example : Accounts crooked config (send_all crooked config [] [] "shop").result
send_all-Accounts_example = send_all-Accounts crooked config [] [] "shop"

is_denied-mapped_example :
    is_denied (v6 (65_535 * 2 ^ 32 + octets 100 64 0 1))
    ≡ (is_denied (v4 (octets 100 64 0 1)) && not (in_network (octets 100 64 0 1) cgnat_network))
is_denied-mapped_example = is_denied-mapped (octets 100 64 0 1) (omega arith)

carrier_allowed : is_denied (v6 (65_535 * 2 ^ 32 + octets 100 64 0 1)) ≡ false
unfolding is_denied
carrier_allowed = refl
