-- ===== src/Infra/SsrfGuard/Sound.antt =====
-- What an allowed URL has passed.
use relay_webhooks.Prelude.{
  ℕ, ◌==◌, ◌≡◌, refl, arith, String, List, [], ◌∷◌, Option, some, none, true, false, All, any,
  Bool-cases, inl, inr,
}
use relay_webhooks.Prelude.Result.{Result, ok, err}
use relay_webhooks.Infra.Addresses.{Ip, is_denied}
use relay_webhooks.Infra.SsrfGuard.{
  UrlParsing, SplitUrl, SsrfCheckResult, check_candidates, check_resolved, check_port, check_host,
  check_split, check_url, is_http, port_or_default, host_of,
}

module _ (lib : UrlParsing) where
  -- a text that is an address which is not denied
  abbrev pub IsPublic : String → Type 0
  IsPublic candidate = (ip : Ip) × (lib.ip_address candidate ≡ ok ip) × (is_denied ip ≡ false)

  abbrev IsPinned : String → ℕ → String → SsrfCheckResult → Type 0
  IsPinned hostname port first r =
      (r.hostname ≡ some hostname) × (r.port ≡ some port) × (r.resolved_ip ≡ some first)

  candidate_step :
      (hostname : String) (port : ℕ) (first c : String) (rest : List String) (r : SsrfCheckResult)
      (found : Result Ip)
      → lib.ip_address c ≡ found
      → check_candidates lib hostname port first (c ∷ rest) ≡ ok r
      → r.allowed ≡ true
      → IsPublic c × (check_candidates lib hostname port first rest ≡ ok r)
  unfolding check_candidates
  candidate_step hostname port first c rest r (ok ip) e h a = elim (Bool-cases (is_denied ip)) [
    | inl denied ↦ absurd (ground arith)
    | inr open_ ↦ ((ip, e, open_), ground arith)
  ]
  candidate_step hostname port first c rest r (err x) e h a = absurd (ground arith)

  candidates-IsPublic :
      (hostname : String) (port : ℕ) (first : String) (candidates : List String)
      (r : SsrfCheckResult)
      → check_candidates lib hostname port first candidates ≡ ok r
      → r.allowed ≡ true
      → All IsPublic candidates × IsPinned hostname port first r
  unfolding check_candidates
  candidates-IsPublic hostname port first [] r h a = ground arith
  candidates-IsPublic hostname port first (c ∷ rest) r h a =
      let (public, goes_on) =
        candidate_step hostname port first c rest r (lib.ip_address c) refl h a in
      let (all, pin) = candidates-IsPublic hostname port first rest r goes_on a in
      ((public, all), pin)

  -- a URL that passed: its parts, and the addresses that its host resolved to
  pub record Passed (allowed_ports : List ℕ) (resolver : String → Result (List String))
      (url : String) (r : SsrfCheckResult) : Type 0 where
    pub parsed : SplitUrl
    pub hostname : String
    pub port : ℕ
    pub first : String
    pub rest : List String
    pub splits : lib.urlsplit url ≡ ok parsed
    pub over_http : is_http parsed.scheme ≡ true
    pub on_allowed_port : any (λ p. p == port) allowed_ports ≡ true
    pub resolves : resolver hostname ≡ ok (first ∷ rest)
    pub public_only : All IsPublic (first ∷ rest)
    pub pinned : IsPinned hostname port first r

  module _ (allowed_ports : List ℕ) (resolver : String → Result (List String)) (r : SsrfCheckResult)
      (a : r.allowed ≡ true) where
    -- a list of candidates that was allowed
    abbrev Resolved : String → ℕ → Result (List String) → Type 0
    Resolved hostname port found =
        (first : String) × (rest : List String) × (found ≡ ok (first ∷ rest))
        × All IsPublic (first ∷ rest)
        × IsPinned hostname port first r

    resolved_lem :
        (hostname : String) (port : ℕ) (found : Result (List String))
        → check_resolved lib hostname port found ≡ ok r
        → Resolved hostname port found
    unfolding check_resolved
    resolved_lem hostname port (ok []) h = absurd (ground arith)
    resolved_lem hostname port (ok (first ∷ rest)) h =
        let (all, pin) = candidates-IsPublic hostname port first (first ∷ rest) r h a in
        (first, rest, refl, all, pin)
    resolved_lem hostname port (err e) h = absurd (ground arith)

    port_lem :
        (url : String) (parsed : SplitUrl) (hostname : String) (found : Result (Option ℕ))
        → lib.urlsplit url ≡ ok parsed
        → is_http parsed.scheme ≡ true
        → check_port lib allowed_ports resolver parsed.scheme hostname found ≡ ok r
        → Passed allowed_ports resolver url r
    unfolding check_port
    port_lem url parsed hostname (err e) splits over h = absurd (ground arith)
    port_lem url parsed hostname (ok given) splits over h =
        let port = port_or_default given parsed.scheme in
        elim (Bool-cases (any (λ p. p == port) allowed_ports)) [
          | inl listed ↦
              let (first, rest, resolves, all, pin) =
                resolved_lem hostname port (resolver hostname) (ground arith) in
              record {
                parsed = parsed;
                hostname = hostname;
                port = port;
                first = first;
                rest = rest;
                splits = splits;
                over_http = over;
                on_allowed_port = listed;
                resolves = resolves;
                public_only = all;
                pinned = pin;
              }
          | inr unlisted ↦ absurd (ground arith)
        ]

    host_lem :
        (url : String) (parsed : SplitUrl) (host : Option String)
        → lib.urlsplit url ≡ ok parsed
        → is_http parsed.scheme ≡ true
        → check_host lib allowed_ports resolver parsed host ≡ ok r
        → Passed allowed_ports resolver url r
    unfolding check_host
    host_lem url parsed none splits over h = absurd (ground arith)
    host_lem url parsed (some hostname) splits over h =
        port_lem url parsed hostname parsed.port splits over h

    split_lem :
        (url : String) (found : Result SplitUrl)
        → lib.urlsplit url ≡ found
        → check_split lib allowed_ports resolver found ≡ ok r
        → Passed allowed_ports resolver url r
    unfolding check_split
    split_lem url (err e) splits h = absurd (ground arith)
    split_lem url (ok parsed) splits h = elim (Bool-cases (is_http parsed.scheme)) [
      | inl over ↦ host_lem url parsed (host_of parsed.hostname) splits over (ground arith)
      | inr other ↦ absurd (ground arith)
    ]

  pub check_url-Passed :
      (allowed_ports : List ℕ) (resolver : String → Result (List String)) (url : String)
      (r : SsrfCheckResult)
      → check_url lib allowed_ports resolver url ≡ ok r
      → r.allowed ≡ true
      → Passed allowed_ports resolver url r
  unfolding check_url
  check_url-Passed allowed_ports resolver url r h a =
      split_lem allowed_ports resolver r a url (lib.urlsplit url) refl h
