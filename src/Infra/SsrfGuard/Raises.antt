-- ===== src/Infra/SsrfGuard/Raises.antt =====
-- What the guard raises.
use relay_webhooks.Prelude.{
  ℕ, ◌==◌, ◌≡◌, ◌⊎◌, ◌∙◌, ap, refl, String, List, [], ◌∷◌, Option, some, none, false, any,
  Bool-cases, inl, inr,
}
use relay_webhooks.Prelude.Result.{Error, Result, Result-cases, ok, err}
use relay_webhooks.Infra.Addresses.{is_denied}
use relay_webhooks.Infra.SsrfGuard.{
  UrlParsing, SplitUrl, SsrfCheckResult, check_candidates, check_resolved, check_port, check_host,
  check_split, check_url, is_http, port_or_default, host_of, is_os_error,
}

err-injective : {x e : Error} → ◌≡◌ {A = Result SsrfCheckResult} (err x) (err e) → x ≡ e
err-injective h = cc

abbrev pub IsAmong : String → List String → Type 0
IsAmong c [] = ⊥
IsAmong c (x ∷ xs) = (x ≡ c) ⊎ IsAmong c xs

module _ (lib : UrlParsing) (resolver : String → Result (List String)) where
  -- Where an exception of the guard comes from, for a URL: `urlsplit`, its `port`, the resolver on
  -- its host, if it is no OSError, and `ip_address` on an address of its host.
  pub data RaisedFor (url : String) (e : Error) : Type 0 where
    by_urlsplit : lib.urlsplit url ≡ err e → RaisedFor url e
    by_port : (p : SplitUrl) → lib.urlsplit url ≡ ok p → p.port ≡ err e → RaisedFor url e
    by_resolver :
        (p : SplitUrl) (host : String)
        → lib.urlsplit url ≡ ok p
        → host_of p.hostname ≡ some host
        → resolver host ≡ err e
        → is_os_error e ≡ false
        → RaisedFor url e
    by_address :
        (p : SplitUrl) (host candidate : String) (candidates : List String)
        → lib.urlsplit url ≡ ok p
        → host_of p.hostname ≡ some host
        → resolver host ≡ ok candidates
        → IsAmong candidate candidates
        → lib.ip_address candidate ≡ err e
        → RaisedFor url e

  module _ (allowed_ports : List ℕ) (url : String) (e : Error) where
    candidates_raise :
        (hostname : String) (port : ℕ) (first : String) (cs : List String)
        → check_candidates lib hostname port first cs ≡ err e
        → (c : String) × IsAmong c cs × (lib.ip_address c ≡ err e)
    unfolding check_candidates
    candidates_raise hostname port first [] h = cc
    candidates_raise hostname port first (c ∷ cs) h = elim (Result-cases (lib.ip_address c)) [
      | inr (x, bad) ↦ (c, inl refl, bad ∙ ap err (err-injective (rw (check_candidates, bad) at h)))
      | inl (ip, good) ↦ elim (Bool-cases (is_denied ip)) [
        | inl denied ↦ cc (rw (check_candidates, good, denied) at h)
        | inr open_ ↦
            let (c', among, bad) =
              candidates_raise hostname port first cs (rw (check_candidates, good, open_) at h) in
            (c', inr among, bad)
      ]
    ]

    module _ (p : SplitUrl) (splits : lib.urlsplit url ≡ ok p) where
      resolved-RaisedFor :
          (hostname : String) (port : ℕ) (found : Result (List String))
          → host_of p.hostname ≡ some hostname
          → resolver hostname ≡ found
          → check_resolved lib hostname port found ≡ err e
          → RaisedFor url e
      unfolding check_resolved
      resolved-RaisedFor hostname port (ok []) named r h = cc
      resolved-RaisedFor hostname port (ok (c ∷ cs)) named r h =
          let (c', among, bad) = candidates_raise hostname port c (c ∷ cs) h in
          by_address p hostname c' (c ∷ cs) splits named r among bad
      resolved-RaisedFor hostname port (err x) named r h = elim (Bool-cases (is_os_error x)) [
        | inl caught ↦ cc (rw caught at h)
        | inr other ↦
            let same : x ≡ e = cc (rw other at h) in
            by_resolver p hostname splits named (rw (← same) r) (rw (← same) other)
      ]

      port-RaisedFor :
          (hostname : String) (given : Option ℕ)
          → host_of p.hostname ≡ some hostname
          → check_port lib allowed_ports resolver p.scheme hostname (ok given) ≡ err e
          → RaisedFor url e
      unfolding check_port
      port-RaisedFor hostname given named h =
          let port = port_or_default given p.scheme in
          elim (Bool-cases (any (λ p. p == port) allowed_ports)) [
            | inl listed ↦
                resolved-RaisedFor hostname port (resolver hostname) named refl (rw listed at h)
            | inr unlisted ↦ cc (rw unlisted at h)
          ]

      host-RaisedFor :
          (host : Option String)
          → host_of p.hostname ≡ host
          → check_host lib allowed_ports resolver p host ≡ err e
          → RaisedFor url e
      unfolding check_host check_port
      host-RaisedFor none named h = cc
      host-RaisedFor (some hostname) named h = elim (Result-cases p.port) [
        | inl (given, read) ↦ port-RaisedFor hostname given named (rw read at h)
        | inr (x, bad) ↦ by_port p splits (bad ∙ ap err (err-injective (rw bad at h)))
      ]

    pub check_url-RaisedFor : check_url lib allowed_ports resolver url ≡ err e → RaisedFor url e
    unfolding check_url check_split
    check_url-RaisedFor h = elim (Result-cases (lib.urlsplit url)) [
      | inr (x, bad) ↦ by_urlsplit (bad ∙ ap err (err-injective (rw bad at h)))
      | inl (p, splits) ↦ elim (Bool-cases (is_http p.scheme)) [
        | inl over ↦ host-RaisedFor p splits (host_of p.hostname) refl (rw (splits, over) at h)
        | inr other ↦ cc (rw (splits, other) at h)
      ]
    ]
