-- ===== src/Infra/Outbound/Hops.antt =====
-- Every hop is checked, and there are at most four.
use relay_webhooks.Prelude.{
  ℕ, zero, suc, ◌+◌, ◌≤◌, ◌≡◌, refl, subst, arith, String, List, Option, some, none, true, All,
  length, Bytes, Bool-cases, inl, inr,
}
use relay_webhooks.Prelude.Result.{Result, ok, err}
use relay_webhooks.Infra.SsrfGuard.{SsrfCheckResult}
use relay_webhooks.Infra.SsrfGuard.Sound.{Passed, check_url-Passed, IsPublic}
use relay_webhooks.Infra.Outbound.{
  Network, SenderConfig, Connection, Sending, PostOutcome, responded, timed_out, http_failed,
  raised, redirect_of, after_response, both, after_post, connect, checked, check_hop, send_from,
  send_all, finish, escape, pin_of, max_redirect_hops,
}

abbrev Next : Type 0
Next = Option (String → ℕ → Sending)

module _ (net : Network) (cfg : SenderConfig) where
  -- A connection to the address that the guard pinned for its URL, at some hop: the URL was
  -- allowed, and the address is not denied.
  abbrev pub IsVetted : Connection → Type 0
  IsVetted c =
      (hop : ℕ) × (r : SsrfCheckResult) × Passed net.parsing cfg.allowed_ports (net.resolver hop)
        c.url r
      × (r.hostname ≡ some c.original_host)
      × (r.resolved_ip ≡ some c.pinned_ip)
      × IsPublic net.parsing c.pinned_ip

  abbrev pub AreVetted : ℕ → Sending → Type 0
  AreVetted n s = All IsVetted s.connections × (length s.connections ≤ n)

  abbrev GoesOn : ℕ → Next → Type 0
  GoesOn n none = Unit
  GoesOn n (some next) = (url : String) (elapsed : ℕ) → AreVetted n (next url elapsed)

  vet :
      (hop : ℕ) (r : SsrfCheckResult) (c : Connection)
      → check_hop net cfg hop c.url ≡ ok r
      → r.allowed ≡ true
      → r.hostname ≡ some c.original_host
      → r.resolved_ip ≡ some c.pinned_ip
      → IsVetted c
  unfolding check_hop
  vet hop r c h a host ip =
      let p = check_url-Passed net.parsing cfg.allowed_ports (net.resolver hop) c.url r h a in
      let e : p.first ≡ c.pinned_ip = ground (arith, p.pinned) in
      (hop, r, p, host, ip, subst (IsPublic net.parsing) e p.public_only.0)

  after_response-AreVetted :
      (n : ℕ) (url : String) (code : ℕ) (text : Bytes) (target : Option String) (follow : Next)
      (elapsed : ℕ)
      → GoesOn n follow
      → AreVetted n (after_response net url code text target follow elapsed)
  unfolding after_response finish
  after_response-AreVetted n url code text none follow elapsed g = (tt, omega arith)
  after_response-AreVetted n url code text (some target) none elapsed g = (tt, omega arith)
  after_response-AreVetted n url code text (some target) (some next) elapsed g =
      g (net.urljoin url target) elapsed

  after_post-AreVetted :
      (n : ℕ) (url : String) (outcome : PostOutcome) (follow : Next) (elapsed : ℕ)
      → GoesOn n follow
      → AreVetted n (after_post net url outcome follow elapsed)
  unfolding after_post finish escape
  after_post-AreVetted n url timed_out follow elapsed g = (tt, omega arith)
  after_post-AreVetted n url http_failed follow elapsed g = (tt, omega arith)
  after_post-AreVetted n url (raised e) follow elapsed g = (tt, omega arith)
  after_post-AreVetted n url (responded code location text) follow elapsed g =
      after_response-AreVetted n url code text (redirect_of code location) follow elapsed g

  module _ (payload : Bytes) (headers : List (String × Bytes)) where
    pinned-AreVetted :
        (n hop : ℕ) (url host ip : String) (r : SsrfCheckResult) (follow : Next) (elapsed : ℕ)
        → check_hop net cfg hop url ≡ ok r
        → r.allowed ≡ true
        → r.hostname ≡ some host
        → r.resolved_ip ≡ some ip
        → GoesOn n follow
        → AreVetted
            (suc n)
            (connect net cfg payload headers hop url (some (host, ip)) follow elapsed)
    unfolding connect
    pinned-AreVetted n hop url host ip r follow elapsed h a has_host has_ip g =
        let c : Connection = record {
          pinned_ip = ip;
          original_host = host;
          url = url;
          payload = payload;
          headers = headers;
        } in
        let post = net.post hop c in
        let (rest, few) = after_post-AreVetted n url post.0 follow (elapsed + post.1) g in
        ((vet hop r c h a has_host has_ip, rest), omega (arith, few))

    unpinned-AreVetted :
        (n hop : ℕ) (url : String) (follow : Next) (elapsed : ℕ)
        → AreVetted n (connect net cfg payload headers hop url none follow elapsed)
    unfolding connect escape
    unpinned-AreVetted n hop url follow elapsed = (tt, omega arith)

    connect_pin :
        (n hop : ℕ) (url : String) (r : SsrfCheckResult) (host ip : Option String) (follow : Next)
        (elapsed : ℕ)
        → check_hop net cfg hop url ≡ ok r
        → r.allowed ≡ true
        → r.hostname ≡ host
        → r.resolved_ip ≡ ip
        → GoesOn n follow
        → AreVetted (suc n) (connect net cfg payload headers hop url (both host ip) follow elapsed)
    connect_pin n hop url r none ip follow elapsed h a eh ei g =
        unpinned-AreVetted (suc n) hop url follow elapsed
    connect_pin n hop url r (some host) none follow elapsed h a eh ei g =
        unpinned-AreVetted (suc n) hop url follow elapsed
    connect_pin n hop url r (some host) (some ip) follow elapsed h a eh ei g =
        pinned-AreVetted n hop url host ip r follow elapsed h a eh ei g

    connect-AreVetted :
        (n hop : ℕ) (url : String) (r : SsrfCheckResult) (follow : Next) (elapsed : ℕ)
        → check_hop net cfg hop url ≡ ok r
        → r.allowed ≡ true
        → GoesOn n follow
        → AreVetted (suc n) (connect net cfg payload headers hop url (pin_of r) follow elapsed)
    connect-AreVetted n hop url r follow elapsed h a g =
        connect_pin n hop url r r.hostname r.resolved_ip follow elapsed h a refl refl g

    checked-AreVetted :
        (n hop : ℕ) (url : String) (found : Result SsrfCheckResult) (follow : Next) (elapsed : ℕ)
        → check_hop net cfg hop url ≡ found
        → GoesOn n follow
        → AreVetted (suc n) (checked net cfg payload headers hop url found follow elapsed)
    unfolding checked finish escape
    checked-AreVetted n hop url (err e) follow elapsed h g = (tt, omega arith)
    checked-AreVetted n hop url (ok r) follow elapsed h g = elim (Bool-cases r.allowed) [
      | inl allowed ↦ rw allowed (connect-AreVetted n hop url r follow elapsed h allowed g)
      | inr blocked ↦ rw blocked (tt, omega arith)
    ]

    send_from-AreVetted :
        (left hop : ℕ) (url : String) (elapsed : ℕ)
        → AreVetted (suc left) (send_from net cfg payload headers left hop url elapsed)
    unfolding send_from
    send_from-AreVetted zero hop url elapsed = checked-AreVetted zero hop url _ none _ refl tt
    send_from-AreVetted (suc left) hop url elapsed =
        checked-AreVetted (suc left) hop url _ (some _) _ refl (send_from-AreVetted left (hop + 1))

    pub send_all-AreVetted : (url : String) → AreVetted 4 (send_all net cfg payload headers url)
    unfolding send_all
    send_all-AreVetted url = send_from-AreVetted max_redirect_hops 0 url 0
