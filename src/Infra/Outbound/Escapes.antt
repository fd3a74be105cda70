-- ===== src/Infra/Outbound/Escapes.antt =====
-- What the sender raises.
use relay_webhooks.Prelude.{
  ℕ, zero, suc, ◌+◌, ◌≡◌, refl, String, List, Option, some, none, Bytes, Bool-cases, inl, inr, ◌⊎◌,
}
use relay_webhooks.Prelude.Result.{Error, Result, Result-cases, ok, err}
use relay_webhooks.Infra.HttpSender.{OutboundHttpResult}
use relay_webhooks.Infra.SsrfGuard.Sound.{check_url-Passed}
use relay_webhooks.Infra.SsrfGuard.Raises.{RaisedFor, check_url-RaisedFor}
use relay_webhooks.Infra.Outbound.{
  Network, SenderConfig, Connection, Sending, PostOutcome, responded, timed_out, http_failed,
  raised, redirect_of, after_response, after_post, connect, checked, check_hop, send_from, send_all,
  finish, escape, max_redirect_hops,
}

abbrev Next : Type 0
Next = Option (String → ℕ → Sending)

module _ (net : Network) (cfg : SenderConfig) where
  -- Where an exception of the sender comes from: the guard's libraries, for the URL of some hop, or
  -- a POST, with what is no exception of httpx.
  abbrev pub EscapesFrom : Error → Type 0
  EscapesFrom e =
      ((hop : ℕ) × (url : String) × RaisedFor net.parsing (net.resolver hop) url e)
      ⊎ ((hop : ℕ) × (c : Connection) × ((net.post hop c).0 ≡ raised e))

  -- a sending that returns, or raises what has come from outside
  abbrev pub Accounts : Result OutboundHttpResult → Type 0
  Accounts result =
      ((r : OutboundHttpResult) × (result ≡ ok r))
      ⊎ ((e : Error) × (result ≡ err e) × EscapesFrom e)

  abbrev GoesOn : Next → Type 0
  GoesOn none = Unit
  GoesOn (some next) = (url : String) (elapsed : ℕ) → Accounts (next url elapsed).result

  response-Accounts :
      (url : String) (code : ℕ) (text : Bytes) (target : Option String) (follow : Next)
      (elapsed : ℕ)
      → GoesOn follow
      → Accounts (after_response net url code text target follow elapsed).result
  unfolding after_response finish
  response-Accounts url code text none follow elapsed g = inl (_, refl)
  response-Accounts url code text (some target) none elapsed g = inl (_, refl)
  response-Accounts url code text (some target) (some next) elapsed g =
      g (net.urljoin url target) elapsed

  post-Accounts :
      (hop : ℕ) (c : Connection) (url : String) (outcome : PostOutcome) (follow : Next)
      (elapsed : ℕ)
      → (net.post hop c).0 ≡ outcome
      → GoesOn follow
      → Accounts (after_post net url outcome follow elapsed).result
  unfolding after_post finish escape
  post-Accounts hop c url timed_out follow elapsed p g = inl (_, refl)
  post-Accounts hop c url http_failed follow elapsed p g = inl (_, refl)
  post-Accounts hop c url (raised e) follow elapsed p g = inr (e, refl, inr (hop, c, p))
  post-Accounts hop c url (responded code location text) follow elapsed p g =
      response-Accounts url code text (redirect_of code location) follow elapsed g

  module _ (payload : Bytes) (headers : List (String × Bytes)) where
    connect-Accounts :
        (hop : ℕ) (url host ip : String) (follow : Next) (elapsed : ℕ)
        → GoesOn follow
        → Accounts (connect net cfg payload headers hop url (some (host, ip)) follow elapsed).result
    unfolding connect
    connect-Accounts hop url host ip follow elapsed g = post-Accounts hop _ url _ follow _ refl g

    checked-Accounts :
        (hop : ℕ) (url : String) (follow : Next) (elapsed : ℕ)
        → GoesOn follow
        → Accounts
            (checked net cfg payload headers hop url
              (check_hop net cfg hop url)
              follow
              elapsed).result
    unfolding checked check_hop finish escape
    checked-Accounts hop url follow elapsed g = elim (Result-cases (check_hop net cfg hop url)) [
      | inr (e, bad) ↦ rw bad (
          inr (
            e,
            refl,
            inl (
              hop,
              url,
              check_url-RaisedFor net.parsing (net.resolver hop) cfg.allowed_ports url e bad,
            ),
          ))
      | inl (r, e) ↦ elim (Bool-cases r.allowed) [
        | inl allowed ↦
            let p =
              check_url-Passed net.parsing cfg.allowed_ports (net.resolver hop) url r e allowed in
            rw (e, allowed, p.pinned.0, p.pinned.2)
              (connect-Accounts hop url p.hostname p.first follow elapsed g)
        | inr blocked ↦ rw (e, blocked) (inl (_, refl))
      ]
    ]

    Accounts-from :
        (left hop : ℕ) (url : String) (elapsed : ℕ)
        → Accounts (send_from net cfg payload headers left hop url elapsed).result
    unfolding send_from
    Accounts-from zero hop url elapsed = checked-Accounts hop url none _ tt
    Accounts-from (suc left) hop url elapsed =
        checked-Accounts hop url (some _) _ (Accounts-from left (hop + 1))

    pub send_all-Accounts : (url : String) → Accounts (send_all net cfg payload headers url).result
    unfolding send_all
    send_all-Accounts url = Accounts-from max_redirect_hops 0 url 0
