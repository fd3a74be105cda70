-- ===== src/Api/Endpoints/Granted.antt =====
-- Who may register an endpoint, and how many.
use relay_webhooks.Prelude.{
  ℕ, ◌≡◌, ◌∙◌, refl, ap, sym, subst, arith, Bool, true, false, some, String, Option, Bytes, List,
  length, leb, ltb, not, ◌||◌, Bool-cases, filter_by, ◌==◌, Option-cases, inl, inr,
}
use relay_webhooks.Prelude.Result.{
  Error, ok, ok-injective, Result, raise_if, sandbox_quota_exceeded,
}
use relay_webhooks.Platform.Storage.{Storage}
use relay_webhooks.Platform.Redis.{Redis}
use relay_webhooks.Domain.Endpoints.{Endpoint}
use relay_webhooks.Domain.Quota.{check_quota}
use relay_webhooks.Domain.Records.{Tenant, has_scope}
use relay_webhooks.Repositories.Endpoints as Repository
use relay_webhooks.Repositories.Listings.{values}
use relay_webhooks.Services.Endpoints.{Urls, register}
use relay_webhooks.Services.Endpoints.Registered.{IsRegistered, register-IsRegistered}
use relay_webhooks.Services.Sandbox.{assert_endpoint_quota}
use relay_webhooks.Settings.{Settings}
use relay_webhooks.World.{World, Db, ◌>>◌, pure, with_uow}
use relay_webhooks.World.Inversion.{bind-ran, bind-eq-ok}
use relay_webhooks.Api.Auth.{AuthContext, require_scope}
use relay_webhooks.Api.Auth.Accepts.{Authenticated, require_scope-Authenticated}
use relay_webhooks.Api.Auth.Quiet.{require_scope-IsQuiet}
use relay_webhooks.Api.Endpoints.{
  EndpointCreate, event_types_of, quota_checked_write_auth, register_body, create_endpoint,
}
use relay_webhooks.Api.Schemas.{EndpointCreated, created_from_domain}

raise_if-ok : (b : Bool) (e : Error) → raise_if b e ≡ ok tt → b ≡ false
raise_if-ok true e h = cc
raise_if-ok false e h = refl

unit_eq : (done : Unit {0}) → done ≡ tt
unit_eq tt = refl

module _ ⦃σ : Storage⦄ ⦃ρ : Redis⦄ where
  -- how many endpoints a tenant has
  abbrev pub endpoint_count : Db → ℕ → ℕ
  endpoint_count db tenant_id = length (
      filter_by (λ (e : Endpoint). e.tenant_id == tenant_id)
        (values (σ.rows Endpoint db.endpoints)))

  -- the tenant is a full one, or a sandbox with room for one more endpoint
  abbrev pub has_room : Settings → Tenant → Db → Bool
  has_room s t db = not t.is_sandbox || ltb (endpoint_count db t.id) s.sandbox_max_endpoints

  assert-has_room :
      (s : Settings) (t : Tenant) (w : World)
      → (assert_endpoint_quota s t w).0 ≡ ok tt
      → has_room s t w.committed ≡ true
  unfolding assert_endpoint_quota with_uow Repository.count_for_tenant check_quota
  assert-has_room s t w h = elim (Bool-cases t.is_sandbox) [
    | inr full ↦ rw full
    | inl sandbox ↦
        let passed =
          raise_if-ok (leb s.sandbox_max_endpoints (endpoint_count w.committed t.id))
            (sandbox_quota_exceeded "endpoints" s.sandbox_max_endpoints) (rw sandbox at h) in
        ground arith
  ]

module _ ⦃σ : Storage⦄ ⦃ρ : Redis⦄ (s : Settings) (sha256 : Bytes → Bytes) (u : Urls)
    (http_url : String → Option String) (presented : Bytes) (w : World) where
  -- The caller has the scope, and a sandbox room for one more endpoint.
  abbrev pub MayRegister : AuthContext → Type 0
  MayRegister c =
      Authenticated sha256 w presented c
      × (has_scope c.api_key "endpoints:write" ≡ true)
      × (has_room s c.tenant w.committed ≡ true)

  quota_checked-MayRegister :
      (c : AuthContext)
      → (quota_checked_write_auth s sha256 u http_url (some presented) w).0 ≡ ok c
      → MayRegister c
  unfolding quota_checked_write_auth
  quota_checked-MayRegister c h =
      let ask = require_scope sha256 "endpoints:write" (some presented) in
      let (auth, lets_in, h1) =
        bind-eq-ok ask (λ auth. assert_endpoint_quota s auth.tenant >> pure auth) w c h in
      let (done, within, h2) =
        bind-eq-ok (assert_endpoint_quota s auth.tenant) (λ _. pure auth) (ask w).1 c h1 in
      let (known, scoped) =
        require_scope-Authenticated sha256 w "endpoints:write" presented auth lets_in in
      let same =
        ap (λ (q : Db × ρ.Stream × ρ.Retries). q.0)
          ((require_scope-IsQuiet sha256 "endpoints:write" (some presented)).keeps w) in
      subst MayRegister (ok-injective h2) (
        known,
        scoped,
        subst (λ (db : Db). has_room s auth.tenant db ≡ true) same
            (assert-has_room s auth.tenant (ask w).1 (within ∙ ap ok (unit_eq done))),
      )

  -- what a registration leaves, in the world `w'`
  abbrev pub Registers : String → EndpointCreate → AuthContext → EndpointCreated → World → Type 0
  Registers secret body c created w' =
      (url : String) × (http_url body.url ≡ some url)
      × (types : List String) × (event_types_of body.subscribed_event_types ≡ some types)
      × (e : Endpoint) × IsRegistered secret c.tenant.id url types w' e
      × (created ≡ created_from_domain e)

  register_body-Registers :
      (secret : String) (body : EndpointCreate) (c : AuthContext) (created : EndpointCreated)
      (w1 : World)
      → let m = register_body s sha256 u http_url (some presented) secret body c in
        (m w1).0 ≡ ok created → Registers secret body c created (m w1).1
  unfolding register_body
  register_body-Registers secret body c created w1 h = elim (Option-cases (http_url body.url)) [
    | inl bad ↦ cc
    | inr (url, good) ↦ elim (Option-cases (event_types_of body.subscribed_event_types)) [
      | inl bad ↦ cc (rw (good, bad) at h)
      | inr (types, fine) ↦
          let (e, registered, ran) =
            bind-ran (register u secret c.tenant.id url types) (λ e. pure (created_from_domain e))
              w1 created (rw (good, fine) at h) in
          let shown =
            ok-injective (
              sym (ap (λ (r : Result EndpointCreated × World). r.0) ran)
              ∙ (rw (good, fine) at h)) in
          let stored = register-IsRegistered u secret c.tenant.id url types w1 e registered in
          (url, good, types, fine, e, rw (good, fine, ran) stored, sym shown)
    ]
  ]

  -- An endpoint is registered only for a caller whose key has the scope endpoints:write, and whose
  -- tenant, if it is a sandbox, has fewer endpoints than its cap; it is then stored as the tenant's,
  -- with the URL as validated and its event types, and the response shows it with its secret.
  pub create_endpoint-MayRegister :
      (secret : String) (body : EndpointCreate) (created : EndpointCreated)
      → let r = create_endpoint s sha256 u http_url (some presented) secret body w in
        r.0 ≡ ok created → (c : AuthContext) × MayRegister c × Registers secret body c created r.1
  unfolding create_endpoint
  create_endpoint-MayRegister secret body created h =
      let quota = quota_checked_write_auth s sha256 u http_url (some presented) in
      let handler = register_body s sha256 u http_url (some presented) secret body in
      let (c, lets_in, ran) = bind-ran quota handler w created h in
      let done =
        register_body-Registers secret body c created (quota w).1
          (sym (ap (λ (r : Result EndpointCreated × World). r.0) ran) ∙ h) in
      (
        c,
        quota_checked-MayRegister c lets_in,
        subst (λ (r : Result EndpointCreated × World). Registers secret body c created r.1)
            (sym ran) done,
      )
