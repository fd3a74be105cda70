-- ===== src/Api/Auth/Accepts.antt =====
-- Whom the API lets in.
use relay_webhooks.Prelude.{
  ℕ, ◌≡◌, ◌∙◌, refl, ap, sym, subst, arith, Option, some, none, List, [], ◌∷◌, Bytes, All,
  All-filter_by, find_first-All, filter_by, map, bytes_eq, true, false, String, not,
}
use relay_webhooks.Prelude.Result.{ok}
use relay_webhooks.Platform.Storage.{Storage}
use relay_webhooks.Platform.Redis.{Redis}
use relay_webhooks.Domain.Hashing.{split_api_key, verify_secret}
use relay_webhooks.Domain.Records.{Tenant, ApiKey, is_deleted, is_revoked, is_expired, has_scope}
use relay_webhooks.World.{World, pure, with_uow, rollback}
use relay_webhooks.World.Inversion.{bind-eq-ok, require-eq-ok, raise_when-eq-ok}
use relay_webhooks.Repositories.ApiKeys
use relay_webhooks.Repositories.Tenants
use relay_webhooks.Api.Auth.{
  AuthContext, authenticate, split_and_look_up, look_up, accept, unauthorized, forbidden,
  check_scope, find_key, given, usable, undeleted, require_scope,
}

module _ ⦃σ : Storage⦄ ⦃ρ : Redis⦄ (sha256 : Bytes → Bytes) (w : World) where
  -- The key that was presented splits into a prefix and a secret, and belongs to a stored key of
  -- that prefix: the secret verifies against its hash, it is neither revoked nor expired now, and
  -- the tenant is the key's own, and not deleted.
  pub record Authenticated (presented : Bytes) (c : AuthContext) : Type 0 where
    pub key_prefix : Bytes
    pub secret : Bytes
    pub key_id : ℕ
    pub splits : split_api_key presented ≡ some (key_prefix, secret)
    pub stored : σ.get ApiKey w.committed.api_keys key_id ≡ some c.api_key
    pub verified : verify_secret sha256 secret c.api_key.key_hash ≡ true
    pub unrevoked : is_revoked c.api_key ≡ false
    pub unexpired : is_expired c.api_key w.clock ≡ false
    pub own_tenant : σ.get Tenant w.committed.tenants c.api_key.tenant_id ≡ some c.tenant
    pub undeleted_tenant : is_deleted c.tenant ≡ false

  Stored : ApiKey → Type 0
  Stored k = (i : ℕ) × (σ.get ApiKey w.committed.api_keys i ≡ some k)

  candidates : Bytes → List ApiKey
  candidates key_prefix =
      filter_by (λ (k : ApiKey). bytes_eq k.key_prefix key_prefix)
        (map (λ (p : ℕ × ApiKey). p.1) (σ.rows ApiKey w.committed.api_keys))

  All-map_rows :
      (ps : List (ℕ × ApiKey))
      → All (λ (p : ℕ × ApiKey). σ.get ApiKey w.committed.api_keys p.0 ≡ some p.1) ps
      → All Stored (map (λ (p : ℕ × ApiKey). p.1) ps)
  unfolding Stored
  All-map_rows [] h = tt
  All-map_rows (p ∷ ps) h = ((p.0, h.0), All-map_rows ps h.1)

  candidates-Stored : (key_prefix : Bytes) → All Stored (candidates key_prefix)
  unfolding candidates
  candidates-Stored key_prefix =
      All-filter_by Stored _ _
        (All-map_rows (σ.rows ApiKey w.committed.api_keys) (σ.rows_get ApiKey w.committed.api_keys))

  usable_lem :
      (now : ℕ) (found : Option ApiKey) (k : ApiKey)
      → usable now found ≡ some k
      → (found ≡ some k) × (is_revoked k ≡ false) × (is_expired k now ≡ false)
  usable_lem now none k h = absurd (ground arith)
  usable_lem now (some k') k h = ground arith

  undeleted_lem :
      (found : Option Tenant) (t : Tenant)
      → undeleted found ≡ some t
      → (found ≡ some t) × (is_deleted t ≡ false)
  undeleted_lem none t h = absurd (ground arith)
  undeleted_lem (some t') t h = ground arith

  abbrev Matches : Bytes → ApiKey × Option Tenant → Type 0
  Matches secret found =
      Stored found.0
      × (verify_secret sha256 secret found.0.key_hash ≡ true)
      × (is_revoked found.0 ≡ false)
      × (is_expired found.0 w.clock ≡ false)
      × (found.1 ≡ σ.get Tenant w.committed.tenants found.0.tenant_id)

  -- the body of the unit of work, which only reads
  found_lem :
      (key_prefix secret : Bytes) (found : ApiKey × Option Tenant)
      → (find_key sha256 key_prefix secret (record w { session = w.committed })).0 ≡ ok found
      → Matches secret found
  unfolding find_key candidates ApiKeys.get_by_prefix Tenants.get Tenants.find
  found_lem key_prefix secret found h =
      let (k, picked, rest) = require-eq-ok _ _ _ _ found h in
      let (matched, unrevoked, unexpired) = usable_lem w.clock _ k picked in
      let (stored, verified) =
        find_first-All Stored (λ (k : ApiKey). verify_secret sha256 secret k.key_hash)
          (candidates key_prefix) k (candidates-Stored key_prefix) matched in
      let e : (k, σ.get Tenant w.committed.tenants k.tenant_id) ≡ found = ground arith in
      subst (Matches secret) e (stored, verified, unrevoked, unexpired, refl)

  -- Whoever the API lets in is `Authenticated`.
  pub authenticate-Authenticated :
      (presented : Bytes) (c : AuthContext)
      → (authenticate sha256 (some presented) w).0 ≡ ok c
      → Authenticated presented c
  unfolding authenticate split_and_look_up look_up accept with_uow rollback Stored
  authenticate-Authenticated presented c h =
      let (key, is_given, h1) =
        require-eq-ok unauthorized (given (some presented)) (split_and_look_up sha256) w c h in
      let (parts, splits, h2) =
        require-eq-ok unauthorized (split_api_key key) (look_up sha256) w c h1 in
      let (found, finds, h3) =
        bind-eq-ok (with_uow (find_key sha256 parts.0 parts.1)) (accept sha256) w c h2 in
      let w' = (with_uow (find_key sha256 parts.0 parts.1) w).1 in
      let (tenant, live, h4) =
        require-eq-ok unauthorized (undeleted found.1)
          (λ tenant. pure (record { tenant = tenant; api_key = found.0 })) w' c h3 in
      let (stored, verified, unrevoked, unexpired, own) = found_lem parts.0 parts.1 found finds in
      let (has_tenant, undeleted_tenant) = undeleted_lem found.1 tenant live in
      let same : key ≡ presented = ground arith in
      let e : record { tenant = tenant; api_key = found.0 } ≡ c = ground arith in
      subst (Authenticated presented) e (record {
        key_prefix = parts.0;
        secret = parts.1;
        key_id = stored.0;
        splits = ap split_api_key (sym same) ∙ splits;
        stored = stored.1;
        verified = verified;
        unrevoked = unrevoked;
        unexpired = unexpired;
        own_tenant = sym own ∙ has_tenant;
        undeleted_tenant = undeleted_tenant;
      })

  -- A route that asks for a scope lets in only whoever is `Authenticated` by a key with that scope.
  pub require_scope-Authenticated :
      (scope : String) (presented : Bytes) (c : AuthContext)
      → (require_scope sha256 scope (some presented) w).0 ≡ ok c
      → Authenticated presented c × (has_scope c.api_key scope ≡ true)
  unfolding require_scope
  require_scope-Authenticated scope presented c h =
      let (context, lets_in, h1) =
        bind-eq-ok (authenticate sha256 (some presented)) (check_scope scope) w c h in
      let w' = (authenticate sha256 (some presented) w).1 in
      let (scoped, h2) =
        raise_when-eq-ok (not (has_scope context.api_key scope)) forbidden (λ done. pure context) w'
          c h1 in
      let same : context ≡ c = ground arith in
      (
        subst (Authenticated presented) same (authenticate-Authenticated presented context lets_in),
        ap (λ (c : AuthContext). has_scope c.api_key scope) (sym same) ∙ ground arith,
      )
