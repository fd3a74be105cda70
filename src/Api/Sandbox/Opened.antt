-- ===== src/Api/Sandbox/Opened.antt =====
-- A new sandbox's key works at once, until it expires.
use mathlib.Core.List.{Memᴰ}
use relay_webhooks.Prelude.{
  ℕ, ◌+◌, ◌==◌, ◌≡◌, ◌⊎◌, ◌∙◌, inl, inr, refl, ap, arith, Bool, true, false, none, some, List, [],
  ◌∷◌, ◌++◌, Bytes, String, All, All-map, bytes_eq, bytes_eq_refl, filter_by, find_first, map, leb,
  ltb, is_empty, if◌then◌else◌, Bool-cases,
}
use relay_webhooks.Prelude.Result.{ok, err}
use relay_webhooks.Platform.Storage.{Storage}
use relay_webhooks.Platform.Storage.Laws.{get-put_eq}
use relay_webhooks.Platform.Redis.{Redis}
use relay_webhooks.Domain.Hashing.{split_api_key, hash_secret, generate_api_key, verify_secret}
use relay_webhooks.Domain.Hashing.Hex.{IsBytes}
use relay_webhooks.Domain.Hashing.Keys.{Lacks, split-generate, verify-hash_iff}
use relay_webhooks.Domain.Records.{Tenant, ApiKey, is_deleted, is_revoked, is_expired}
use relay_webhooks.Services.ApiKeys.{Token, issue}
use relay_webhooks.Services.Sandbox.{SandboxProvisionResult, sandbox_scopes, provision}
use relay_webhooks.Settings.{Settings}
use relay_webhooks.World.{World, Db, with_uow, rollback, commit}
use relay_webhooks.Repositories.ApiKeys
use relay_webhooks.Repositories.Tenants
use relay_webhooks.Api.Auth.{
  AuthContext, authenticate, split_and_look_up, look_up, accept, find_key, unauthorized,
}

-- what a lookup by prefix meets: the key itself, or a key of another prefix
abbrev Fits : Bytes → ApiKey → ℕ × ApiKey → Type 0
Fits key_prefix k q = (q.1 ≡ k) ⊎ (bytes_eq q.1.key_prefix key_prefix ≡ false)

module _ (p : ApiKey → Bool) (key_prefix : Bytes) (k : ApiKey) (i : ℕ) where
  find-own :
      (ps : List (ℕ × ApiKey))
      → All (Fits key_prefix k) ps
      → Memᴰ (i, k) ps
      → bytes_eq k.key_prefix key_prefix ≡ true
      → p k ≡ true
      → find_first p (
          filter_by
            (λ (q : ApiKey). bytes_eq q.key_prefix key_prefix)
            (map (λ (q : ℕ × ApiKey). q.1) ps))
        ≡ some k
  find-own [] fits m own verified = elim m [ ]
  find-own (q ∷ ps) (inl same, fits) m own verified = rw (same, own, verified) refl
  find-own (q ∷ ps) (inr other, fits) (Memᴰ.head e) own verified =
      cc (ap (λ (r : ℕ × ApiKey). bytes_eq r.1.key_prefix key_prefix) e, other, own)
  find-own (q ∷ ps) (inr other, fits) (Memᴰ.tail m) own verified =
      rw other (find-own ps fits m own verified)

module _ ⦃σ : Storage⦄ ⦃ρ : Redis⦄ (sha256 : Bytes → Bytes) (token : Token) where
  -- no stored key has the prefix of the new one
  abbrev pub HasFreshPrefix : Db → Type 0
  HasFreshPrefix db =
      (i : ℕ) (k : ApiKey)
      → σ.get ApiKey db.api_keys i ≡ some k
      → bytes_eq k.key_prefix token.key_prefix ≡ false

  -- what the caller keeps: a prefix without a full stop, and neither part empty
  pub record IsUsable : Type 0 where
    pub lacks : Lacks b'.' token.key_prefix
    pub prefixed : is_empty token.key_prefix ≡ false
    pub secretive : is_empty token.secret ≡ false
    pub salted : IsBytes token.salt

  put-Fits :
      (t : σ.Table ApiKey) (k : ApiKey)
      → ((i : ℕ) (k' : ApiKey)
          → σ.get ApiKey t i ≡ some k'
          → bytes_eq k'.key_prefix token.key_prefix ≡ false)
      → All (Fits token.key_prefix k) (σ.rows ApiKey (σ.put ApiKey t (σ.fresh ApiKey t) k))
  put-Fits t k fresh =
      All-map
        (λ (q : ℕ × ApiKey) at_q. elim (Bool-cases (σ.fresh ApiKey t == q.0)) [
          | inl same ↦ inl (ground (arith, at_q, σ.get_put ApiKey t (σ.fresh ApiKey t) q.0 k))
          | inr other ↦
              inr
                (fresh q.0 q.1 (ground (arith, at_q, σ.get_put ApiKey t (σ.fresh ApiKey t) q.0 k)))
        ])
        (σ.rows ApiKey (σ.put ApiKey t (σ.fresh ApiKey t) k))
        (σ.rows_get ApiKey (σ.put ApiKey t (σ.fresh ApiKey t) k))

  find_key-put :
      (t : σ.Table ApiKey) (k : ApiKey)
      → ((i : ℕ) (k' : ApiKey)
          → σ.get ApiKey t i ≡ some k'
          → bytes_eq k'.key_prefix token.key_prefix ≡ false)
      → k.key_prefix ≡ token.key_prefix
      → verify_secret sha256 token.secret k.key_hash ≡ true
      → find_first
          (λ (q : ApiKey). verify_secret sha256 token.secret q.key_hash)
          (filter_by
            (λ (q : ApiKey). bytes_eq q.key_prefix token.key_prefix)
            (map (λ (q : ℕ × ApiKey). q.1) (σ.rows ApiKey (σ.put ApiKey t (σ.fresh ApiKey t) k))))
        ≡ some k
  find_key-put t k fresh own verified =
      find-own (λ (q : ApiKey). verify_secret sha256 token.secret q.key_hash) token.key_prefix k
        (σ.fresh ApiKey t) (σ.rows ApiKey (σ.put ApiKey t (σ.fresh ApiKey t) k))
        (put-Fits t k fresh) (σ.get_rows ApiKey _ _ k (get-put_eq t _ _ k refl))
        (ap (λ s. bytes_eq s token.key_prefix) own ∙ bytes_eq_refl token.key_prefix) verified

  plaintext : Bytes
  plaintext = token.key_prefix ++ (b'.' ∷ token.secret)

  plaintext-splits : IsUsable → split_api_key plaintext ≡ some (token.key_prefix, token.secret)
  unfolding generate_api_key plaintext
  plaintext-splits u =
      split-generate sha256 token.key_prefix token.secret token.salt u.lacks u.prefixed u.secretive

  verified :
      IsUsable
      → verify_secret sha256 token.secret (hash_secret sha256 token.salt token.secret) ≡ true
  verified u = (verify-hash_iff sha256 token.salt token.secret token.secret u.salted).1 refl

append_nonempty : (s t : Bytes) (c : ℕ) → is_empty (s ++ (c ∷ t)) ≡ false
append_nonempty [] t c = refl
append_nonempty (a ∷ s) t c = refl

module _ ⦃σ : Storage⦄ ⦃ρ : Redis⦄ (s : Settings) (sha256 : Bytes → Bytes) (token : Token)
    (name : String) (w : World) where
  -- the world after a provision, at another time
  abbrev pub provisioned : ℕ → World
  provisioned later = record (provision s sha256 token name w).1 { clock = later }

  new_tenant : Tenant
  new_tenant = record {
    id = σ.fresh Tenant w.committed.tenants;
    name = name;
    created_at = w.clock;
    deleted_at = none;
    is_sandbox = true;
  }

  new_key : ApiKey
  new_key = record {
    id = σ.fresh ApiKey w.committed.api_keys;
    tenant_id = σ.fresh Tenant w.committed.tenants;
    key_hash = hash_secret sha256 token.salt token.secret;
    key_prefix = token.key_prefix;
    scopes = sandbox_scopes;
    created_at = w.clock;
    revoked_at = none;
    expires_at = some (w.clock + s.sandbox_ttl);
  }

  context : AuthContext
  unfolding new_tenant new_key
  context = record { tenant = new_tenant; api_key = new_key }

  authenticates :
      (later : ℕ)
      → IsUsable sha256 token
      → HasFreshPrefix sha256 token w.committed
      → leb (w.clock + s.sandbox_ttl) later ≡ false
      → (authenticate sha256 (some (plaintext sha256 token)) (provisioned later)).0 ≡ ok context
  unfolding provision issue with_uow rollback commit Tenants.create Tenants.write ApiKeys.create
      ApiKeys.write generate_api_key authenticate split_and_look_up look_up accept find_key
      ApiKeys.get_by_prefix Tenants.get is_revoked is_expired is_deleted plaintext new_tenant
      new_key context
  authenticates later u fresh unexpired =
      rw
        (
          append_nonempty token.key_prefix token.secret b'.',
          plaintext-splits sha256 token u,
          find_key-put sha256 token w.committed.api_keys new_key fresh refl
              (verified sha256 token u),
          unexpired,
          get-put_eq w.committed.tenants _ _ new_tenant refl,
        )
        refl

  expires :
      (later : ℕ)
      → IsUsable sha256 token
      → HasFreshPrefix sha256 token w.committed
      → leb (w.clock + s.sandbox_ttl) later ≡ true
      → (authenticate sha256 (some (plaintext sha256 token)) (provisioned later)).0
        ≡ err unauthorized
  unfolding provision issue with_uow rollback commit Tenants.create Tenants.write ApiKeys.create
      ApiKeys.write generate_api_key authenticate split_and_look_up look_up accept find_key
      ApiKeys.get_by_prefix is_revoked is_expired plaintext new_key
  expires later u fresh expired =
      rw
        (
          append_nonempty token.key_prefix token.secret b'.',
          plaintext-splits sha256 token u,
          find_key-put sha256 token w.committed.api_keys new_key fresh refl
              (verified sha256 token u),
          expired,
        )
        refl

  -- A new sandbox is given a tenant and a key: if the random prefix is not empty, has no full stop
  -- and is no stored key's, and the secret is not empty, the plaintext that the caller is shown
  -- authenticates as that tenant at every time before the expiry, which is the time to live away,
  -- and is refused from then on.
  pub provision-opens :
      (later : ℕ)
      → IsUsable sha256 token
      → HasFreshPrefix sha256 token w.committed
      → (result : SandboxProvisionResult) × ((provision s sha256 token name w).0 ≡ ok result)
        × (result.tenant.is_sandbox ≡ true)
        × (result.api_key.scopes ≡ sandbox_scopes)
        × (result.expires_at ≡ w.clock + s.sandbox_ttl)
        × ((authenticate sha256 (some result.plaintext_key) (provisioned later)).0 ≡ (
            if ltb later result.expires_at
            then ok (record { tenant = result.tenant; api_key = result.api_key })
            else err unauthorized))
  unfolding provision issue with_uow rollback commit Tenants.create Tenants.write ApiKeys.create
      ApiKeys.write generate_api_key plaintext new_tenant new_key context
  provision-opens later u fresh = (
    _,
    refl,
    refl,
    refl,
    refl,
    elim (Bool-cases (ltb later (w.clock + s.sandbox_ttl))) [
      | inl early ↦ rw early (authenticates later u fresh (ground arith))
      | inr late ↦ rw late (expires later u fresh (ground arith))
    ],
  )
