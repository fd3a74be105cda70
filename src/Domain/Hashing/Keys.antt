-- ===== src/Domain/Hashing/Keys.antt =====
-- Issued keys split and verify.
use relay_webhooks.Prelude.{
  ℕ, ◌≡◌, ◌≢◌, ◌↔◌, true, false, some, [], ◌∷◌, ◌++◌, Bytes, All, arith, hex, bytes_eq_refl,
  eq_of_bytes_eq, is_empty,
}
use relay_webhooks.Domain.Hashing.{
  partition, split_api_key, hash_secret, generate_api_key, verify_secret,
}
use relay_webhooks.Domain.Hashing.Hex.{IsBytes, from_hex-hex, partition-hex}

abbrev pub Lacks : ℕ → Bytes → Type 0
Lacks sep = All (λ c. c ≢ sep)

partition-first :
    (sep : ℕ) (s rest : Bytes) → Lacks sep s → partition sep (s ++ (sep ∷ rest)) ≡ (s, some rest)
unfolding partition
partition-first sep [] rest h = ground arith
partition-first sep (c ∷ s) rest h = ground (arith, partition-first sep s rest)

-- A key that is issued with a prefix that has no full stop and is not empty, and a secret that is
-- not empty, splits into its prefix and its secret.
pub split-generate :
    (sha256 : Bytes → Bytes) (key_prefix secret salt : Bytes)
    → Lacks b'.' key_prefix
    → is_empty key_prefix ≡ false
    → is_empty secret ≡ false
    → split_api_key (generate_api_key sha256 key_prefix secret salt).0 ≡ some (key_prefix, secret)
unfolding split_api_key generate_api_key
split-generate sha256 key_prefix secret salt lacks hp hs =
    rw (partition-first b'.' key_prefix secret lacks, hp, hs)

-- A presented secret verifies against the hash of an issued one, whose salt is bytes, exactly if the
-- salted digests agree.
pub verify-hash_iff :
    (sha256 : Bytes → Bytes) (salt secret presented : Bytes)
    → IsBytes salt
    → (verify_secret sha256 presented (hash_secret sha256 salt secret) ≡ true)
      ↔ (hex (sha256 (salt ++ presented)) ≡ hex (sha256 (salt ++ secret)))
unfolding verify_secret hash_secret
verify-hash_iff sha256 salt secret presented h =
    rw (partition-hex salt (hex (sha256 (salt ++ secret))) h, from_hex-hex salt h)
      (eq_of_bytes_eq _ _, λ e. rw e (bytes_eq_refl (hex (sha256 (salt ++ secret)))))
