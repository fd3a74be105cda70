-- ===== src/Infra/Addresses/Ranges.antt =====
-- The networks that the guard exists to block.
use relay_webhooks.Prelude.{
  ℕ, ◌+◌, ◌*◌, ◌/◌, ◌%◌, ◌^◌, ◌≡◌, refl, ◌≤◌, ◌<◌, ◌⊎◌, inl, inr, true, false, ◌&&◌, ◌||◌, not,
  some, if◌then◌else◌, arith,
}
use relay_webhooks.Infra.Addresses.{
  is_denied, v4, v6, octets, ipv4_mapped, in_network, cgnat_network, is_loopback, is_link_local,
  is_private, is_reserved, is_multicast, is_unspecified,
}

abbrev pub IsBetween : ℕ → ℕ → ℕ → Type 0
IsBetween low high n = (low ≤ n) × (n < high)

-- Loopback, the three private networks, link-local with the metadata address, and carrier-grade NAT.
abbrev pub IsInternal : ℕ → Type 0
IsInternal n =
    IsBetween (octets 127 0 0 0) (octets 128 0 0 0) n
    ⊎ (IsBetween (octets 10 0 0 0) (octets 11 0 0 0) n
        ⊎ (IsBetween (octets 172 16 0 0) (octets 172 32 0 0) n
            ⊎ (IsBetween (octets 192 168 0 0) (octets 192 169 0 0) n
                ⊎ (IsBetween (octets 169 254 0 0) (octets 169 255 0 0) n
                    ⊎ IsBetween (octets 100 64 0 0) (octets 100 128 0 0) n))))

denied_loopback :
    (n : ℕ) → IsBetween (octets 127 0 0 0) (octets 128 0 0 0) n → is_denied (v4 n) ≡ true
unfolding is_denied
denied_loopback n h = ground arith

denied_ten : (n : ℕ) → IsBetween (octets 10 0 0 0) (octets 11 0 0 0) n → is_denied (v4 n) ≡ true
unfolding is_denied
denied_ten n h = ground arith

denied_172 : (n : ℕ) → IsBetween (octets 172 16 0 0) (octets 172 32 0 0) n → is_denied (v4 n) ≡ true
unfolding is_denied
denied_172 n h = ground arith

denied_192 :
    (n : ℕ) → IsBetween (octets 192 168 0 0) (octets 192 169 0 0) n → is_denied (v4 n) ≡ true
unfolding is_denied
denied_192 n h = ground arith

denied_link_local :
    (n : ℕ) → IsBetween (octets 169 254 0 0) (octets 169 255 0 0) n → is_denied (v4 n) ≡ true
unfolding is_denied
denied_link_local n h = ground arith

denied_cgnat :
    (n : ℕ) → IsBetween (octets 100 64 0 0) (octets 100 128 0 0) n → is_denied (v4 n) ≡ true
unfolding is_denied
denied_cgnat n h = ground arith

-- Every IPv4 address of loopback, 10/8, 172.16/12, 192.168/16, link-local or carrier-grade NAT is
-- denied.
pub is_denied-internal : (n : ℕ) → IsInternal n → is_denied (v4 n) ≡ true
is_denied-internal n (inl h) = denied_loopback n h
is_denied-internal n (inr (inl h)) = denied_ten n h
is_denied-internal n (inr (inr (inl h))) = denied_172 n h
is_denied-internal n (inr (inr (inr (inl h)))) = denied_192 n h
is_denied-internal n (inr (inr (inr (inr (inl h))))) = denied_link_local n h
is_denied-internal n (inr (inr (inr (inr (inr h))))) = denied_cgnat n h

mapped_back : (n : ℕ) → n < 2 ^ 32 → ipv4_mapped (65_535 * 2 ^ 32 + n) ≡ some n
mapped_back n h =
    let high : (65_535 * 2 ^ 32 + n) / 2 ^ 32 ≡ 65_535 = omega arith in
    let low : (65_535 * 2 ^ 32 + n) % 2 ^ 32 ≡ n = omega arith in rw (high, low) refl

-- carrier-grade NAT has none of the six properties, and the metadata address is link-local
denied_v4 :
    (n : ℕ)
    → (is_denied (v4 n) && not (in_network n cgnat_network)) ≡ (
        if is_loopback (v4 n) || is_link_local (v4 n) || is_private (v4 n) || is_reserved (v4 n)
        then true
        else if is_multicast (v4 n) || is_unspecified (v4 n)
        then true
        else false)
unfolding is_denied
denied_v4 n = ground arith

-- An IPv6 address that maps an IPv4 address is denied exactly if the IPv4 address is, except that
-- those of carrier-grade NAT are let through.
pub is_denied-mapped :
    (n : ℕ)
    → n < 2 ^ 32
    → is_denied (v6 (65_535 * 2 ^ 32 + n)) ≡ (is_denied (v4 n) && not (in_network n cgnat_network))
unfolding is_denied
is_denied-mapped n h = rw (denied_v4 n, mapped_back n h) refl
