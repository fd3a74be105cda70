-- ===== src/Infra/Signing/Message.antt =====
-- The signed message determines the timestamp and the body.
use relay_webhooks.Prelude.{
  ℕ, zero, suc, ◌+◌, ◌-◌, ◌*◌, ◌/◌, ◌%◌, ◌<◌, ◌≡◌, ◌≢◌, length, ◌++◌, decimal, sym, ap, refl, ◌∙◌,
  inl, inr, ◌∷◌, [], Bytes, digits, digits-append, digits_small, digits_large, ◌==◌, ltb, false,
  if◌then◌else◌, Bool-cases, arith,
}
use relay_webhooks.Prelude.Int.{ℤ, pos, negsuc, pos_part, neg_part}
use relay_webhooks.Infra.Signing.{signed_message, int_text}

-- reads the timestamp up to the full stop, and returns it with what follows
read_stamp : ℕ → Bytes → ℕ × Bytes
read_stamp n [] = (n, [])
read_stamp n (c ∷ s) =
    let rest = read_stamp (n * 10 + (c - b'0')) s in if c == b'.' then (n, s) else rest

read_stamp-digit :
    (n d : ℕ) (s : Bytes) → d < 10 → read_stamp n ((b'0' + d) ∷ s) ≡ read_stamp (n * 10 + d) s
unfolding read_stamp
read_stamp-digit n d s h =
    let e : b'0' + d - b'0' ≡ d = omega arith in
    let stop : (b'0' + d == b'.') ≡ false = ground arith in rw (stop, e)

read_stamp-digits :
    (fuel n : ℕ) (acc : Bytes) → n < fuel → read_stamp 0 (digits fuel n acc) ≡ read_stamp n acc
read_stamp-digits zero n acc h = absurd (omega arith)
read_stamp-digits (suc fuel) n acc h = elim (Bool-cases (ltb n 10)) [
  | inl small ↦
      rw (digits_small fuel n acc small)
        (read_stamp-digit 0 n acc (ground arith) ∙ ap (λ (k : ℕ). read_stamp k acc) (omega arith))
  | inr large ↦
      rw
        (
          digits_large fuel n acc large,
          read_stamp-digits fuel (n / 10) ((b'0' + n % 10) ∷ acc) (ground arith),
        )
        (read_stamp-digit (n / 10) (n % 10) acc (omega arith)
          ∙ ap (λ (k : ℕ). read_stamp k acc) (omega arith))
]

read_stamp-decimal :
    (timestamp : ℕ) (body : Bytes)
    → read_stamp 0 (decimal timestamp ++ (b'.' ∷ body)) ≡ (timestamp, body)
unfolding read_stamp decimal
read_stamp-decimal timestamp body =
    rw (← digits-append (suc timestamp) timestamp [] (b'.' ∷ body))
      (read_stamp-digits (suc timestamp) timestamp (b'.' ∷ body) (omega arith))

read_stamp-minus : (s : Bytes) → read_stamp 0 (b'-' ∷ s) ≡ read_stamp 0 s
unfolding read_stamp
read_stamp-minus s = refl

-- the absolute value of the timestamp, and the body
read_stamp-signed_message :
    (timestamp : ℤ) (body : Bytes)
    → read_stamp 0 (signed_message timestamp body) ≡ (pos_part timestamp + neg_part timestamp, body)
unfolding signed_message int_text
read_stamp-signed_message (pos n) body =
    read_stamp-decimal n body ∙ ap (λ (k : ℕ). (k, body)) (omega arith)
read_stamp-signed_message (negsuc n) body =
    read_stamp-minus (decimal (suc n) ++ (b'.' ∷ body))
    ∙ read_stamp-decimal (suc n) body
    ∙ ap (λ (k : ℕ). (k, body)) (omega arith)

longer : (s : Bytes) → s ≢ (b'-' ∷ s)
longer s h =
    let same : length s ≡ suc (length s) = ap (λ (t : Bytes). length t) h in omega (arith, same)

-- A number and its negative have texts of different lengths.
signs_differ :
    (n : ℕ) (body : Bytes) → signed_message (pos (suc n)) body ≢ signed_message (negsuc n) body
unfolding signed_message int_text
signs_differ n body h = longer (decimal (suc n) ++ (b'.' ∷ body)) h

same_stamp :
    (t u : ℤ) (body : Bytes)
    → pos_part t + neg_part t ≡ pos_part u + neg_part u
    → signed_message t body ≡ signed_message u body
    → t ≡ u
same_stamp (pos n) (pos m) body e h = ap pos (omega (arith, e))
same_stamp (negsuc n) (negsuc m) body e h = ap negsuc (omega (arith, e))
same_stamp (pos n) (negsuc m) body e h =
    let q : n ≡ suc m = omega (arith, e) in absurd (signs_differ m body (rw (← q) h))
same_stamp (negsuc n) (pos m) body e h =
    let q : m ≡ suc n = omega (arith, e) in absurd (signs_differ n body (sym (rw (← q) h)))

-- Two signed messages are equal only if their timestamps and their bodies are.
pub signed_message-injective :
    (t u : ℤ) (a b : Bytes) → signed_message t a ≡ signed_message u b → (t ≡ u) × (a ≡ b)
signed_message-injective t u a b h =
    let e : (pos_part t + neg_part t, a) ≡ (pos_part u + neg_part u, b) =
      sym (read_stamp-signed_message t a) ∙ ap (read_stamp 0) h ∙ read_stamp-signed_message u b in
    let same_body = ap (λ (p : ℕ × Bytes). p.1) e in
    (
      same_stamp t u b (ap (λ (p : ℕ × Bytes). p.0) e)
          (ap (λ (c : Bytes). signed_message t c) (sym same_body) ∙ h),
      same_body,
    )
