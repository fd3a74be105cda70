-- ===== src/Prelude/Base64.antt =====
-- `base64.urlsafe_b64encode` and `base64.urlsafe_b64decode` on bytes. The decoder is binascii's,
-- without `validate`: what is not in the alphabet is skipped, and enough padding ends the text.
use Prim.Native.Nat.{ℕ, zero, suc, ◌+◌, ◌-◌, ◌*◌, ◌/◌, ◌%◌, ◌<◌}
use mathlib.Core.Bool.{true, false, ◌&&◌, ◌||◌}
use mathlib.Core.List.{[], ◌∷◌}
use mathlib.Core.Option.{Option, none, some}
use mathlib.Core.Path.{◌≡◌, refl, ◌∙◌}
use native.Mathlib.Omega.{arith}
use relay_webhooks.Prelude.Lists.{All}
use relay_webhooks.Prelude.Tests.{ltb, leb, ◌==◌, if◌then◌else◌}
use relay_webhooks.Prelude.Text.{Bytes, codes}

unfoldable pub sextet_char : ℕ → ℕ
sextet_char v =
    if ltb v 26
    then b'A' + v
    else if ltb v 52
    then b'a' + (v - 26)
    else if ltb v 62
    then b'0' + (v - 52)
    else if v == 62
    then b'-'
    else b'_'

-- Both alphabets are read: the translation to the standard one keeps `+` and `/`.
unfoldable pub sextet : ℕ → Option ℕ
sextet c =
    if leb b'A' c && leb c b'Z'
    then some (c - b'A')
    else if leb b'a' c && leb c b'z'
    then some (c - b'a' + 26)
    else if leb b'0' c && leb c b'9'
    then some (c - b'0' + 52)
    else if c == b'-' || c == b'+'
    then some 62
    else if c == b'_' || c == b'/'
    then some 63
    else none

unfoldable pub urlsafe_b64encode : Bytes → Bytes
unfolding sextet_char
urlsafe_b64encode [] = []
urlsafe_b64encode (a ∷ []) = sextet_char (a / 4) ∷ sextet_char (a % 4 * 16) ∷ b'=' ∷ b'=' ∷ []
urlsafe_b64encode (a ∷ b ∷ []) =
    sextet_char (a / 4) ∷ sextet_char (a % 4 * 16 + b / 16) ∷ sextet_char (b % 16 * 4) ∷ b'=' ∷ []
urlsafe_b64encode (a ∷ b ∷ c ∷ s) =
    sextet_char (a / 4)
    ∷ sextet_char (a % 4 * 16 + b / 16)
    ∷ sextet_char (b % 16 * 4 + c / 64)
    ∷ sextet_char (c % 64)
    ∷ urlsafe_b64encode s

-- One sextet at its place in a group of four: the byte it completes, what is kept of it, and the
-- next place.
unfoldable pub emit : ℕ → ℕ → ℕ → Bytes → Bytes
emit zero kept v rest = rest
emit (suc zero) kept v rest = (kept * 4 + v / 16) ∷ rest
emit (suc (suc zero)) kept v rest = (kept * 16 + v / 4) ∷ rest
emit (suc (suc (suc n))) kept v rest = (kept * 64 + v) ∷ rest

unfoldable pub keep : ℕ → ℕ → ℕ
keep zero v = v
keep (suc zero) v = v % 16
keep (suc (suc zero)) v = v % 4
keep (suc (suc (suc n))) v = 0

abbrev next_place : ℕ → ℕ
next_place place = (place + 1) % 4

-- `none` is binascii.Error
abbrev map_some : (Bytes → Bytes) → Option Bytes → Option Bytes
map_some f none = none
map_some f (some s) = some (f s)

unfoldable pub scan : ℕ → ℕ → ℕ → Bytes → Option Bytes
unfolding emit keep sextet
scan place kept pads [] = if place == 0 then some [] else none
scan place kept pads (c ∷ s) = elim (c == b'=') [
  | true ↦ elim (leb 2 place && leb 4 (place + (pads + 1))) [
    | true ↦ some []
    | false ↦ scan place kept (if leb 2 place then pads + 1 else pads) s
  ]
  | false ↦ elim (sextet c) [
    | none ↦ scan place kept pads s
    | some v ↦ map_some (emit place kept v) (scan (next_place place) (keep place v) 0 s)
  ]
]

unfoldable pub urlsafe_b64decode : Bytes → Option Bytes
urlsafe_b64decode s = scan 0 0 0 s

sextet_test : urlsafe_b64encode (codes "relay?>") ≡ codes "cmVsYXk_Pg=="
unfolding urlsafe_b64encode
sextet_test = refl

decode_test : urlsafe_b64decode (codes "cmVs YXk/Pg==x") ≡ some (codes "relay?>")
unfolding urlsafe_b64decode scan
decode_test = refl

cut_test : urlsafe_b64decode (codes "cmVsYXk_Pg=") ≡ none
unfolding urlsafe_b64decode scan
cut_test = refl

sextet-char : (v : ℕ) → v < 64 → sextet (sextet_char v) ≡ some v
unfolding sextet sextet_char
sextet-char v h = ground arith

char_ne_pad : (v : ℕ) → v < 64 → (sextet_char v == b'=') ≡ false
unfolding sextet_char
char_ne_pad v h = ground arith

-- A character of the alphabet is taken.
scan-char :
    (place kept pads v : ℕ) (s : Bytes)
    → v < 64
    → scan place kept pads (sextet_char v ∷ s)
      ≡ map_some (emit place kept v) (scan (next_place place) (keep place v) 0 s)
unfolding scan
scan-char place kept pads v s h = rw (scan, char_ne_pad v h, sextet-char v h) refl

-- Padding at the third place ends the text at the second sign, at the fourth at the first.
scan-two_pads : (kept : ℕ) → scan 2 kept 0 (b'=' ∷ b'=' ∷ []) ≡ some []
unfolding scan
scan-two_pads kept = refl

scan-one_pad : (kept : ℕ) → scan 3 kept 0 (b'=' ∷ []) ≡ some []
unfolding scan
scan-one_pad kept = refl

scan_end : scan 0 0 0 [] ≡ some []
unfolding scan
scan_end = refl

map_some_same : (o : Option Bytes) → map_some (λ r. r) o ≡ o
map_some_same none = refl
map_some_same (some s) = refl

module _ (kept v : ℕ) (s : Bytes) (small : v < 64) where
  scan_first : scan 0 kept 0 (sextet_char v ∷ s) ≡ scan 1 v 0 s
  unfolding emit keep
  scan_first = scan-char 0 kept 0 v s small ∙ map_some_same (scan 1 v 0 s)

  scan_second :
      scan 1 kept 0 (sextet_char v ∷ s)
      ≡ map_some (λ r. (kept * 4 + v / 16) ∷ r) (scan 2 (v % 16) 0 s)
  unfolding emit keep
  scan_second = scan-char 1 kept 0 v s small

  scan_third :
      scan 2 kept 0 (sextet_char v ∷ s)
      ≡ map_some (λ r. (kept * 16 + v / 4) ∷ r) (scan 3 (v % 4) 0 s)
  unfolding emit keep
  scan_third = scan-char 2 kept 0 v s small

  scan_fourth :
      scan 3 kept 0 (sextet_char v ∷ s) ≡ map_some (λ r. (kept * 64 + v) ∷ r) (scan 0 0 0 s)
  unfolding emit keep
  scan_fourth = scan-char 3 kept 0 v s small

-- Bytes are read back as they were written.
pub decode-encode :
    (s : Bytes) → All (λ c. c < 256) s → urlsafe_b64decode (urlsafe_b64encode s) ≡ some s
unfolding urlsafe_b64decode urlsafe_b64encode
decode-encode [] h = scan_end
decode-encode (a ∷ []) h =
    rw
      (
        scan_first 0 (a / 4) _ (omega arith),
        scan_second (a / 4) (a % 4 * 16) _ (omega arith),
        scan-two_pads (a % 4 * 16 % 16),
      )
      (ground arith)
decode-encode (a ∷ b ∷ []) h =
    rw
      (
        scan_first 0 (a / 4) _ (omega arith),
        scan_second (a / 4) (a % 4 * 16 + b / 16) _ (omega arith),
        scan_third ((a % 4 * 16 + b / 16) % 16) (b % 16 * 4) _ (omega arith),
        scan-one_pad (b % 16 * 4 % 4),
      )
      (ground arith)
decode-encode (a ∷ b ∷ c ∷ s) h =
    rw
      (
        scan_first 0 (a / 4) _ (omega arith),
        scan_second (a / 4) (a % 4 * 16 + b / 16) _ (omega arith),
        scan_third ((a % 4 * 16 + b / 16) % 16) (b % 16 * 4 + c / 64) _ (omega arith),
        scan_fourth ((b % 16 * 4 + c / 64) % 4) (c % 64) _ (omega arith),
        decode-encode s h.1.1.1,
      )
      (ground arith)
