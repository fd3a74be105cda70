-- ===== src/Prelude/IntText.antt =====
-- `int` on bytes, in base 10: white space around it, a sign, digits with single underscores between
-- them, and no more than 4300 digits, the limit of CPython. `none` is its ValueError.
use relay_webhooks.Prelude.{
  ℕ, zero, suc, ◌+◌, ◌-◌, ◌*◌, ◌==◌, ◌≤◌, ◌<◌, ◌≡◌, refl, Bool, true, false, ◌&&◌, ◌||◌, not,
  Option, none, some, [], ◌∷◌, Bytes, All, length, leb, ltb, arith, codes, if◌then◌else◌,
}
use relay_webhooks.Prelude.Int.{ℤ, pos, negsuc}

abbrev pub is_space : ℕ → Bool
is_space c = c == 32 || (leb 9 c && leb c 13)

abbrev pub is_digit : ℕ → Bool
is_digit c = leb b'0' c && leb c b'9'

abbrev pub all_space : Bytes → Bool
all_space [] = true
all_space (c ∷ s) = is_space c && all_space s

abbrev pub max_digits : ℕ
max_digits = 4300

-- the end of the digits: `gap` says that an underscore stands before it
unfoldable pub finish : ℕ → ℕ → Bool → Bytes → Option ℕ
finish value count gap rest =
    if gap || count == 0 || ltb max_digits count || not (all_space rest) then none else some value

unfoldable pub scan_digits : ℕ → ℕ → Bool → Bytes → Option ℕ
unfolding finish
scan_digits value count gap [] = finish value count gap []
scan_digits value count gap (c ∷ s) = elim (is_digit c) [
  | true ↦ scan_digits (value * 10 + (c - b'0')) (count + 1) false s
  | false ↦ elim (c == b'_' && (ltb 0 count && not gap)) [
    | true ↦ scan_digits value count true s
    | false ↦ finish value count gap (c ∷ s)
  ]
]

abbrev negated : ℕ → ℤ
negated zero = pos 0
negated (suc n) = negsuc n

abbrev map_to : (ℕ → ℤ) → Option ℕ → Option ℤ
map_to f none = none
map_to f (some n) = some (f n)

unfoldable pub signed : Bytes → Option ℤ
unfolding scan_digits
signed [] = none
signed (c ∷ s) =
    if c == b'-'
    then map_to negated (scan_digits 0 0 false s)
    else if c == b'+'
    then map_to pos (scan_digits 0 0 false s)
    else map_to pos (scan_digits 0 0 false (c ∷ s))

unfoldable pub int_of_bytes : Bytes → Option ℤ
unfolding signed
int_of_bytes [] = none
int_of_bytes (c ∷ s) = let rest = int_of_bytes s in if is_space c then rest else signed (c ∷ s)

int_test : int_of_bytes (codes " -1_024 ") ≡ some (negsuc 1023)
unfolding int_of_bytes
int_test = refl

gap_test : int_of_bytes (codes "1__0") ≡ none
unfolding int_of_bytes
gap_test = refl

junk_test : int_of_bytes (codes "10x") ≡ none
unfolding int_of_bytes
junk_test = refl

-- the number that digits spell after `value`
abbrev pub spelled : ℕ → Bytes → ℕ
spelled value [] = value
spelled value (c ∷ s) = spelled (value * 10 + (c - b'0')) s

abbrev pub AreDigits : Bytes → Type 0
AreDigits = All (λ c. is_digit c ≡ true)

scan_digits-spelled :
    (value count : ℕ) (s : Bytes)
    → AreDigits s
    → 0 < count + length s
    → count + length s ≤ max_digits
    → scan_digits value count false s ≡ some (spelled value s)
unfolding scan_digits
scan_digits-spelled value count [] digits some_digit few = ground arith
scan_digits-spelled value count (c ∷ s) digits some_digit few =
    rw (scan_digits, digits.0)
      (scan_digits-spelled (value * 10 + (c - b'0')) (count + 1) s digits.1 (omega arith)
        (omega arith))

-- From one to 4300 decimal digits are read as the number that they spell.
pub int_of_bytes-digits :
    (s : Bytes)
    → AreDigits s
    → 0 < length s
    → length s ≤ max_digits
    → int_of_bytes s ≡ some (pos (spelled 0 s))
unfolding int_of_bytes signed
int_of_bytes-digits [] digits some_digit few = absurd (omega arith)
int_of_bytes-digits (c ∷ s) digits some_digit few =
    ground (arith, digits.0, scan_digits-spelled 0 0 (c ∷ s) digits (omega arith) (omega arith))
