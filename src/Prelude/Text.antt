-- ===== src/Prelude/Text.antt =====
-- Bytes and code points as lists of numbers: the literals of the source, comparison, decimal and
-- hexadecimal rendering.
use Prim.Native.Char.{code}
use Prim.Native.Nat.{ℕ, zero, suc, ◌+◌, ◌-◌, ◌/◌, ◌%◌}
use Prim.Native.String.{String}
use mathlib.Core.Bool.{Bool, true, false, ◌&&◌}
use mathlib.Core.List.{List, [], ◌∷◌, ◌++◌}
use mathlib.Core.Logic.{inl, inr}
use mathlib.Core.Path.{◌≡◌, refl}
use native.Mathlib.Omega.{arith}
use relay_webhooks.Prelude.Tests.{ltb, ◌==◌, if◌then◌else◌, Bool-cases}

abbrev pub Bytes : Type 0
Bytes = List ℕ

-- The code points of a text, which are its bytes where it is ASCII.
abbrev pub codes : String → Bytes
codes String.[] = []
codes (String.◌∷◌ c s) = code c ∷ codes s

-- Equality of texts; `hmac.compare_digest` too, whose timing is not modelled.
abbrev pub bytes_eq : Bytes → Bytes → Bool
bytes_eq [] [] = true
bytes_eq (a ∷ s) (b ∷ t) = a == b && bytes_eq s t
bytes_eq _ _ = false

pub bytes_eq_refl : (s : Bytes) → bytes_eq s s ≡ true
bytes_eq_refl [] = refl
bytes_eq_refl (a ∷ s) = ground (arith, bytes_eq_refl s)

pub eq_of_bytes_eq : (s t : Bytes) → bytes_eq s t ≡ true → s ≡ t
eq_of_bytes_eq [] [] h = refl
eq_of_bytes_eq [] (b ∷ t) h = cc
eq_of_bytes_eq (a ∷ s) [] h = cc
eq_of_bytes_eq (a ∷ s) (b ∷ t) h = ground (arith, eq_of_bytes_eq s t)

-- one hexadecimal digit in lower case
abbrev pub hex_digit : ℕ → ℕ
hex_digit d = if ltb d 10 then b'0' + d else b'a' + (d - 10)

-- `bytes.hex()`
abbrev pub hex : Bytes → Bytes
hex [] = []
hex (b ∷ s) = hex_digit (b / 16) ∷ hex_digit (b % 16) ∷ hex s

-- `str(n)` in front of `acc`; `n < fuel` is enough fuel.
unfoldable pub digits : ℕ → ℕ → Bytes → Bytes
digits zero n acc = acc
digits (suc fuel) n acc = elim (ltb n 10) [
  | true ↦ (b'0' + n) ∷ acc
  | false ↦ digits fuel (n / 10) ((b'0' + n % 10) ∷ acc)
]

-- `str(n)` of a number that is not negative
unfoldable pub decimal : ℕ → Bytes
unfolding digits
decimal n = digits (suc n) n []

pub digits-append :
    (fuel n : ℕ) (acc rest : Bytes) → digits fuel n (acc ++ rest) ≡ digits fuel n acc ++ rest
unfolding digits
digits-append zero n acc rest = refl
digits-append (suc fuel) n acc rest = elim (Bool-cases (ltb n 10)) [
  | inl h ↦ rw (h, digits)
  | inr h ↦ rw (h, digits) (digits-append fuel (n / 10) ((b'0' + n % 10) ∷ acc) rest)
]

pub digits_small :
    (fuel n : ℕ) (acc : Bytes) → ltb n 10 ≡ true → digits (suc fuel) n acc ≡ (b'0' + n) ∷ acc
unfolding digits
digits_small fuel n acc h = rw (h, digits)

pub digits_large :
    (fuel n : ℕ) (acc : Bytes)
    → ltb n 10 ≡ false
    → digits (suc fuel) n acc ≡ digits fuel (n / 10) ((b'0' + n % 10) ∷ acc)
unfolding digits
digits_large fuel n acc h = rw (h, digits)

decimal_test : decimal 1700000042 ≡ codes "1700000042"
unfolding decimal
decimal_test = refl
