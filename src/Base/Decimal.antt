-- ===== src/Base/Decimal.antt =====
-- `strconv.Atoi` and `strconv.Itoa` for a 64-bit `int`.
use Prim.Native.Nat.{ℕ, zero, suc, ◌+◌, ◌-◌, ◌*◌, ◌/◌, ◌%◌, ◌^◌, ◌≤◌, ◌<◌}
use mathlib.Core.Path.{◌≡◌, refl, ◌∙◌}
use mathlib.Core.Logic.{◌≢◌, inl, inr}
use mathlib.Core.Bool.{Bool, ◌&&◌}
use mathlib.Core.Option.{Option, none, some}
use mathlib.Core.List.{[], ◌∷◌, ◌++◌, append_assoc, append-nil}
use native.Mathlib.Omega.{arith}
use bitbox_base.Base.Tests.{ltb, leb, ◌==◌, if◌then◌else◌, Bool-cases}
use bitbox_base.Base.Lists.{All, All-append}
use bitbox_base.Base.Text.{Text}
use bitbox_base.Base.Int.{ℤ, pos, negsuc}

abbrev pub is_digit : ℕ → Bool
is_digit c = leb b'0' c && leb c b'9'

unfoldable pub digits : ℕ → Text → Option ℕ
digits acc [] = some acc
digits acc (c ∷ s) = if is_digit c then digits (acc * 10 + (c - b'0')) s else none

unfoldable pub unsigned : Text → Option ℕ
unfolding digits
unsigned [] = none
unsigned (c ∷ s) = digits 0 (c ∷ s)

-- The sign of the result is put on a magnitude, which must fit into 64 bits.
positive : Option ℕ → Option ℤ
positive none = none
positive (some n) = if ltb n (2 ^ 63) then some (pos n) else none

negative : Option ℕ → Option ℤ
negative none = none
negative (some n) =
    if n == 0 then some (pos 0) else if leb n (2 ^ 63) then some (negsuc (n - 1)) else none

-- `none` is an error: a syntax error or a value out of range.
unfoldable pub atoi : Text → Option ℤ
unfolding unsigned positive negative
atoi [] = none
atoi (c ∷ s) =
    if c == b'-'
    then negative (unsigned s)
    else if c == b'+'
    then positive (unsigned s)
    else positive (unsigned (c ∷ s))

-- The digits of a number below `10 ^ fuel`.
unfoldable pub decimal_fuel : ℕ → ℕ → Text
decimal_fuel zero n = (b'0' + n % 10) ∷ []
decimal_fuel (suc fuel) n =
    let rest = decimal_fuel fuel (n / 10) ++ ((b'0' + n % 10) ∷ []) in
    if ltb n 10 then (b'0' + n % 10) ∷ [] else rest

unfoldable pub decimal : ℕ → Text
unfolding decimal_fuel
decimal n = decimal_fuel n n

unfoldable pub itoa : ℤ → Text
unfolding decimal
itoa (pos n) = decimal n
itoa (negsuc n) = b'-' ∷ decimal (suc n)

abbrev pub IsDigit : ℕ → Type 0
IsDigit c = (b'0' ≤ c) × (c ≤ b'9')

-- The values of Go's `int`.
abbrev pub Fits : ℤ → Type 0
Fits (pos n) = n < 2 ^ 63
Fits (negsuc n) = n < 2 ^ 63

digits-decimal_fuel :
    (fuel n : ℕ) (rest : Text) → n ≤ fuel → digits 0 (decimal_fuel fuel n ++ rest) ≡ digits n rest
unfolding decimal_fuel digits
digits-decimal_fuel zero n rest h = ground arith
digits-decimal_fuel (suc fuel) n rest h = elim (Bool-cases (ltb n 10)) [
  | inl small ↦ rw small (ground arith)
  | inr large ↦
      rw (large, append_assoc, digits-decimal_fuel fuel (n / 10) _ (ground arith)) (ground arith)
]

decimal_fuel-IsDigit : (fuel n : ℕ) → All IsDigit (decimal_fuel fuel n)
unfolding decimal_fuel
decimal_fuel-IsDigit zero n = omega arith
decimal_fuel-IsDigit (suc fuel) n = elim (Bool-cases (ltb n 10)) [
  | inl small ↦ rw small (omega arith)
  | inr large ↦ rw large (All-append IsDigit _ _ (decimal_fuel-IsDigit fuel (n / 10)) (omega arith))
]

pub decimal-IsDigit : (n : ℕ) → All IsDigit (decimal n)
unfolding decimal
decimal-IsDigit n = decimal_fuel-IsDigit n n

pub digits-decimal : (n : ℕ) (rest : Text) → digits 0 (decimal n ++ rest) ≡ digits n rest
unfolding decimal
digits-decimal n rest = digits-decimal_fuel n n rest (omega arith)

snoc-ne-nil : (s : Text) (c : ℕ) → s ++ (c ∷ []) ≢ []
snoc-ne-nil [] c = λ h. cc
snoc-ne-nil (d ∷ s) c = λ h. cc

decimal_fuel-ne-nil : (fuel n : ℕ) → decimal_fuel fuel n ≢ []
unfolding decimal_fuel
decimal_fuel-ne-nil zero n = λ h. cc
decimal_fuel-ne-nil (suc fuel) n =
    ground (arith, snoc-ne-nil (decimal_fuel fuel (n / 10)) (b'0' + n % 10))

decimal_fuel-snoc :
    (fuel n : ℕ) → (s : Text) × (d : ℕ) × IsDigit d × (decimal_fuel fuel n ≡ s ++ (d ∷ []))
unfolding decimal_fuel
decimal_fuel-snoc zero n = ([], b'0' + n % 10, omega arith, refl)
decimal_fuel-snoc (suc fuel) n = elim (Bool-cases (ltb n 10)) [
  | inl small ↦ ([], b'0' + n % 10, omega arith, rw small)
  | inr large ↦ (decimal_fuel fuel (n / 10), b'0' + n % 10, omega arith, rw large)
]

-- A decimal ends with a digit.
pub decimal-snoc : (n : ℕ) → (s : Text) × (d : ℕ) × IsDigit d × (decimal n ≡ s ++ (d ∷ []))
unfolding decimal
decimal-snoc n = decimal_fuel-snoc n n

pub decimal-ne-nil : (n : ℕ) → decimal n ≢ []
unfolding decimal
decimal-ne-nil n = decimal_fuel-ne-nil n n

unsigned_of_cons : (s : Text) → s ≢ [] → unsigned s ≡ digits 0 s
unfolding unsigned
unsigned_of_cons [] h = absurd (h refl)
unsigned_of_cons (c ∷ s) h = refl

digits-decimal_nil : (n : ℕ) → digits 0 (decimal n) ≡ some n
digits-decimal_nil n = rw (← append-nil (decimal n)) (digits-decimal n [] ∙ unfold digits in refl)

pub unsigned-decimal : (n : ℕ) → unsigned (decimal n) ≡ some n
unsigned-decimal n = unsigned_of_cons (decimal n) (decimal-ne-nil n) ∙ digits-decimal_nil n

atoi_of_digits : (s : Text) → s ≢ [] → All IsDigit s → atoi s ≡ positive (unsigned s)
unfolding atoi
atoi_of_digits [] h d = absurd (h refl)
atoi_of_digits (c ∷ s) h d = ground arith

-- Reading the decimal of a number that fits gives the number.
pub atoi-decimal : (n : ℕ) → n < 2 ^ 63 → atoi (decimal n) ≡ some (pos n)
unfolding positive
atoi-decimal n h =
    atoi_of_digits (decimal n) (decimal-ne-nil n) (decimal-IsDigit n)
    ∙ rw unsigned-decimal (ground arith)

-- An `int` that fits into 64 bits is read back from what `Itoa` prints.
pub atoi-itoa : (z : ℤ) → Fits z → atoi (itoa z) ≡ some z
unfolding itoa
atoi-itoa (pos n) h = atoi-decimal n h
atoi-itoa (negsuc n) h = unfold atoi negative in rw unsigned-decimal (ground arith)
