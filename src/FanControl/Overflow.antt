-- ===== src/FanControl/Overflow.antt =====
-- Numbers that fit into 64 bits do not wrap around (tools/bbbfancontrol/bbbfancontrol.go).
use bitbox_base.Base.{ℕ, ◌+◌, ◌-◌, ◌*◌, ◌/◌, ◌^◌, ◌<◌, ◌≡◌, arith}
use bitbox_base.Base.Int.{ℤ, pos, negsuc, pos_part, neg_part, ◌-ℤ◌, ◌*ℤ◌, ◌≤ℤ◌}
use bitbox_base.Base.Decimal.{Fits}
use bitbox_base.FanControl.{wrap, quot}

pub wrap_of_Fits : (z : ℤ) → Fits z → wrap z ≡ z
unfolding wrap
wrap_of_Fits (pos n) h = ground arith
wrap_of_Fits (negsuc n) h = ground arith

-- The arguments and temperatures that make sense are far inside the 64 bits.
abbrev pub Small : ℤ → Type 0
Small z = (pos_part z < 2 ^ 30) × (neg_part z < 2 ^ 30)

-- A difference that is not negative.
pub wrap-sub :
    (a b : ℤ)
    → Small a
    → Small b
    → b ≤ℤ a
    → (d : ℕ) × (wrap (a -ℤ b) ≡ pos d)
      × (d < 2 ^ 31)
      × (pos_part a + neg_part b ≡ d + neg_part a + pos_part b)
unfolding wrap ◌-ℤ◌
wrap-sub a b ha hb h =
    (pos_part a + neg_part b - (neg_part a + pos_part b), ground arith, omega arith, omega arith)

pub quot_pos : (a b : ℕ) → quot (pos a) (pos b) ≡ pos (a / b)
unfolding quot
quot_pos a b = ground arith

pub product_bound : (k d : ℕ) → k < 2 ^ 31 → d < 2 ^ 31 → k * d < 2 ^ 62
product_bound k d hk hd = grind arith

pub product_pos : (k d : ℕ) → pos k *ℤ pos d ≡ pos (k * d)
unfolding ◌*ℤ◌
product_pos k d = ground arith

pub product_zero : (z : ℤ) → pos 0 *ℤ z ≡ pos 0
unfolding ◌*ℤ◌
product_zero z = ground arith

-- A difference of numbers of 64 bits wraps to 0 only if they are equal.
pub wrap-sub-zero : (a b : ℤ) → Fits a → Fits b → wrap (a -ℤ b) ≡ pos 0 → a ≡ b
unfolding wrap ◌-ℤ◌
wrap-sub-zero (pos m) (pos n) ha hb h = ground arith
wrap-sub-zero (pos m) (negsuc n) ha hb h = ground arith
wrap-sub-zero (negsuc m) (pos n) ha hb h = ground arith
wrap-sub-zero (negsuc m) (negsuc n) ha hb h = ground arith
