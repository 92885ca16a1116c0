-- ===== src/FanControl/Bounds.antt =====
-- The values that tools/bbbfancontrol/bbbfancontrol.go writes to the fan.
use native.Mathlib.Nat.{div-le_self, div-eq_of_lt}
use bitbox_base.Base.{
  ℕ, ◌+◌, ◌*◌, ◌/◌, ◌^◌, ◌≤◌, ◌<◌, ◌≡◌, ◌≢◌, ◌↔◌, ◌⊎◌, inl, inr, arith, Bool, true, false, [], ◌∷◌,
  some, All, Bool-cases, ap, sym, ◌∙◌,
}
use bitbox_base.Base.Int.{
  ℤ, pos, negsuc, pos_part, neg_part, ◌+ℤ◌, ◌-ℤ◌, ◌*ℤ◌, ◌≤ℤ◌, +ℤ_parts, -ℤ_parts, eq_of_parts,
  eqb_ℤ,
}
use bitbox_base.Base.Decimal.{Fits}
use bitbox_base.FanControl.{
  FanArgs, wrap, quot, linear_pwm, cap, set_fan, Round, goes_on, panics, fan_round,
}
use bitbox_base.FanControl.Overflow.{
  wrap_of_Fits, Small, wrap-sub, quot_pos, product_bound, product_pos, product_zero, wrap-sub-zero,
}

+ℤ_bounds :
    (a b : ℤ)
    → (pos_part (a +ℤ b) ≤ pos_part a + pos_part b) × (neg_part (a +ℤ b) ≤ neg_part a + neg_part b)
unfolding ◌+ℤ◌
+ℤ_bounds a b = ground arith

-- Arguments as they are meant: the ranges in order, the one of the temperatures not empty, and their
-- bounds below 2^30 in magnitude.
pub record IsSensible (a : FanArgs) : Type 0 where
  pub temp_min_small : Small a.temp_min
  pub temp_max_small : Small a.temp_max
  pub fan_min_small : Small a.fan_min
  pub fan_max_small : Small a.fan_max
  pub fan_order : a.fan_min ≤ℤ a.fan_max
  pub temp_order : a.temp_min ≤ℤ a.temp_max
  pub temp_ne : a.temp_min ≢ a.temp_max

-- The slope of the line.
slope_pos :
    (a : FanArgs)
    → IsSensible a
    → (k : ℕ) × (wrap (quot (wrap (a.fan_max -ℤ a.fan_min)) (wrap (a.temp_max -ℤ a.temp_min)))
        ≡ pos k)
      × (k < 2 ^ 31)
slope_pos a v =
    let (d, fan, fan_lt, _) =
      wrap-sub a.fan_max a.fan_min v.fan_max_small v.fan_min_small v.fan_order in
    let (r, temp, temp_lt, _) =
      wrap-sub a.temp_max a.temp_min v.temp_max_small v.temp_min_small v.temp_order in
    (
      d / r,
      rw (fan, temp, quot_pos d r) (wrap_of_Fits (pos (d / r)) (omega (arith, div-le_self d r))),
      omega (arith, div-le_self d r),
    )

Fits-of_parts : (z : ℤ) → pos_part z < 2 ^ 63 → neg_part z < 2 ^ 63 → Fits z
Fits-of_parts (pos n) h k = h
Fits-of_parts (negsuc n) h k = omega arith

Fits-of_Small : (z : ℤ) → Small z → Fits z
Fits-of_Small z s = Fits-of_parts z (omega arith) (omega arith)

eqb_ℤ-eq : (a b : ℤ) → eqb_ℤ a b ≡ true → a ≡ b
eqb_ℤ-eq a b h = eq_of_parts a b (ground arith)

range_ne_zero :
    (a : FanArgs) → IsSensible a → eqb_ℤ (wrap (a.temp_max -ℤ a.temp_min)) (pos 0) ≡ false
range_ne_zero a v = elim (Bool-cases (eqb_ℤ (wrap (a.temp_max -ℤ a.temp_min)) (pos 0))) [
  | inl zero ↦ absurd (
      v.temp_ne (
        sym (
          wrap-sub-zero a.temp_max a.temp_min (Fits-of_Small a.temp_max v.temp_max_small)
            (Fits-of_Small a.temp_min v.temp_min_small) (eqb_ℤ-eq _ _ zero))))
  | inr ne ↦ ne
]

line-le :
    (m : ℤ) (k d : ℕ) → Small m → k < 2 ^ 31 → d < 2 ^ 31 → m ≤ℤ wrap (m +ℤ wrap (pos k *ℤ pos d))
line-le m k d hm hk hd =
    let small = product_bound k d hk hd in
    rw
      (
        product_pos k d,
        wrap_of_Fits (pos (k * d)) (omega arith),
        wrap_of_Fits (m +ℤ pos (k * d)) (
            Fits-of_parts _ (omega (arith, +ℤ_parts m (pos (k * d)), +ℤ_bounds m (pos (k * d))))
              (omega (arith, +ℤ_bounds m (pos (k * d))))),
      )
      (omega (arith, +ℤ_parts m (pos (k * d))))

pub linear_pwm-some :
    (a : FanArgs) (temp : ℤ) → IsSensible a → (pwm : ℤ) × (linear_pwm a temp ≡ some pwm)
unfolding linear_pwm
linear_pwm-some a temp v =
    let slope = wrap (quot (wrap (a.fan_max -ℤ a.fan_min)) (wrap (a.temp_max -ℤ a.temp_min))) in
    (wrap (a.fan_min +ℤ wrap (slope *ℤ wrap (temp -ℤ a.temp_min))), rw (range_ne_zero a v))

-- At the minimal temperature and above the line is not below the minimal value.
pub linear_pwm-fan_min :
    (a : FanArgs) (temp : ℤ)
    → IsSensible a
    → Small temp
    → (pwm : ℤ) × (linear_pwm a temp ≡ some pwm) × (a.temp_min ≤ℤ temp → a.fan_min ≤ℤ pwm)
unfolding linear_pwm
linear_pwm-fan_min a temp v t =
    let slope = wrap (quot (wrap (a.fan_max -ℤ a.fan_min)) (wrap (a.temp_max -ℤ a.temp_min))) in
    (
      wrap (a.fan_min +ℤ wrap (slope *ℤ wrap (temp -ℤ a.temp_min))),
      rw (range_ne_zero a v),
      λ above.
          let (k, is_slope, k_lt) = slope_pos a v in
          let (d, is_diff, d_lt, _) = wrap-sub temp a.temp_min t v.temp_min_small above in
          rw (is_slope, is_diff) (line-le a.fan_min k d v.fan_min_small k_lt d_lt),
    )

-- A value for the fan: off, or between the minimum and the maximum.
abbrev pub IsFanValue : FanArgs → ℤ → Type 0
IsFanValue a v = (v ≡ pos 0) ⊎ ((a.fan_min ≤ℤ v) × (v ≤ℤ a.fan_max))

set_fan-IsFanValue :
    (a : FanArgs) (cooldown : Bool) (temp pwm : ℤ)
    → a.fan_min ≤ℤ a.fan_max
    → (a.temp_min ≤ℤ temp → a.fan_min ≤ℤ pwm)
    → All (IsFanValue a) (set_fan a cooldown temp (cap a pwm)).writes
unfolding set_fan cap
set_fan-IsFanValue a true temp pwm order above = ground arith
set_fan-IsFanValue a false temp pwm order above = ground arith

-- With arguments in order, the bounds of both ranges below 2^30 in magnitude and the two temperatures
-- different, a round at a temperature below 2^30 degrees in magnitude goes on, and every value that
-- it writes is 0 or between the minimum and the maximum: no overflow and no division by zero.
pub fan_round-IsFanValue :
    (a : FanArgs) (cooldown : Bool) (temp : ℤ)
    → IsSensible a
    → Small temp
    → (r : Round) × (fan_round a cooldown temp ≡ goes_on r) × All (IsFanValue a) r.writes
unfolding fan_round
fan_round-IsFanValue a cooldown temp v t =
    let (pwm, line, above) = linear_pwm-fan_min a temp v t in
    (
      set_fan a cooldown temp (cap a pwm),
      rw line,
      set_fan-IsFanValue a cooldown temp pwm v.fan_order above,
    )

-- The slope of a flat line is 0.
slope_flat :
    (a : FanArgs)
    → IsSensible a
    → (a.fan_max -ℤ a.fan_min) +ℤ pos 1 ≤ℤ a.temp_max -ℤ a.temp_min
    → wrap (quot (wrap (a.fan_max -ℤ a.fan_min)) (wrap (a.temp_max -ℤ a.temp_min))) ≡ pos 0
slope_flat a v flat =
    let (d, fan, fan_lt, d_is) =
      wrap-sub a.fan_max a.fan_min v.fan_max_small v.fan_min_small v.fan_order in
    let (r, temp, temp_lt, r_is) =
      wrap-sub a.temp_max a.temp_min v.temp_max_small v.temp_min_small v.temp_order in
    let less : d < r = omega (
      arith,
      -ℤ_parts a.fan_max a.fan_min,
      -ℤ_parts a.temp_max a.temp_min,
      +ℤ_parts (a.fan_max -ℤ a.fan_min) (pos 1),
      flat,
    ) in
    let zero : d / r ≡ 0 = div-eq_of_lt less in
    rw (fan, temp, quot_pos d r, zero) (wrap_of_Fits (pos 0) (omega arith))

linear_pwm_flat :
    (a : FanArgs) (temp : ℤ)
    → IsSensible a
    → (a.fan_max -ℤ a.fan_min) +ℤ pos 1 ≤ℤ a.temp_max -ℤ a.temp_min
    → linear_pwm a temp ≡ some a.fan_min
unfolding linear_pwm
linear_pwm_flat a temp v flat =
    rw (range_ne_zero a v, slope_flat a v flat, product_zero, wrap_of_Fits (pos 0) (omega arith))
      (ap some (
        ap wrap (eq_of_parts _ a.fan_min (omega (arith, +ℤ_parts a.fan_min (pos 0))))
        ∙ wrap_of_Fits a.fan_min (Fits-of_Small a.fan_min v.fan_min_small)))

set_fan_min :
    (a : FanArgs) (temp : ℤ)
    → a.fan_min ≤ℤ a.fan_max
    → a.temp_cooldown ≤ℤ temp
    → goes_on (set_fan a true temp (cap a a.fan_min))
      ≡ goes_on (record { writes = a.fan_min ∷ []; cooldown = true })
unfolding set_fan cap
set_fan_min a temp order warm = ground arith

-- With arguments in order and their bounds below 2^30 in magnitude, if the fan has fewer steps
-- between its minimum and its maximum than there are degrees between the minimal and the maximal
-- temperature, the slope is rounded down to 0: while the fan cools, however hot it gets, it runs at
-- its minimum.
pub fan_round_flat :
    (a : FanArgs) (temp : ℤ)
    → IsSensible a
    → (a.fan_max -ℤ a.fan_min) +ℤ pos 1 ≤ℤ a.temp_max -ℤ a.temp_min
    → a.temp_cooldown ≤ℤ temp
    → fan_round a true temp ≡ goes_on (record { writes = a.fan_min ∷ []; cooldown = true })
unfolding fan_round
fan_round_flat a temp v flat warm =
    rw (linear_pwm_flat a temp v flat) (set_fan_min a temp v.fan_order warm)

sub_self : (a : ℤ) → a -ℤ a ≡ pos 0
sub_self a = eq_of_parts (a -ℤ a) (pos 0) (omega (arith, -ℤ_parts a a))

range_zero : (a : FanArgs) → a.temp_min ≡ a.temp_max → wrap (a.temp_max -ℤ a.temp_min) ≡ pos 0
range_zero a e = rw (e, sub_self a.temp_max) (wrap_of_Fits (pos 0) (omega arith))

-- For arguments of 64 bits the loop panics, by a division by zero, exactly if the minimal and the
-- maximal temperature are equal, which the check of the arguments accepts.
pub fan_round-panics :
    (a : FanArgs) (cooldown : Bool) (temp : ℤ)
    → Fits a.temp_min
    → Fits a.temp_max
    → (fan_round a cooldown temp ≡ panics) ↔ (a.temp_min ≡ a.temp_max)
unfolding fan_round linear_pwm
fan_round-panics a cooldown temp hmin hmax =
    elim (Bool-cases (eqb_ℤ (wrap (a.temp_max -ℤ a.temp_min)) (pos 0))) [
      | inl zero ↦
          let same = wrap-sub-zero a.temp_max a.temp_min hmax hmin (eqb_ℤ-eq _ _ zero) in
          (λ _. sym same, λ _. rw zero)
      | inr ne ↦ (λ h. ground arith, λ e. let z = rw (range_zero a e) at ne in cc)
    ]
