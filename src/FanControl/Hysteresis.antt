-- ===== src/FanControl/Hysteresis.antt =====
-- When the fan runs, over the temperatures that tools/bbbfancontrol/bbbfancontrol.go reads.
use mathlib.Core.List.{append_assoc, append-nil}
use bitbox_base.Base.{
  ◌++◌, Bool-cases, Bool, true, false, List, [], ◌∷◌, some, ◌≡◌, refl, ◌↔◌, ◌⊎◌, inl, inr, arith,
  All, if◌then◌else◌,
}
use bitbox_base.Base.Int.{ℤ, pos, ◌≤ℤ◌, leb_ℤ, ltb_ℤ}
use bitbox_base.FanControl.{FanArgs, Round, goes_on, raise, cap, set_fan, fan_round, fan_loop}
use bitbox_base.FanControl.Overflow.{Small}
use bitbox_base.FanControl.Bounds.{IsSensible, linear_pwm-fan_min}

abbrev StaysWarm : FanArgs → List ℤ → Type 0
StaysWarm a = All (λ u. a.temp_cooldown ≤ℤ u)

-- Some temperature is at least the minimal one, and none after it is below the cooldown temperature.
abbrev pub Started : FanArgs → List ℤ → Type 0
Started a [] = ⊥
Started a (t ∷ ts) = ((a.temp_min ≤ℤ t) × StaysWarm a ts) ⊎ Started a ts

-- The fan was on and had no reason to stop, or it was started and had none since.
abbrev pub Runs : FanArgs → Bool → List ℤ → Type 0
Runs a cooldown ts = ((cooldown ≡ true) × StaysWarm a ts) ⊎ Started a ts

abbrev next_cooldown : FanArgs → Bool → ℤ → Bool
next_cooldown a cooldown t = if cooldown then leb_ℤ a.temp_cooldown t else leb_ℤ a.temp_min t

-- The value for a fan that runs is between its minimum and its maximum, and for one that does not, 0.
abbrev pub IsSetTo : FanArgs → Bool → ℤ → Type 0
IsSetTo a true v = (a.fan_min ≤ℤ v) × (v ≤ℤ a.fan_max)
IsSetTo a false v = v ≡ pos 0

-- The values that a round writes, the last one apart.
abbrev Sets : FanArgs → Round → Bool → Type 0
Sets a r on =
    (before : List ℤ) × (v : ℤ) × (r ≡ record { writes = before ++ (v ∷ []); cooldown = on })
    × IsSetTo a on v

raise-IsSetTo :
    (a : FanArgs) (pwm : ℤ) → a.fan_min ≤ℤ a.fan_max → IsSetTo a true (raise a (cap a pwm))
unfolding cap
raise-IsSetTo a pwm order = ground arith

cap-IsSetTo :
    (a : FanArgs) (pwm : ℤ) → a.fan_min ≤ℤ a.fan_max → a.fan_min ≤ℤ pwm → IsSetTo a true (cap a pwm)
unfolding cap
cap-IsSetTo a pwm order above = ground arith

set_fan-Sets :
    (a : FanArgs) (cooldown : Bool) (t pwm : ℤ)
    → a.fan_min ≤ℤ a.fan_max
    → (a.temp_min ≤ℤ t → a.fan_min ≤ℤ pwm)
    → Sets a (set_fan a cooldown t (cap a pwm)) (next_cooldown a cooldown t)
unfolding set_fan
set_fan-Sets a true t pwm order above = elim (Bool-cases (leb_ℤ a.temp_cooldown t)) [
  | inl warm ↦ ([], raise a (cap a pwm), ground arith, rw warm (raise-IsSetTo a pwm order))
  | inr cold ↦ ([], pos 0, ground arith, rw cold refl)
]
set_fan-Sets a false t pwm order above = elim (Bool-cases (leb_ℤ a.temp_min t)) [
  | inl hot ↦ (
    if ltb_ℤ (pos 0) a.fan_kickstart then a.fan_max ∷ [] else [],
    cap a pwm,
    ground arith,
    rw hot (cap-IsSetTo a pwm order (above (ground arith))),
  )
  | inr cool ↦ ([], pos 0, ground arith, rw cool refl)
]

fan_round-Sets :
    (a : FanArgs) (cooldown : Bool) (t : ℤ)
    → IsSensible a
    → Small t
    → (r : Round) × (fan_round a cooldown t ≡ goes_on r) × Sets a r (next_cooldown a cooldown t)
unfolding fan_round
fan_round-Sets a cooldown t v small =
    let (pwm, line, above) = linear_pwm-fan_min a t v small in
    (set_fan a cooldown t (cap a pwm), rw line, set_fan-Sets a cooldown t pwm v.fan_order above)

Runs-step :
    (a : FanArgs) (cooldown : Bool) (t : ℤ) (ts : List ℤ)
    → a.temp_cooldown ≤ℤ a.temp_min
    → Runs a (next_cooldown a cooldown t) ts ↔ Runs a cooldown (t ∷ ts)
Runs-step a true t ts h = (λ r. ground arith, λ r. ground arith)
Runs-step a false t ts h = (λ r. ground arith, λ r. ground arith)

-- With arguments in order, the bounds of both ranges below 2^30 in magnitude and the minimal and the
-- maximal temperature different, the loop gets through one or more temperatures below 2^30 in
-- magnitude. The fan runs after them exactly if it
-- was on and none of them was below the cooldown temperature, or one of them was at least the minimal
-- temperature and none after that one was below the cooldown temperature. The value written last is
-- then between the minimum and the maximum of the fan, and otherwise 0.
pub fan_loop-Runs :
    (a : FanArgs)
    → IsSensible a
    → a.temp_cooldown ≤ℤ a.temp_min
    → (cooldown : Bool) (t : ℤ) (ts : List ℤ) → All Small (t ∷ ts)
    → (before : List ℤ) × (v : ℤ) × (on : Bool) × (fan_loop a cooldown (t ∷ ts)
        ≡ some (record { writes = before ++ (v ∷ []); cooldown = on }))
      × ((on ≡ true) ↔ Runs a cooldown (t ∷ ts))
      × IsSetTo a on v
unfolding fan_loop
fan_loop-Runs a v h cooldown t [] small =
    let (r, round, (before, w, is, set)) = fan_round-Sets a cooldown t v small.0 in
    let step = Runs-step a cooldown t [] h in
    (
      before,
      w,
      next_cooldown a cooldown t,
      rw (round, is, append-nil (before ++ (w ∷ []))) refl,
      (λ on. step.0 (inl (on, tt)), λ runs. elim (step.1 runs) [ inl p ↦ p.0 | inr s ↦ absurd s ]),
      set,
    )
fan_loop-Runs a v h cooldown t (u ∷ us) small =
    let (r, round, (first, x, is, _)) = fan_round-Sets a cooldown t v small.0 in
    let (before, w, on, later, spec, set) =
      fan_loop-Runs a v h (next_cooldown a cooldown t) u us small.1 in
    let step = Runs-step a cooldown t (u ∷ us) h in
    (
      (first ++ (x ∷ [])) ++ before,
      w,
      on,
      rw (round, is, later, append_assoc (first ++ (x ∷ [])) before (w ∷ [])) refl,
      (λ e. step.0 (spec.0 e), λ runs. spec.1 (step.1 runs)),
      set,
    )
