-- ===== src/Tests/Fan.antt =====
-- The fan of the board at the default arguments, and at a narrow range of values.
use bitbox_base.Base.{ℕ, ◌≡◌, ◌↔◌, refl, true, false, Bool, some, List, [], ◌∷◌, ◌++◌, All, arith}
use bitbox_base.Base.Text.{text}
use bitbox_base.Base.Int.{ℤ, pos, ◌+ℤ◌, ◌-ℤ◌, ◌*ℤ◌}
use bitbox_base.FanControl.{
  FanArgs, Round, wrap, quot, goes_on, panics, fan_round, fan_loop, linear_pwm, set_fan, cap,
  read_round,
}
use bitbox_base.FanControl.Bounds.{
  IsSensible, IsFanValue, fan_round-IsFanValue, fan_round_flat, fan_round-panics,
}
use bitbox_base.FanControl.Hysteresis.{Runs, IsSetTo, fan_loop-Runs}

abbrev args : ℕ → ℕ → FanArgs
args temp_max fan_min = record {
  temp_min = pos 45;
  temp_max = pos temp_max;
  temp_cooldown = pos 40;
  fan_min = pos fan_min;
  fan_max = pos 255;
  fan_kickstart = pos 0;
}

default-IsSensible : IsSensible (args 60 120)
default-IsSensible = record {
  temp_min_small = omega arith;
  temp_max_small = omega arith;
  fan_min_small = omega arith;
  fan_max_small = omega arith;
  fan_order = omega arith;
  temp_order = omega arith;
  temp_ne = λ e. ground arith;
}

narrow-IsSensible : IsSensible (args 60 250)
narrow-IsSensible = record {
  temp_min_small = omega arith;
  temp_max_small = omega arith;
  fan_min_small = omega arith;
  fan_max_small = omega arith;
  fan_order = omega arith;
  temp_order = omega arith;
  temp_ne = λ e. ground arith;
}

read_round_hot :
    read_round (args 60 120) true (text "55000\n")
    ≡ goes_on (record { writes = pos 210 ∷ []; cooldown = true })
unfolding read_round text wrap quot ◌+ℤ◌ ◌-ℤ◌ ◌*ℤ◌
read_round_hot = refl

fan_round-IsFanValue_example :
    (r : Round) × (fan_round (args 60 120) false (pos 50) ≡ goes_on r)
    × All (IsFanValue (args 60 120)) r.writes
fan_round-IsFanValue_example =
    fan_round-IsFanValue (args 60 120) false (pos 50) default-IsSensible (omega arith)

fan_round_flat_example :
    fan_round (args 60 250) true (pos 90)
    ≡ goes_on (record { writes = pos 250 ∷ []; cooldown = true })
unfolding ◌+ℤ◌ ◌-ℤ◌
fan_round_flat_example =
    fan_round_flat (args 60 250) (pos 90) narrow-IsSensible (omega arith) (omega arith)

fan_round-panics_example :
    (fan_round (args 45 120) false (pos 30) ≡ panics) ↔ (◌≡◌ {A = ℤ} (pos 45) (pos 45))
fan_round-panics_example = fan_round-panics (args 45 120) false (pos 30) (omega arith) (omega arith)

fan_loop-Runs_example :
    (before : List ℤ) × (v : ℤ) × (on : Bool) × (fan_loop (args 60 120) false (pos 46 ∷ pos 42 ∷ [])
      ≡ some (record { writes = before ++ (v ∷ []); cooldown = on }))
    × ((on ≡ true) ↔ Runs (args 60 120) false (pos 46 ∷ pos 42 ∷ []))
    × IsSetTo (args 60 120) on v
fan_loop-Runs_example =
    fan_loop-Runs (args 60 120) default-IsSensible (omega arith) false (pos 46) (pos 42 ∷ [])
      (omega arith, (omega arith, tt))

-- The fan starts, cools and is switched off.
fan_loop_off :
    fan_loop (args 60 120) false (pos 46 ∷ pos 42 ∷ pos 39 ∷ [])
    ≡ some (record { writes = pos 129 ∷ pos 120 ∷ pos 0 ∷ []; cooldown = false })
unfolding fan_loop fan_round set_fan cap linear_pwm wrap quot ◌+ℤ◌ ◌-ℤ◌ ◌*ℤ◌
fan_loop_off = refl
