-- ===== src/FanControl.antt =====
-- The fan control: tools/bbbfancontrol/bbbfancontrol.go. Go's `int` has 64 bits; `wrap` is its
-- wrap-around. A round of the loop takes the contents of the temperature file and returns the values
-- that it writes to the fan file; pauses and output are left out.
pub mod Overflow
pub mod Bounds
pub mod Hysteresis
use bitbox_base.Base.{
  ℕ, suc, ◌+◌, ◌-◌, ◌%◌, ◌/◌, ◌^◌, Bool, true, false, not, ◌||◌, Option, none, some, List, [], ◌∷◌,
  ◌++◌, ltb, if◌then◌else◌,
}
use bitbox_base.Base.Text.{Text}
use bitbox_base.Base.Int.{
  ℤ, pos, negsuc, pos_part, neg_part, sub_ℕ, ◌+ℤ◌, ◌-ℤ◌, ◌*ℤ◌, ltb_ℤ, leb_ℤ, eqb_ℤ,
}
use bitbox_base.Base.Decimal.{atoi}
use bitbox_base.Base.Spaces.{trim_space}

-- The number modulo 2^64, from 0.
abbrev pub residue : ℤ → ℕ
residue z = (pos_part z % 2 ^ 64 + 2 ^ 64 - neg_part z % 2 ^ 64) % 2 ^ 64

unfoldable pub wrap : ℤ → ℤ
wrap z = let r = residue z in if ltb r (2 ^ 63) then pos r else negsuc (2 ^ 64 - 1 - r)

-- Go's `/` on integers, for a divisor that is not 0: it rounds towards 0.
unfoldable pub quot : ℤ → ℤ → ℤ
quot a (pos b) = sub_ℕ (pos_part a / b) (neg_part a / b)
quot a (negsuc b) = sub_ℕ (neg_part a / suc b) (pos_part a / suc b)

pub record FanArgs : Type 0 where
  pub temp_min : ℤ
  pub temp_max : ℤ
  pub temp_cooldown : ℤ
  pub fan_min : ℤ
  pub fan_max : ℤ
  pub fan_kickstart : ℤ

-- The check of the arguments that `main` begins with.
unfoldable pub is_consistent : FanArgs → Bool
is_consistent a = not (ltb_ℤ a.temp_min a.temp_cooldown || ltb_ℤ a.temp_max a.temp_min)

-- The value on the line between the minimum and the maximum, before it is capped; `none` is the
-- panic of a division by zero.
unfoldable pub linear_pwm : FanArgs → ℤ → Option ℤ
linear_pwm a temp =
    let range = wrap (a.temp_max -ℤ a.temp_min) in
    let slope = wrap (quot (wrap (a.fan_max -ℤ a.fan_min)) range) in
    if eqb_ℤ range (pos 0)
    then none
    else some (wrap (a.fan_min +ℤ wrap (slope *ℤ wrap (temp -ℤ a.temp_min))))

-- The values that a round writes, and whether the fan is cooling down after it.
pub record Round : Type 0 where
  pub writes : List ℤ
  pub cooldown : Bool

unfoldable pub cap : FanArgs → ℤ → ℤ
cap a pwm = if ltb_ℤ a.fan_max pwm then a.fan_max else pwm

abbrev pub raise : FanArgs → ℤ → ℤ
raise a pwm = if ltb_ℤ pwm a.fan_min then a.fan_min else pwm

-- The round after the capped value is known.
unfoldable pub set_fan : FanArgs → Bool → ℤ → ℤ → Round
set_fan a true temp pwm =
    if ltb_ℤ temp a.temp_cooldown
    then record { writes = pos 0 ∷ []; cooldown = false }
    else record { writes = raise a pwm ∷ []; cooldown = true }
set_fan a false temp pwm =
    if leb_ℤ a.temp_min temp
    then record {
      writes = (if ltb_ℤ (pos 0) a.fan_kickstart then a.fan_max ∷ [] else []) ++ (pwm ∷ []);
      cooldown = true;
    }
    else record { writes = pos 0 ∷ []; cooldown = false }

-- How a round ends: the loop goes on, the program ends with a message, or it panics.
pub data RoundResult : Type 0 where
  goes_on : Round → RoundResult
  ends : RoundResult
  panics : RoundResult

abbrev with_linear : FanArgs → Bool → ℤ → Option ℤ → RoundResult
with_linear a cooldown temp none = panics
with_linear a cooldown temp (some pwm) = goes_on (set_fan a cooldown temp (cap a pwm))

-- A round at a temperature in degrees.
unfoldable pub fan_round : FanArgs → Bool → ℤ → RoundResult
unfolding linear_pwm set_fan cap
fan_round a cooldown temp = with_linear a cooldown temp (linear_pwm a temp)

abbrev with_reading : FanArgs → Bool → Option ℤ → RoundResult
with_reading a cooldown none = ends
with_reading a cooldown (some millidegrees) = fan_round a cooldown (quot millidegrees (pos 1000))

-- A round from the contents of the temperature file on.
unfoldable pub read_round : FanArgs → Bool → Text → RoundResult
unfolding fan_round quot trim_space atoi
read_round a cooldown contents = with_reading a cooldown (atoi (trim_space contents))

-- What was written before the rounds of a loop is put in front of what they write.
abbrev after_writes : List ℤ → Option Round → Option Round
after_writes before none = none
after_writes before (some r) = some (record r { writes = before ++ r.writes })

abbrev followed_by : RoundResult → (Bool → Option Round) → Option Round
followed_by (goes_on r) later = after_writes r.writes (later r.cooldown)
followed_by ends later = none
followed_by panics later = none

-- The loop over the temperatures that are read: all the values that it writes to the fan, in order,
-- and whether the fan is cooling down at the end; `none` if the program does not get there.
unfoldable pub fan_loop : FanArgs → Bool → List ℤ → Option Round
unfolding fan_round
fan_loop a cooldown [] = some (record { writes = []; cooldown = cooldown })
fan_loop a cooldown (temp ∷ temps) =
    followed_by (fan_round a cooldown temp) (λ c. fan_loop a c temps)
