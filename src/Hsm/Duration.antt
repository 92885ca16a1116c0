-- ===== src/Hsm/Duration.antt =====
-- How long `WaitForFirmware` of middleware/src/hsm/hsm.go takes at most.
use mathlib.Core.Path.{◌≡◌, refl}
use bitbox_base.Base.{
  ℕ, zero, suc, ◌+◌, ◌*◌, ◌≤◌, Bool, true, false, Option, none, some, inl, inr, arith, Action, ltb,
  Bool-cases,
}
use bitbox_base.Base.Text.{Text}
use bitbox_base.Hsm.{
  Api, Hsm, Answer, pause, open_serial, get_firmware, get_bootloader, is_firmware, firmware_round,
  init_firmware, pair_firmware, firmware_rounds, wait_for_firmware, firmware_initialized,
  unless_failed, reboot_ended, versions_tell, stacked, timeout_or_default,
}

-- A clock, and how long each call takes at most.
pub record Clock (api : Api) : Type 0 where
  pub now : api.World → ℕ
  pub open_time : ℕ
  pub query_time : ℕ
  pub reboot_time : ℕ
  pub close_time : ℕ
  pub init_time : ℕ
  pub verify_time : ℕ
  pub sleep_time : ℕ
  pub opens :
      (name : Text) (baud timeout : ℕ) (w : api.World)
      → now (api.open_port name baud timeout w).1 ≤ now w + open_time
  pub queries : (b : api.Bootloader) (w : api.World) → now (api.versions b w).1 ≤ now w + query_time
  pub reboots : (b : api.Bootloader) (w : api.World) → now (api.reboot b w).1 ≤ now w + reboot_time
  pub closes :
      (b : api.Bootloader) (w : api.World) → now (api.close_bootloader b w) ≤ now w + close_time
  pub inits : (d : api.Firmware) (w : api.World) → now (api.init d w).1 ≤ now w + init_time
  pub verifies :
      (d : api.Firmware) (ok : Bool) (w : api.World)
      → now (api.channel_hash_verify d ok w) ≤ now w + verify_time
  pub sleeps : (w : api.World) → now (api.sleep 1 w) ≤ now w + sleep_time

suc-times : (n k h : ℕ) → suc n * k + h ≡ k + (n * k + h)
suc-times n k h = omega arith

module _ (api : Api) (hsm : Hsm) (clock : Clock api) where
  -- The most that a round that is not the last takes, and the last one.
  abbrev pub round_time : ℕ
  round_time =
      clock.open_time + clock.query_time + clock.open_time + clock.reboot_time + clock.close_time
      + clock.sleep_time

  abbrev pub handshake_time : ℕ
  handshake_time = clock.open_time + clock.init_time + clock.verify_time

  abbrev Within : {A : Type 0} → api.World → ℕ → Answer api A × api.World → Type 0
  Within w t r = clock.now (r.1) ≤ clock.now w + t

  stacked-world : (r : Answer api api.Port × api.World) → (stacked api r).1 ≡ r.1
  stacked-world (inl conn, w) = refl
  stacked-world (inr err, w) = refl

  open_serial-Within :
      (timeout : Option ℕ) (w : api.World)
      → Within w clock.open_time (open_serial api hsm timeout w)
  unfolding open_serial
  open_serial-Within timeout w =
      let t : ℕ = timeout_or_default api timeout in
      rw (stacked-world (api.open_port hsm.serial_port 115200 t w))
        (clock.opens hsm.serial_port 115200 t w)

  unless_failed-Within :
      {A B : Type 0} (w : api.World) (s t : ℕ) (r : Answer api A × api.World)
      (f : A → Action api.World (Answer api B))
      → Within w s r
      → ((a : A) (v : api.World) → Within v t (f a v))
      → Within w (s + t) (unless_failed api r f)
  unless_failed-Within w s t (inl a, v) f first second = let h = second a v in omega arith
  unless_failed-Within w s t (inr err, v) f first second = omega arith

  get_bootloader-Within :
      (timeout : Option ℕ) (w : api.World)
      → Within w clock.open_time (get_bootloader api hsm timeout w)
  unfolding get_bootloader
  get_bootloader-Within timeout w =
      let h =
        unless_failed-Within w clock.open_time 0 (open_serial api hsm timeout w)
          (λ conn v. (inl (api.new_bootloader 1 0 1 (api.new_communication conn 195)), v))
          (open_serial-Within timeout w) (λ conn v. omega arith) in
      omega arith

  pause-Within :
      (second : ℕ) (w : api.World) → clock.now (pause api second w) ≤ clock.now w + clock.sleep_time
  pause-Within second w = elim (Bool-cases (ltb 0 second)) [
    | inl e ↦ rw e (clock.sleeps w)
    | inr e ↦ rw e (omega arith)
  ]

  versions_tell-Within :
      (w : api.World) (t : ℕ) (r : Option api.Error × api.World)
      → clock.now (r.1) ≤ clock.now w + t
      → Within w t (versions_tell api r)
  versions_tell-Within w t (none, v) h = h
  versions_tell-Within w t (some err, v) h = elim (Bool-cases (api.is_endpoint_unavailable err)) [
    | inl e ↦ rw e h
    | inr e ↦ rw e h
  ]

  is_firmware-Within :
      (w : api.World) → Within w (clock.open_time + clock.query_time) (is_firmware api hsm w)
  unfolding is_firmware
  is_firmware-Within w =
      unless_failed-Within w clock.open_time clock.query_time _ _
        (get_bootloader-Within (some 200) w)
        (λ b v. versions_tell-Within v clock.query_time (api.versions b v) (clock.queries b v))

  firmware_initialized-Within :
      (d : api.Firmware) (w : api.World) (r : Option api.Error × api.World)
      → clock.now (r.1) ≤ clock.now w + clock.init_time
      → Within w (clock.init_time + clock.verify_time) (firmware_initialized api d r)
  unfolding pair_firmware
  firmware_initialized-Within d w (some err, v) h = omega arith
  firmware_initialized-Within d w (none, v) h =
      let verified = clock.verifies d true v in ground (arith, verified, h)

  get_firmware-Within : (w : api.World) → Within w handshake_time (get_firmware api hsm w)
  unfolding get_firmware
  get_firmware-Within w =
      let h =
        unless_failed-Within w clock.open_time (clock.init_time + clock.verify_time)
          (open_serial api hsm none w) (init_firmware api) (open_serial-Within none w)
          (λ conn v. firmware_initialized-Within _ v (api.init _ v) (clock.inits _ v)) in
      omega arith

  -- What is left of a round after the query, and the following rounds in time `t`.
  reboot_ended-Within :
      (second : ℕ) (rest : Action api.World (Answer api api.Firmware)) (t : ℕ)
      → ((v : api.World) → Within v t (rest v))
      → (b : api.Bootloader) (w : api.World)
      → Within w
          (clock.reboot_time + clock.close_time + clock.sleep_time + t)
          (reboot_ended api hsm second rest b (api.reboot b w))
  reboot_ended-Within second rest t h b w = ended (api.reboot b w) (clock.reboots b w)
    where
      ended :
          (r : Option api.Error × api.World)
          → clock.now (r.1) ≤ clock.now w + clock.reboot_time
          → Within w
              (clock.reboot_time + clock.close_time + clock.sleep_time + t)
              (reboot_ended api hsm second rest b r)
      ended (some err, v) le = let closed = clock.closes b v in omega arith
      ended (none, v) le =
          let closed = clock.closes b v in
          let paused = pause-Within second (api.close_bootloader b v) in
          let later = h (pause api second (api.close_bootloader b v)) in omega arith

  firmware_round-Within :
      (second : ℕ) (rest : Action api.World (Answer api api.Firmware)) (t : ℕ)
      → ((v : api.World) → Within v t (rest v))
      → handshake_time ≤ t
      → (w : api.World) (r : Answer api Bool × api.World)
      → Within w (clock.open_time + clock.query_time) r
      → Within w (round_time + t) (firmware_round api hsm second rest r)
  firmware_round-Within second rest t h le w (inl true, v) found =
      let got = get_firmware-Within v in omega arith
  firmware_round-Within second rest t h le w (inl false, v) found =
      let rebooted =
        unless_failed-Within v clock.open_time
          (clock.reboot_time + clock.close_time + clock.sleep_time + t)
          (get_bootloader api hsm none v)
          (λ b u. reboot_ended api hsm second rest b (api.reboot b u))
          (get_bootloader-Within none v) (λ b u. reboot_ended-Within second rest t h b u) in
      omega arith
  firmware_round-Within second rest t h le w (inr err, v) found =
      let later = h v in
      elim (Bool-cases (api.is_eof err)) [ inl e ↦ rw e (omega arith) | inr e ↦ rw e (omega arith) ]

  unfoldable rounds_time : ℕ → ℕ
  rounds_time n = n * round_time + handshake_time

  rounds_time-suc : (n : ℕ) → rounds_time (suc n) ≡ round_time + rounds_time n
  unfolding rounds_time
  rounds_time-suc n = suc-times n round_time handshake_time

  handshake_time-rounds_time : (n : ℕ) → handshake_time ≤ rounds_time n
  unfolding rounds_time
  handshake_time-rounds_time n = omega arith

  firmware_rounds-Within :
      (n second : ℕ) (w : api.World) → Within w (rounds_time n) (firmware_rounds api hsm n second w)
  unfolding firmware_rounds
  firmware_rounds-Within zero second w = omega arith
  firmware_rounds-Within (suc n) second w = rw (rounds_time-suc n) (
      firmware_round-Within second (firmware_rounds api hsm n (second + 1)) (rounds_time n)
        (λ v. firmware_rounds-Within n (second + 1) v) (handshake_time-rounds_time n) w
        (is_firmware api hsm w) (is_firmware-Within w))

  -- If each call of the port and of the device takes a bounded time, `WaitForFirmware` ends, with the
  -- device or an error, within 30 times that of a round and that of the handshake.
  pub wait_for_firmware-round_time :
      (w : api.World)
      → clock.now (wait_for_firmware api hsm w).1 ≤ clock.now w + (30 * round_time + handshake_time)
  unfolding rounds_time
  wait_for_firmware-round_time w = firmware_rounds-Within 30 0 w
