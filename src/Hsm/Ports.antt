-- ===== src/Hsm/Ports.antt =====
-- The serial ports that middleware/src/hsm/hsm.go opens and does not close.
use bitbox_base.Base.{
  ℕ, zero, suc, ◌+◌, ◌≤◌, Bool, true, false, Option, none, some, ◌≡◌, refl, ◌⊎◌, inl, inr, arith,
  Action, ltb, Bool-cases,
}
use bitbox_base.Base.Text.{Text}
use bitbox_base.Hsm.{
  Api, Hsm, Answer, pause, open_serial, get_firmware, get_bootloader, is_firmware, bootloader_round,
  init_firmware, pair_firmware, bootloader_rounds, interact_with_bootloader, firmware_initialized,
  unless_failed, upgrade_ended, versions_tell, stacked, run_and_close, timeout_or_default,
}

abbrev if_opened : {A B : Type 0} → A ⊎ B → ℕ
if_opened (inl conn) = 1
if_opened (inr err) = 0

-- How often a port was opened and closed. A device closes its port.
pub record PortCount (api : Api) : Type 0 where
  pub ports_opened : api.World → ℕ
  pub ports_closed : api.World → ℕ
  pub opens :
      (name : Text) (baud timeout : ℕ) (w : api.World)
      → (ports_opened (api.open_port name baud timeout w).1
          ≡ ports_opened w + if_opened (api.open_port name baud timeout w).0)
        × (ports_closed (api.open_port name baud timeout w).1 ≡ ports_closed w)
  pub closes_firmware :
      (d : api.Firmware) (w : api.World)
      → (ports_opened (api.close_firmware d w) ≡ ports_opened w)
        × (ports_closed (api.close_firmware d w) ≡ ports_closed w + 1)
  pub closes_bootloader :
      (b : api.Bootloader) (w : api.World)
      → (ports_opened (api.close_bootloader b w) ≡ ports_opened w)
        × (ports_closed (api.close_bootloader b w) ≡ ports_closed w + 1)
  pub queries :
      (b : api.Bootloader) (w : api.World)
      → (ports_opened (api.versions b w).1 ≡ ports_opened w)
        × (ports_closed (api.versions b w).1 ≡ ports_closed w)
  pub inits :
      (d : api.Firmware) (w : api.World)
      → (ports_opened (api.init d w).1 ≡ ports_opened w)
        × (ports_closed (api.init d w).1 ≡ ports_closed w)
  pub verifies :
      (d : api.Firmware) (ok : Bool) (w : api.World)
      → (ports_opened (api.channel_hash_verify d ok w) ≡ ports_opened w)
        × (ports_closed (api.channel_hash_verify d ok w) ≡ ports_closed w)
  pub upgrades :
      (d : api.Firmware) (w : api.World)
      → (ports_opened (api.upgrade_firmware d w).1 ≡ ports_opened w)
        × (ports_closed (api.upgrade_firmware d w).1 ≡ ports_closed w)
  pub sleeps :
      (w : api.World)
      → (ports_opened (api.sleep 1 w) ≡ ports_opened w)
        × (ports_closed (api.sleep 1 w) ≡ ports_closed w)

module _ (api : Api) (hsm : Hsm) (count : PortCount api) where
  -- At least `k` more ports are open at `v` than at `w`.
  abbrev pub Leaks : ℕ → api.World → api.World → Type 0
  Leaks k w v =
      count.ports_opened w + count.ports_closed v + k ≤ count.ports_opened v + count.ports_closed w

  -- With a value, at least `k` more are open; with an error, at least as many as before.
  abbrev Keeps : {A : Type 0} → ℕ → api.World → Answer api A × api.World → Type 0
  Keeps k w (inl a, v) = Leaks k w v
  Keeps k w (inr err, v) = Leaks 0 w v

  Keeps-Leaks :
      {A : Type 0} (k : ℕ) (w v : api.World) (r : Answer api A × api.World)
      → Leaks 0 w v
      → Keeps k v r
      → Keeps k w r
  Keeps-Leaks k w v (inl a, u) before kept = omega arith
  Keeps-Leaks k w v (inr err, u) before kept = omega arith

  Leaks-Keeps :
      {A : Type 0} (w v : api.World) (r : Answer api A × api.World)
      → Leaks 1 w v
      → Keeps 1 v r
      → Keeps 2 w r
  Leaks-Keeps w v (inl a, u) before kept = omega arith
  Leaks-Keeps w v (inr err, u) before kept = omega arith

  stacked-Keeps :
      (w : api.World) (r : Answer api api.Port × api.World)
      → count.ports_opened (r.1) ≡ count.ports_opened w + if_opened (r.0)
      → count.ports_closed (r.1) ≡ count.ports_closed w
      → Keeps 1 w (stacked api r)
  stacked-Keeps w (inl conn, v) o c = omega arith
  stacked-Keeps w (inr err, v) o c = omega arith

  open_serial-Keeps :
      (timeout : Option ℕ) (w : api.World) → Keeps 1 w (open_serial api hsm timeout w)
  unfolding open_serial
  open_serial-Keeps timeout w =
      let (o, c) = count.opens hsm.serial_port 115200 (timeout_or_default api timeout) w in
      stacked-Keeps w (api.open_port hsm.serial_port 115200 (timeout_or_default api timeout) w) o c

  unless_failed-Keeps :
      {A B : Type 0} (k : ℕ) (w v : api.World) (r : Answer api A × api.World)
      (f : A → Action api.World (Answer api B))
      → Leaks 0 w v
      → Keeps 1 v r
      → ((a : A) (u : api.World) → Leaks 1 v u → Keeps k w (f a u))
      → Keeps k w (unless_failed api r f)
  unless_failed-Keeps k w v (inl a, u) f before opened h = h a u opened
  unless_failed-Keeps k w v (inr err, u) f before opened h = omega arith

  get_bootloader-Keeps :
      (timeout : Option ℕ) (w : api.World) → Keeps 1 w (get_bootloader api hsm timeout w)
  unfolding get_bootloader
  get_bootloader-Keeps timeout w =
      unless_failed-Keeps 1 w w (open_serial api hsm timeout w) _ (omega arith)
        (open_serial-Keeps timeout w) (λ conn u h. h)

  versions_tell-Keeps :
      (w : api.World) (r : Option api.Error × api.World)
      → Leaks 1 w (r.1)
      → Keeps 1 w (versions_tell api r)
  versions_tell-Keeps w (none, v) h = h
  versions_tell-Keeps w (some err, v) h = elim (Bool-cases (api.is_endpoint_unavailable err)) [
    | inl e ↦ rw e h
    | inr e ↦ rw e (omega arith)
  ]

  is_firmware-Keeps : (w : api.World) → Keeps 1 w (is_firmware api hsm w)
  unfolding is_firmware
  is_firmware-Keeps w =
      unless_failed-Keeps 1 w w (get_bootloader api hsm (some 200) w) _ (omega arith)
        (get_bootloader-Keeps (some 200) w)
        (λ b u h.
          let (o, c) = count.queries b u in versions_tell-Keeps w (api.versions b u) (omega arith))

  firmware_initialized-Keeps :
      (w : api.World) (d : api.Firmware) (r : Option api.Error × api.World)
      → Leaks 1 w (r.1)
      → Keeps 1 w (firmware_initialized api d r)
  unfolding pair_firmware
  firmware_initialized-Keeps w d (some err, v) h = omega arith
  firmware_initialized-Keeps w d (none, v) h =
      let verified = count.verifies d true v in ground (arith, verified, h)

  get_firmware-Keeps : (w : api.World) → Keeps 1 w (get_firmware api hsm w)
  unfolding get_firmware
  get_firmware-Keeps w =
      unless_failed-Keeps 1 w w (open_serial api hsm none w) (init_firmware api) (omega arith)
        (open_serial-Keeps none w)
        (λ conn u h.
          let d : api.Firmware = api.new_firmware (api.new_communication conn 193) in
          let (o, c) = count.inits d u in
          firmware_initialized-Keeps w d (api.init d u) (omega arith))

  pause-Keeps :
      (second : ℕ) (w : api.World)
      → (count.ports_opened (pause api second w) ≡ count.ports_opened w)
        × (count.ports_closed (pause api second w) ≡ count.ports_closed w)
  pause-Keeps second w = elim (Bool-cases (ltb 0 second)) [
    | inl e ↦ rw e (count.sleeps w)
    | inr e ↦ rw e (refl, refl)
  ]

  -- The rounds that follow keep at least two ports open if they return a device.
  upgrade_ended-Keeps :
      (second : ℕ) (rest : Action api.World (Answer api api.Bootloader))
      → ((v : api.World) → Keeps 2 v (rest v))
      → (w : api.World) (d : api.Firmware) (r : Option api.Error × api.World) → Leaks 1 w (r.1)
      → Keeps 2 w (upgrade_ended api hsm second rest d r)
  upgrade_ended-Keeps second rest h w d (some err, v) more =
      let (o, c) = count.closes_firmware d v in omega arith
  upgrade_ended-Keeps second rest h w d (none, v) more =
      let (o, c) = count.closes_firmware d v in
      let (o', c') = pause-Keeps second (api.close_firmware d v) in
      Keeps-Leaks 2 w (pause api second (api.close_firmware d v))
        (rest (pause api second (api.close_firmware d v))) (omega arith)
        (h (pause api second (api.close_firmware d v)))

  bootloader_round-Keeps :
      (second : ℕ) (rest : Action api.World (Answer api api.Bootloader))
      → ((v : api.World) → Keeps 2 v (rest v))
      → (w : api.World) (r : Answer api Bool × api.World) → Keeps 1 w r
      → Keeps 2 w (bootloader_round api hsm second rest r)
  bootloader_round-Keeps second rest h w (inr err, v) found = elim (Bool-cases (api.is_eof err)) [
    | inl e ↦ rw e (Keeps-Leaks 2 w v (rest v) found (h v))
    | inr e ↦ rw e found
  ]
  bootloader_round-Keeps second rest h w (inl false, v) found =
      Leaks-Keeps w v (get_bootloader api hsm none v) found (get_bootloader-Keeps none v)
  bootloader_round-Keeps second rest h w (inl true, v) found =
      unless_failed-Keeps 2 w v (get_firmware api hsm v) _ (omega arith) (get_firmware-Keeps v)
        (λ d u more.
          let (o, c) = count.upgrades d u in
          upgrade_ended-Keeps second rest h w d (api.upgrade_firmware d u) (omega arith))

  bootloader_rounds-Keeps :
      (n second : ℕ) (w : api.World) → Keeps 2 w (bootloader_rounds api hsm n second w)
  unfolding bootloader_rounds
  bootloader_rounds-Keeps zero second w = omega arith
  bootloader_rounds-Keeps (suc n) second w =
      bootloader_round-Keeps second (bootloader_rounds api hsm n (second + 1))
        (bootloader_rounds-Keeps n (second + 1)) w (is_firmware api hsm w) (is_firmware-Keeps w)

  run_and_close-Leaks :
      (f : api.Bootloader → api.World → api.World)
      → ((b : api.Bootloader) (v : api.World)
          → (count.ports_opened (f b v) ≡ count.ports_opened v)
            × (count.ports_closed (f b v) ≡ count.ports_closed v))
      → (w : api.World) (r : Answer api api.Bootloader × api.World) → Keeps 2 w r
      → (run_and_close api f r).0 ≡ none
      → Leaks 1 w (run_and_close api f r).1
  run_and_close-Leaks f same w (inl b, v) kept run =
      let (o, c) = same b v in let (o', c') = count.closes_bootloader b (f b v) in omega arith
  run_and_close-Leaks f same w (inr err, v) kept run = absurd (ground arith)

  -- Every time that `InteractWithBootloader` reports no error, it leaves at least one more port open
  -- than before, if the function that it runs opens and closes none: the port that the query of
  -- `isFirmware` opened.
  pub interact_with_bootloader-Leaks :
      (f : api.Bootloader → api.World → api.World)
      → ((b : api.Bootloader) (v : api.World)
          → (count.ports_opened (f b v) ≡ count.ports_opened v)
            × (count.ports_closed (f b v) ≡ count.ports_closed v))
      → (w : api.World) → (interact_with_bootloader api hsm f w).0 ≡ none
      → Leaks 1 w (interact_with_bootloader api hsm f w).1
  unfolding interact_with_bootloader
  interact_with_bootloader-Leaks f same w run =
      run_and_close-Leaks f same w (bootloader_rounds api hsm 30 0 w)
        (bootloader_rounds-Keeps 30 0 w) run
