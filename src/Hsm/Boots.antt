-- ===== src/Hsm/Boots.antt =====
-- An HSM that boots, as middleware/src/hsm/hsm.go waits for it.
use bitbox_base.Base.{
  ℕ, zero, suc, ◌+◌, ◌≤◌, ◌<◌, true, false, Option, none, some, ◌≡◌, refl, ◌⊎◌, inl, inr, arith,
  ltb, Bool-cases,
}
use bitbox_base.Base.Text.{Text}
use bitbox_base.Hsm.{
  Api, Hsm, pause, open_serial, get_firmware, get_bootloader, is_firmware, pair_firmware,
  firmware_rounds, wait_for_firmware, boot_timeout_seconds,
}

-- An HSM that boots into its firmware: as long as it needs more queries, a query finds it silent, or
-- in the bootloader, which reboots; from then on the firmware is there.
pub record BootsFirmware (api : Api) : Type 0 where
  pub needed : api.World → ℕ
  pub opens :
      (name : Text) (baud timeout : ℕ) (w : api.World)
      → (conn : api.Port) × ((api.open_port name baud timeout w).0 ≡ inl conn)
        × (needed (api.open_port name baud timeout w).1 ≤ needed w)
  pub booting :
      (b : api.Bootloader) (w : api.World)
      → 0 < needed w
      → (((api.versions b w).0 ≡ none)
          ⊎ ((err : api.Error) × ((api.versions b w).0 ≡ some err)
              × (api.is_eof err ≡ true)
              × (api.is_endpoint_unavailable err ≡ false)))
        × (needed (api.versions b w).1 < needed w)
  pub booted :
      (b : api.Bootloader) (w : api.World)
      → needed w ≡ 0
      → (err : api.Error) × ((api.versions b w).0 ≡ some err)
        × (api.is_endpoint_unavailable err ≡ true)
        × (needed (api.versions b w).1 ≡ 0)
  pub reboots :
      (b : api.Bootloader) (w : api.World)
      → ((api.reboot b w).0 ≡ none) × (needed (api.reboot b w).1 ≤ needed w)
  pub closes : (b : api.Bootloader) (w : api.World) → needed (api.close_bootloader b w) ≤ needed w
  pub sleeps : (seconds : ℕ) (w : api.World) → needed (api.sleep seconds w) ≤ needed w
  pub initializes :
      (d : api.Firmware) (w : api.World)
      → needed w ≡ 0
      → ((api.init d w).0 ≡ none)
        × (api.same_status (api.status d (api.init d w).1) api.status_unpaired ≡ true)

Nat_cases : (n : ℕ) → (n ≡ 0) ⊎ (0 < n)
Nat_cases zero = inl refl
Nat_cases (suc n) = inr (omega arith)

module _ (api : Api) (hsm : Hsm) (law : BootsFirmware api) where
  pause_needed : (second : ℕ) (w : api.World) → law.needed (pause api second w) ≤ law.needed w
  pause_needed second w = elim (Bool-cases (ltb 0 second)) [
    | inl e ↦ rw e (law.sleeps 1 w)
    | inr e ↦ rw e (omega arith)
  ]

  -- Opening the port gives a connection.
  open_serial-opens :
      (timeout : Option ℕ) (w : api.World)
      → (conn : api.Port) × (v : api.World) × (open_serial api hsm timeout w ≡ (inl conn, v))
        × (law.needed v ≤ law.needed w)
  unfolding open_serial
  open_serial-opens none w =
      let (conn, e, le) = law.opens hsm.serial_port 115200 0 w in
      (conn, (api.open_port hsm.serial_port 115200 0 w).1, rw e refl, le)
  open_serial-opens (some t) w =
      let (conn, e, le) = law.opens hsm.serial_port 115200 t w in
      (conn, (api.open_port hsm.serial_port 115200 t w).1, rw e refl, le)

  get_bootloader-opens :
      (timeout : Option ℕ) (w : api.World)
      → (b : api.Bootloader) × (v : api.World) × (get_bootloader api hsm timeout w ≡ (inl b, v))
        × (law.needed v ≤ law.needed w)
  unfolding get_bootloader
  get_bootloader-opens timeout w =
      let (conn, v, e, le) = open_serial-opens timeout w in
      let b : api.Bootloader = api.new_bootloader 1 0 1 (api.new_communication conn 195) in
      (b, v, rw e refl, le)

  get_firmware-booted :
      (w : api.World) → law.needed w ≡ 0 → (d : api.Firmware) × ((get_firmware api hsm w).0 ≡ inl d)
  unfolding get_firmware pair_firmware
  get_firmware-booted w zero_w =
      let (conn, v, e, le) = open_serial-opens none w in
      let d : api.Firmware = api.new_firmware (api.new_communication conn 193) in
      let (done, unpaired) = law.initializes d v (omega arith) in (d, rw (e, done, unpaired) refl)

  -- A query finds the firmware there, or brings it nearer.
  is_firmware-nearer :
      (w : api.World)
      → (v : api.World) × (((is_firmware api hsm w ≡ (inl true, v)) × (law.needed v ≡ 0))
          ⊎ ((law.needed v < law.needed w)
              × ((is_firmware api hsm w ≡ (inl false, v))
                  ⊎ ((err : api.Error) × (is_firmware api hsm w ≡ (inr err, v))
                      × (api.is_eof err ≡ true)))))
  unfolding is_firmware
  is_firmware-nearer w =
      let (b, v, e, le) = get_bootloader-opens (some 200) w in
      elim (Nat_cases (law.needed v)) [
        | inl zero_v ↦
            let (err, told, unavailable, there) = law.booted b v zero_v in
            ((api.versions b v).1, inl (rw (e, told, unavailable) refl, there))
        | inr positive ↦
            let (told, less) = law.booting b v positive in
            elim told [
              | inl fine ↦ ((api.versions b v).1, inr (omega arith, inl (rw (e, fine) refl)))
              | inr (err, failed, eof, other) ↦ (
                (api.versions b v).1,
                inr (omega arith, inr (err, rw (e, failed, other) refl, eof)),
              )
            ]
      ]

  firmware_rounds-boots :
      (n second : ℕ) (w : api.World)
      → law.needed w < n
      → (d : api.Firmware) × ((firmware_rounds api hsm n second w).0 ≡ inl d)
  unfolding firmware_rounds
  firmware_rounds-boots zero second w less = absurd (omega arith)
  firmware_rounds-boots (suc n) second w less =
      let (v, found) = is_firmware-nearer w in
      elim found [
        | inl (e, there) ↦ let (d, got) = get_firmware-booted v there in (d, rw e got)
        | inr (nearer, inr (err, e, eof)) ↦
            let (d, got) = firmware_rounds-boots n (second + 1) v (omega arith) in
            (d, rw (e, eof) got)
        | inr (nearer, inl e) ↦
            let (b, u, opened, le) = get_bootloader-opens none v in
            let (done, later) = law.reboots b u in
            let closed = law.closes b (api.reboot b u).1 in
            let paused = pause_needed second (api.close_bootloader b (api.reboot b u).1) in
            let (d, got) =
              firmware_rounds-boots n (second + 1)
                (pause api second (api.close_bootloader b (api.reboot b u).1)) (omega arith) in
            (d, rw (e, opened, done) got)
      ]

  -- If the HSM needs less than 30 queries to boot into its firmware, `WaitForFirmware` returns the
  -- device, and no error.
  pub wait_for_firmware-boots :
      (w : api.World)
      → law.needed w < boot_timeout_seconds
      → (d : api.Firmware) × ((wait_for_firmware api hsm w).0 ≡ inl d)
  wait_for_firmware-boots w less = firmware_rounds-boots 30 0 w less
