-- ===== src/Hsm/Paired.antt =====
-- What is known of the device that `WaitForFirmware` of middleware/src/hsm/hsm.go returns.
use bitbox_base.Base.{
  ℕ, zero, suc, ◌+◌, Bool, true, false, Option, none, some, ◌≡◌, refl, inl, inr, arith, Action,
  Bool-cases, subst,
}
use bitbox_base.Hsm.{
  Api, Hsm, Answer, pause, open_serial, get_firmware, get_bootloader, is_firmware, firmware_round,
  init_firmware, pair_firmware, firmware_rounds, wait_for_firmware, firmware_initialized,
  unless_failed, reboot_ended,
}

module _ (api : Api) where
  -- The handshake ended without an error in the status unpaired, and nothing happened since but that
  -- the host confirmed the channel hash.
  abbrev pub IsPaired : api.Firmware → api.World → Type 0
  IsPaired d u =
      (w v : api.World) × (api.init d w ≡ (none, v))
      × (api.same_status (api.status d v) api.status_unpaired ≡ true)
      × (u ≡ api.channel_hash_verify d true v)

  -- Whatever it returns as a device is paired.
  abbrev Pairs : Action api.World (Answer api api.Firmware) → Type 0
  Pairs f = (w : api.World) (d : api.Firmware) (u : api.World) → f w ≡ (inl d, u) → IsPaired d u

  firmware_initialized-IsPaired :
      (d device : api.Firmware) (u w : api.World) (r : Option api.Error × api.World)
      → api.init device w ≡ r
      → firmware_initialized api device r ≡ (inl d, u)
      → IsPaired d u
  unfolding pair_firmware
  firmware_initialized-IsPaired d device u w (some err, v) e run = absurd (ground arith)
  firmware_initialized-IsPaired d device u w (none, v) e run =
      elim (Bool-cases (api.same_status (api.status device v) api.status_unpaired)) [
        | inl unpaired ↦
            let same : device ≡ d = ground arith in
            subst (λ x. IsPaired x u) same (w, v, e, unpaired, ground arith)
        | inr other ↦ absurd (ground arith)
      ]

  unless_failed-IsPaired :
      {A : Type 0} (r : Answer api A × api.World)
      (f : A → Action api.World (Answer api api.Firmware))
      → ((a : A) → Pairs (f a))
      → (d : api.Firmware) (u : api.World) → unless_failed api r f ≡ (inl d, u)
      → IsPaired d u
  unless_failed-IsPaired (inl a, w) f h d u run = h a w d u run
  unless_failed-IsPaired (inr err, w) f h d u run = absurd (ground arith)

  get_firmware-IsPaired : (hsm : Hsm) → Pairs (get_firmware api hsm)
  unfolding get_firmware
  get_firmware-IsPaired hsm w =
      unless_failed-IsPaired (open_serial api hsm none w) (init_firmware api)
        (λ conn v d u. firmware_initialized-IsPaired d _ u v _ refl)

  reboot_ended-IsPaired :
      (hsm : Hsm) (second : ℕ) (rest : Action api.World (Answer api api.Firmware))
      → Pairs rest
      → (b : api.Bootloader) (r : Option api.Error × api.World) → (d : api.Firmware) (u : api.World)
      → reboot_ended api hsm second rest b r ≡ (inl d, u)
      → IsPaired d u
  reboot_ended-IsPaired hsm second rest h b (some err, w) d u run = absurd (ground arith)
  reboot_ended-IsPaired hsm second rest h b (none, w) d u run =
      h (pause api second (api.close_bootloader b w)) d u run

  firmware_round-IsPaired :
      (hsm : Hsm) (second : ℕ) (rest : Action api.World (Answer api api.Firmware))
      → Pairs rest
      → (r : Answer api Bool × api.World) → (d : api.Firmware) (u : api.World)
      → firmware_round api hsm second rest r ≡ (inl d, u)
      → IsPaired d u
  firmware_round-IsPaired hsm second rest h (inr err, w) d u run = ground (arith, h w d u)
  firmware_round-IsPaired hsm second rest h (inl true, w) d u run =
      get_firmware-IsPaired hsm w d u run
  firmware_round-IsPaired hsm second rest h (inl false, w) d u run =
      unless_failed-IsPaired (get_bootloader api hsm none w) _
        (λ b v. reboot_ended-IsPaired hsm second rest h b (api.reboot b v)) d u run

  firmware_rounds-IsPaired : (hsm : Hsm) (n second : ℕ) → Pairs (firmware_rounds api hsm n second)
  unfolding firmware_rounds
  firmware_rounds-IsPaired hsm zero second w d u run = absurd (ground arith)
  firmware_rounds-IsPaired hsm (suc n) second w d u run =
      firmware_round-IsPaired hsm second (firmware_rounds api hsm n (second + 1))
        (firmware_rounds-IsPaired hsm n (second + 1)) (is_firmware api hsm w) d u run

  -- A device that `WaitForFirmware` returns is paired: its handshake ended without an error in the
  -- status unpaired, and nothing happened since but that the host confirmed the channel hash.
  pub wait_for_firmware-IsPaired :
      (hsm : Hsm) (w u : api.World) (d : api.Firmware)
      → wait_for_firmware api hsm w ≡ (inl d, u)
      → IsPaired d u
  wait_for_firmware-IsPaired hsm w u d run = firmware_rounds-IsPaired hsm 30 0 w d u run
