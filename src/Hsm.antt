-- ===== src/Hsm.antt =====
-- The HSM of the BitBoxBase: middleware/src/hsm/hsm.go. The serial port and the package bitbox02-api-go
-- are a parameter.
pub mod Boots
pub mod Paired
pub mod Ports
pub mod Duration
use bitbox_base.Base.{
  ℕ, zero, suc, ◌+◌, Bool, true, false, Option, none, some, Action, ◌⊎◌, inl, inr, ltb,
  if◌then◌else◌,
}
use bitbox_base.Base.Text.{Text, text}

-- The packages serial, usart, firmware, bootloader and errp, and the clock, over the state of the
-- device. An open port is wrapped in the framing with a command byte, and then in a device.
pub record Api : Type 1 where
  pub World : Type 0
  pub Error : Type 0
  pub Port : Type 0
  pub Framed : Type 0
  pub Firmware : Type 0
  pub Bootloader : Type 0
  pub Status : Type 0
  -- `errp.WithStack`, `errp.New` and `errp.Cause(err)` compared with `io.EOF` and with
  -- `usart.ErrEndpointUnavailable`.
  pub with_stack : Error → Error
  pub new_error : Text → Error
  pub is_eof : Error → Bool
  pub is_endpoint_unavailable : Error → Bool
  -- `serial.OpenPort` of a name, a baud rate and a timeout in milliseconds, 0 for none.
  pub open_port : Text → ℕ → ℕ → Action World (Port ⊎ Error)
  pub new_communication : Port → ℕ → Framed
  pub new_firmware : Framed → Firmware
  pub init : Firmware → Action World (Option Error)
  pub status : Firmware → World → Status
  pub same_status : Status → Status → Bool
  pub status_unpaired : Status
  pub status_require_app_upgrade : Status
  pub status_pairing_failed : Status
  pub unexpected_status : Status → Error
  pub channel_hash_verify : Firmware → Bool → World → World
  pub upgrade_firmware : Firmware → Action World (Option Error)
  pub close_firmware : Firmware → World → World
  -- `bootloader.NewDevice` of a version, for the product `ProductBitBoxBaseStandard`.
  pub new_bootloader : ℕ → ℕ → ℕ → Framed → Bootloader
  pub versions : Bootloader → Action World (Option Error)
  pub reboot : Bootloader → Action World (Option Error)
  pub close_bootloader : Bootloader → World → World
  -- `time.Sleep`, in seconds.
  pub sleep : ℕ → World → World

pub record Hsm : Type 0 where
  pub serial_port : Text

abbrev pub new_hsm : Text → Hsm
new_hsm serial_port = record { serial_port = serial_port }

abbrev firmware_cmd : ℕ
firmware_cmd = 128 + 64 + 1

abbrev bootloader_cmd : ℕ
bootloader_cmd = 128 + 64 + 3

abbrev pub boot_timeout_seconds : ℕ
boot_timeout_seconds = 30

module _ (api : Api) where
  -- A value, or an error.
  abbrev pub Answer : Type 0 → Type 0
  Answer A = A ⊎ api.Error

  -- `if err != nil { return nil, err }`
  abbrev pub unless_failed :
      {A B : Type 0}
      → Answer A × api.World
      → (A → Action api.World (Answer B))
      → Answer B × api.World
  unless_failed (inl a, w) f = f a w
  unless_failed (inr err, w) f = (inr err, w)

  abbrev pub timeout_or_default : Option ℕ → ℕ
  timeout_or_default none = 0
  timeout_or_default (some milliseconds) = milliseconds

  abbrev pub stacked : Answer api.Port × api.World → Answer api.Port × api.World
  stacked (inl conn, w) = (inl conn, w)
  stacked (inr err, w) = (inr (api.with_stack err), w)

  unfoldable pub open_serial : Hsm → Option ℕ → Action api.World (Answer api.Port)
  open_serial hsm read_timeout w =
      stacked (api.open_port hsm.serial_port 115200 (timeout_or_default read_timeout) w)

  unfoldable pub pair_firmware : api.Firmware → api.Status → Action api.World (Answer api.Firmware)
  unfolding text
  pair_firmware device status w =
      if api.same_status status api.status_unpaired
      then (inl device, api.channel_hash_verify device true w)
      else if api.same_status status api.status_require_app_upgrade
      then (
        inr (
            api.new_error
              (text "firmware unsupported, update of the BitBoxBase (middleware) is required")),
        w,
      )
      else if api.same_status status api.status_pairing_failed
      then (inr (api.new_error (text "device was expected to autoconfirm the pairing")), w)
      else (inr (api.unexpected_status status), w)

  abbrev pub firmware_initialized :
      api.Firmware → Option api.Error × api.World → Answer api.Firmware × api.World
  firmware_initialized device (some err, w) = (inr err, w)
  firmware_initialized device (none, w) = pair_firmware device (api.status device w) w

  abbrev pub init_firmware : api.Port → Action api.World (Answer api.Firmware)
  init_firmware conn w =
      let device : api.Firmware = api.new_firmware (api.new_communication conn firmware_cmd) in
      firmware_initialized device (api.init device w)

  unfoldable pub get_firmware : Hsm → Action api.World (Answer api.Firmware)
  get_firmware hsm w = unless_failed (open_serial hsm none w) init_firmware

  unfoldable pub get_bootloader : Hsm → Option ℕ → Action api.World (Answer api.Bootloader)
  get_bootloader hsm read_timeout w =
      unless_failed (open_serial hsm read_timeout w)
        (λ conn v. (inl (api.new_bootloader 1 0 1 (api.new_communication conn bootloader_cmd)), v))

  abbrev pub versions_tell : Option api.Error × api.World → Answer Bool × api.World
  versions_tell (none, w) = (inl false, w)
  versions_tell (some err, w) =
      if api.is_endpoint_unavailable err then (inl true, w) else (inr err, w)

  unfoldable pub is_firmware : Hsm → Action api.World (Answer Bool)
  is_firmware hsm w =
      unless_failed (get_bootloader hsm (some 200) w)
        (λ bootloader v. versions_tell (api.versions bootloader v))

  abbrev pub pause : ℕ → api.World → api.World
  pause second w = if ltb 0 second then api.sleep 1 w else w

  -- `rest` are the following rounds.
  module _ {D : Type 0} (hsm : Hsm) (second : ℕ) (rest : Action api.World (Answer D)) where
    abbrev pub upgrade_ended : api.Firmware → Option api.Error × api.World → Answer D × api.World
    upgrade_ended firmware (some err, w) = (inr err, api.close_firmware firmware w)
    upgrade_ended firmware (none, w) = rest (pause second (api.close_firmware firmware w))

    abbrev pub reboot_ended : api.Bootloader → Option api.Error × api.World → Answer D × api.World
    reboot_ended bootloader (some err, w) = (inr err, api.close_bootloader bootloader w)
    reboot_ended bootloader (none, w) = rest (pause second (api.close_bootloader bootloader w))

  abbrev pub bootloader_round :
      Hsm
      → ℕ
      → Action api.World (Answer api.Bootloader)
      → Answer Bool × api.World
      → Answer api.Bootloader × api.World
  bootloader_round hsm second rest (inr err, w) = if api.is_eof err then rest w else (inr err, w)
  bootloader_round hsm second rest (inl false, w) = get_bootloader hsm none w
  bootloader_round hsm second rest (inl true, w) =
      unless_failed (get_firmware hsm w)
        (λ firmware v. upgrade_ended hsm second rest firmware (api.upgrade_firmware firmware v))

  -- The loop of `waitForBootloader`, with the rounds that are left.
  unfoldable pub bootloader_rounds : Hsm → ℕ → ℕ → Action api.World (Answer api.Bootloader)
  unfolding text
  bootloader_rounds hsm zero second w =
      (inr (api.new_error (text "waiting for bootloader timed out")), w)
  bootloader_rounds hsm (suc n) second w =
      bootloader_round hsm second (bootloader_rounds hsm n (second + 1)) (is_firmware hsm w)

  abbrev pub wait_for_bootloader : Hsm → Action api.World (Answer api.Bootloader)
  wait_for_bootloader hsm w = bootloader_rounds hsm boot_timeout_seconds 0 w

  abbrev pub firmware_round :
      Hsm
      → ℕ
      → Action api.World (Answer api.Firmware)
      → Answer Bool × api.World
      → Answer api.Firmware × api.World
  firmware_round hsm second rest (inr err, w) = if api.is_eof err then rest w else (inr err, w)
  firmware_round hsm second rest (inl true, w) = get_firmware hsm w
  firmware_round hsm second rest (inl false, w) =
      unless_failed (get_bootloader hsm none w)
        (λ bootloader v. reboot_ended hsm second rest bootloader (api.reboot bootloader v))

  -- The loop of `WaitForFirmware`, with the rounds that are left.
  unfoldable pub firmware_rounds : Hsm → ℕ → ℕ → Action api.World (Answer api.Firmware)
  unfolding text
  firmware_rounds hsm zero second w =
      (inr (api.new_error (text "waiting for firmware timed out")), w)
  firmware_rounds hsm (suc n) second w =
      firmware_round hsm second (firmware_rounds hsm n (second + 1)) (is_firmware hsm w)

  abbrev pub wait_for_firmware : Hsm → Action api.World (Answer api.Firmware)
  wait_for_firmware hsm w = firmware_rounds hsm boot_timeout_seconds 0 w

  abbrev pub run_and_close :
      (api.Bootloader → api.World → api.World)
      → Answer api.Bootloader × api.World
      → Option api.Error × api.World
  run_and_close f (inr err, w) = (some err, w)
  run_and_close f (inl device, w) = (none, api.close_bootloader device (f device w))

  unfoldable pub interact_with_bootloader :
      Hsm → (api.Bootloader → api.World → api.World) → Action api.World (Option api.Error)
  interact_with_bootloader hsm f w = run_and_close f (wait_for_bootloader hsm w)
