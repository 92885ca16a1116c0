-- ===== src/Tests/Confirm.antt =====
-- A pairing on a device without an HSM.
use bitbox_base.Base.{◌≡◌, refl, none, false, true, ◌⊎◌, ◌↔◌}
use bitbox_base.Base.Text.{text}
use bitbox_base.Middleware.State.{State}
use bitbox_base.Middleware.Pairing.{
  verify_app_middleware_pairing, verify_app_middleware_pairing_iff,
}
use bitbox_base.Tests.Demo.{demo, idle}

abbrev bare : State demo
bare = record idle { has_hsm_firmware = false }

verify_app_middleware_pairing_iff_example :
    ((verify_app_middleware_pairing demo (text "hash") bare).0.0 ≡ true) ↔ (
      (false ≡ false)
      ⊎ (((demo.hsm_confirm_pairing (text "hash") bare.world).0 ≡ none)
          × (demo.is_error_abort none ≡ false)))
verify_app_middleware_pairing_iff_example =
    verify_app_middleware_pairing_iff demo (text "hash") bare

confirmed_without_hsm : (verify_app_middleware_pairing demo (text "hash") bare).0.0 ≡ true
unfolding verify_app_middleware_pairing
confirmed_without_hsm = refl
