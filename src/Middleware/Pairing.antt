-- ===== src/Middleware/Pairing.antt =====
-- How the user confirms a client: `VerifyAppMiddlewarePairing` of middleware/src/middleware.go.
use bitbox_base.Base.{
  Bool, true, false, Option, none, some, ◌≡◌, ◌⊎◌, arith, not, ◌↔◌, pure, gets, ◌>>=◌,
  if◌then◌else◌,
}
use bitbox_base.Base.Text.{Text}
use bitbox_base.System.{System, GoError, Returns}
use bitbox_base.Middleware.State.{State, M, outside}

module _ (sys : System) where
  abbrev error_or_yes : Option GoError → Returns Bool
  error_or_yes none = (true, none)
  error_or_yes (some err) = (false, some err)

  abbrev confirmed : Option GoError → Returns Bool
  confirmed err = if sys.is_error_abort err then (false, none) else error_or_yes err

  unfoldable pub verify_app_middleware_pairing : Text → M sys (Returns Bool)
  verify_app_middleware_pairing channel_hash = do
    has_hsm_firmware ← gets (λ s. s.has_hsm_firmware)
    let ask : M sys (Returns Bool) = (do
      err ← outside sys (sys.hsm_confirm_pairing channel_hash)
      pure (confirmed err))
    if not has_hsm_firmware then pure (true, none) else ask

  -- A pairing is accepted exactly if there is no HSM, or if the HSM confirms the channel hash without
  -- an error, which is not the error of an abort.
  pub verify_app_middleware_pairing_iff :
      (channel_hash : Text) (s : State sys)
      → ((verify_app_middleware_pairing channel_hash s).0.0 ≡ true) ↔ (
          (s.has_hsm_firmware ≡ false)
          ⊎ (((sys.hsm_confirm_pairing channel_hash s.world).0 ≡ none)
              × (sys.is_error_abort none ≡ false)))
  unfolding verify_app_middleware_pairing
  verify_app_middleware_pairing_iff channel_hash s = ground arith
