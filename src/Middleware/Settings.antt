-- ===== src/Middleware/Settings.antt =====
-- The RPCs of middleware/src/middleware.go that run one script or change one setting.
use bitbox_base.Base.{
  Option, none, some, List, [], ◌∷◌, ◌++◌, pure, ◌>>=◌, ◌>>◌, leb, if◌then◌else◌,
}
use bitbox_base.Base.Text.{Text, text}
use bitbox_base.Middleware.Runes.{rune_count}
use bitbox_base.Rpcmessages.{
  ErrorCode, ErrorResponse, succeeded, failed, executable_not_found, error_set_needs_two_arguments,
  error_set_login_password_too_short, ToggleSettingArgs, SetLoginPasswordArgs,
}
use bitbox_base.System.{System, GoError}
use bitbox_base.Middleware.State.{M, outside, schedule, run}
use bitbox_base.Middleware.Scripts.{
  script_response, determine_enable_value, run_bbb_cmd_script, run_bbb_config_script,
}

module _ (sys : System) where
  unfoldable pub resync_bitcoin : M sys ErrorResponse
  resync_bitcoin = do
    out ← run_bbb_cmd_script sys (text "bitcoind" ∷ text "resync" ∷ [])
    pure (script_response [] out)

  unfoldable pub reindex_bitcoin : M sys ErrorResponse
  reindex_bitcoin = do
    out ← run_bbb_cmd_script sys (text "bitcoind" ∷ text "reindex" ∷ [])
    pure (script_response [] out)

  -- `bbb-config.sh enable|disable <setting>`
  unfoldable pub toggle : Text → List ErrorCode → ToggleSettingArgs → M sys ErrorResponse
  toggle setting possible action = do
    out ← run_bbb_config_script sys (determine_enable_value action ∷ setting ∷ [])
    pure (script_response possible out)

  unfoldable pub enable_tor : ToggleSettingArgs → M sys ErrorResponse
  unfolding toggle
  enable_tor = toggle (text "tor") []

  unfoldable pub enable_tor_middleware : ToggleSettingArgs → M sys ErrorResponse
  unfolding toggle
  enable_tor_middleware = toggle (text "tor_bbbmiddleware") []

  unfoldable pub enable_tor_electrs : ToggleSettingArgs → M sys ErrorResponse
  unfolding toggle
  enable_tor_electrs = toggle (text "tor_electrs") []

  unfoldable pub enable_tor_ssh : ToggleSettingArgs → M sys ErrorResponse
  unfolding toggle
  enable_tor_ssh = toggle (text "tor_ssh") []

  unfoldable pub enable_clearnet_ibd : ToggleSettingArgs → M sys ErrorResponse
  unfolding toggle
  enable_clearnet_ibd = toggle (text "bitcoin_ibd_clearnet") (error_set_needs_two_arguments ∷ [])

  unfoldable pub enable_root_login : ToggleSettingArgs → M sys ErrorResponse
  unfolding toggle
  enable_root_login = toggle (text "rootlogin") []

  unfoldable pub enable_ssh_password_login : ToggleSettingArgs → M sys ErrorResponse
  unfolding toggle
  enable_ssh_password_login = toggle (text "sshpwlogin") []

  -- `ShutdownBase` and `RebootBase`: look the executable up, and start it from a goroutine.
  abbrev delayed : Text → List Text → Text → M sys ErrorResponse
  delayed program args message s =
      if s.config.redis_mock then (succeeded, s) else (look_up >>= start) s
    where
      look_up : M sys (Option GoError)
      look_up = outside sys (sys.look_path program)

      start : Option GoError → M sys ErrorResponse
      start (some err) = pure (failed executable_not_found (message ++ err.message))
      start none = do schedule sys (run program args); pure succeeded

  unfoldable pub shutdown_base : M sys ErrorResponse
  shutdown_base =
      delayed (text "shutdown") (text "now" ∷ []) (text "could not shut the Base down: ")

  unfoldable pub reboot_base : M sys ErrorResponse
  reboot_base = delayed (text "reboot") [] (text "could not reboot the Base: ")

  unfoldable pub set_login_password : SetLoginPasswordArgs → M sys ErrorResponse
  unfolding rune_count
  set_login_password args =
      let change : M sys ErrorResponse = (do
        out ← run_bbb_config_script sys (text "set" ∷ text "loginpw" ∷ args.login_password ∷ [])
        pure (script_response (error_set_needs_two_arguments ∷ []) out)) in
      if leb 8 (rune_count args.login_password)
      then change
      else pure (
          failed error_set_login_password_too_short
            (text "The password has to be at least 8 chars. An unicode char is counted as one."))
