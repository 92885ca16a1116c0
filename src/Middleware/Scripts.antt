-- ===== src/Middleware/Scripts.antt =====
-- Running the Base's scripts: middleware/src/util.go.
pub mod Results
use bitbox_base.Base.{
  Bool, true, false, Option, none, some, List, [], ◌∷◌, ◌++◌, Action, pure, gets, ◌>>=◌, ◌>>◌,
  get_last?, if◌then◌else◌,
}
use bitbox_base.Base.Text.{Text, text, text_eq, split, join, trim_suffix}
use bitbox_base.Rpcmessages.{
  ErrorCode, executable_not_found, error_script_not_superuser, error_cmd_script_invalid_arg,
  error_config_script_invalid_arg, error_unexpected, code_text, ErrorResponse, succeeded, failed,
  ToggleSettingArgs,
}
use bitbox_base.System.{System, GoError, Returns}
use bitbox_base.Middleware.State.{State, M, run, outside, note}

-- "\n"
abbrev pub newline : Text
newline = b'\n' ∷ []

unfoldable pub output_lines : Text → List Text
output_lines raw = split b'\n' (trim_suffix raw newline)

-- The codes that a script can always return, on its last line.
default_code : Text → Option ErrorCode
default_code line =
    if text_eq line (code_text error_script_not_superuser)
    then some error_script_not_superuser
    else if text_eq line (code_text error_cmd_script_invalid_arg)
    then some error_cmd_script_invalid_arg
    else if text_eq line (code_text error_config_script_invalid_arg)
    then some error_config_script_invalid_arg
    else none

-- The loop over `possibleErrors`.
first_possible : Text → List ErrorCode → ErrorCode
first_possible line [] = error_unexpected
first_possible line (c ∷ cs) = if text_eq line (code_text c) then c else first_possible line cs

line_code : Text → List ErrorCode → ErrorCode
line_code line possible = elim (default_code line) [
  | some c ↦ c
  | none ↦ first_possible line possible
]

unfoldable pub handle_bbb_script_error_code : List Text → GoError → List ErrorCode → ErrorCode
unfolding default_code first_possible line_code
handle_bbb_script_error_code lines err possible =
    if err.is_not_exist
    then executable_not_found
    else if text_eq err.message (text "exit status 1")
    then elim (get_last? lines) [ none ↦ error_unexpected | some line ↦ line_code line possible ]
    else error_unexpected

unfoldable pub determine_enable_value : ToggleSettingArgs → Text
determine_enable_value enable = if enable.toggle_setting then text "enable" else text "disable"

-- The response to a script's result, as each RPC that runs one builds it.
unfoldable pub script_response : List ErrorCode → Returns (List Text) → ErrorResponse
script_response possible (out, none) = succeeded
script_response possible (out, some err) =
    failed (handle_bbb_script_error_code out err possible) (join newline out)

-- `active[0] == "active"`. The index is in range: a split has at least one part.
abbrev first_is_active : List Text → Bool
first_is_active [] = false
first_is_active (line ∷ _) = text_eq line (text "active")

module _ (sys : System) where
  unfoldable pub run_command : Text → List Text → M sys (Returns (List Text))
  unfolding output_lines
  run_command command args = do
    note sys (run command args)
    (raw, err) ← outside sys (sys.combined_output command args)
    pure (output_lines raw, err)

  unfoldable pub run_bbb_cmd_script : List Text → M sys (Returns (List Text))
  unfolding run_command
  run_bbb_cmd_script args = do config ← gets State.config; run_command config.bbb_cmd_script args

  unfoldable pub run_bbb_config_script : List Text → M sys (Returns (List Text))
  unfolding run_command
  run_bbb_config_script args = do
    config ← gets State.config
    run_command config.bbb_config_script args

  unfoldable pub run_bbb_systemctl_script : List Text → M sys (Returns (List Text))
  unfolding run_command
  run_bbb_systemctl_script args = do
    config ← gets State.config
    run_command config.bbb_systemctl_script args

  unfoldable pub check_systemd_service_status : Text → M sys (Returns Bool)
  unfolding run_command
  check_systemd_service_status service = do
    (active, err) ← run_command (text "systemctl") (text "is-active" ∷ service ∷ [])
    pure (first_is_active active, err)
