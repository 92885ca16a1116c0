-- ===== src/Middleware/Flashdrive.antt =====
-- Mounting, backup and restore: middleware/src/util.go (`mountFlashdrive`, `unmountFlashdrive`) and
-- middleware/src/middleware.go (`BackupSysconfig` to `RestoreHSMSecret`).
pub mod Unmount
use bitbox_base.Base.{
  Option, none, some, List, [], ◌∷◌, Action, pure, ◌>>=◌, get_last?, if◌then◌else◌,
}
use bitbox_base.Base.Text.{Text, text, join}
use bitbox_base.Rpcmessages.{
  ErrorCode, ErrorResponse, succeeded, failed, error_unexpected, error_flashdrive_check_multiple,
  error_flashdrive_check_none, error_flashdrive_mount_not_found,
  error_flashdrive_mount_not_supported, error_flashdrive_mount_not_unique,
  error_flashdrive_unmount_not_mounted, error_backup_sysconfig_not_a_mountpoint,
  error_restore_sysconfig_backup_not_found,
}
use bitbox_base.System.{System, GoError, Returns}
use bitbox_base.Middleware.State.{State, M}
use bitbox_base.Middleware.Scripts.{
  newline, handle_bbb_script_error_code, script_response, run_bbb_cmd_script,
}

-- The errors that each call of `bbb-cmd.sh` expects.
abbrev pub check_errors : List ErrorCode
check_errors = error_flashdrive_check_multiple ∷ error_flashdrive_check_none ∷ []

abbrev pub mount_errors : List ErrorCode
mount_errors =
    error_flashdrive_mount_not_found ∷ error_flashdrive_mount_not_supported
    ∷ error_flashdrive_mount_not_unique ∷ []

abbrev pub unmount_errors : List ErrorCode
unmount_errors = error_flashdrive_unmount_not_mounted ∷ []

abbrev pub no_name_message : Text
no_name_message =
    text
      "An unexpected Error occurred: The output of `bbb-cmd.sh flashdrive check` did not contain a flashdrive name."

module _ (sys : System) where
  -- The second half of `mountFlashdrive`, on the last line of the check.
  unfoldable pub mount_named : Option Text → M sys ErrorResponse
  mount_named none = pure (failed error_unexpected no_name_message)
  mount_named (some name) = do
    mounted ← run_bbb_cmd_script sys (text "flashdrive" ∷ text "mount" ∷ name ∷ [])
    pure (script_response mount_errors mounted)

  abbrev pub after_check : Returns (List Text) → M sys ErrorResponse
  after_check (out, some err) =
      pure (failed (handle_bbb_script_error_code out err check_errors) (join newline out))
  after_check (out, none) = mount_named (get_last? out)

  unfoldable pub mount_flashdrive : M sys ErrorResponse
  mount_flashdrive = do
    checked ← run_bbb_cmd_script sys (text "flashdrive" ∷ text "check" ∷ [])
    after_check checked

  unfoldable pub unmount_flashdrive : M sys ErrorResponse
  unmount_flashdrive = do
    unmounted ← run_bbb_cmd_script sys (text "flashdrive" ∷ text "unmount" ∷ [])
    pure (script_response unmount_errors unmounted)

  -- The deferred function: it runs after the body, and replaces a successful response only.
  unfoldable pub with_unmount : M sys ErrorResponse → M sys ErrorResponse
  with_unmount body = do
    response ← body
    unmount_response ← unmount_flashdrive
    pure (if response.success then unmount_response else response)

  -- The body of `BackupSysconfig` and of `RestoreSysconfig`, which differ in the script's arguments.
  unfoldable pub on_flashdrive : List Text → List ErrorCode → M sys ErrorResponse
  unfolding with_unmount
  on_flashdrive args possible = do
    response ← mount_flashdrive
    let body : M sys ErrorResponse =
        with_unmount (do out ← run_bbb_cmd_script sys args; pure (script_response possible out))
    if response.success then body else pure response

  unfoldable pub backup_sysconfig : M sys ErrorResponse
  unfolding on_flashdrive
  backup_sysconfig =
      on_flashdrive (text "backup" ∷ text "sysconfig" ∷ [])
        (error_backup_sysconfig_not_a_mountpoint ∷ [])

  unfoldable pub restore_sysconfig : M sys ErrorResponse
  unfolding on_flashdrive
  restore_sysconfig =
      on_flashdrive (text "restore" ∷ text "sysconfig" ∷ [])
        (error_restore_sysconfig_backup_not_found ∷ [])

  unfoldable pub backup_hsm_secret : M sys ErrorResponse
  backup_hsm_secret = do
    out ← run_bbb_cmd_script sys (text "backup" ∷ text "hsm_secret" ∷ [])
    pure (script_response [] out)

  unfoldable pub restore_hsm_secret : M sys ErrorResponse
  restore_hsm_secret = do
    out ← run_bbb_cmd_script sys (text "restore" ∷ text "hsm_secret" ∷ [])
    pure (script_response [] out)
