-- ===== src/Middleware/Update.antt =====
-- The over-the-air update: middleware/src/middleware.go (`UpdateBase`, `updateCheckLoop`) and
-- middleware/src/util.go (`parseBaseUpdateStdout`, `setBaseUpdateStateAndNotify`).
pub mod Progress
pub mod Stdout
use bitbox_base.Base.{
  ℕ, suc, Bool, true, false, not, ◌&&◌, ◌||◌, Option, none, some, List, [], ◌∷◌, Action, pure, gets,
  modify, ◌>>=◌, ◌>>◌, ◌==◌, if◌then◌else◌,
}
use bitbox_base.Base.Text.{
  Text, text, split, join, has_prefix, has_suffix, trim_prefix, trim_suffix,
}
use bitbox_base.Base.Spaces.{trim_space}
use bitbox_base.Base.Decimal.{atoi}
use bitbox_base.Base.Int.{ℤ, pos, ltb_ℤ}
use bitbox_base.Rpcmessages.{
  ErrorCode, ErrorResponse, succeeded, failed, error_mender_update_already_in_progress,
  error_mender_update_install_failed, error_mender_update_image_not_mender_enabled,
  error_mender_update_invalid_version, error_mender_update_no_version, UpdateBaseArgs,
  BaseUpdateState, not_in_progress, downloading, update_failed, applying, rebooting,
  GetBaseUpdateProgressResponse, IsBaseUpdateAvailableResponse, UpdateInfo, Op,
  base_update_progress_changed, base_update_is_available,
}
use bitbox_base.System.{System, GoError, Returns, MenderRun}
use bitbox_base.Middleware.State.{State, M, Event, Call, outside, note, run, send}
use bitbox_base.Middleware.Scripts.{newline, handle_bbb_script_error_code}
use bitbox_base.Middleware.Settings.{reboot_base}

-- The three results `(containsUpdateProgressInfo, percentage, downloadedKiB)`; `none` is `false, 0, 0`.
abbrev pub Progress : Type 0
Progress = ℤ × ℤ

abbrev pub progress_prefix : Text
progress_prefix = text "................................"

abbrev pub progress_suffix : Text
progress_suffix = text "KiB"

-- `strings.Replace(s, "%", "", 1)`
unfoldable pub drop_percent : Text → Text
drop_percent [] = []
drop_percent (c ∷ s) = if c == b'%' then s else c ∷ drop_percent s

abbrev both_numbers : Option ℤ → Option ℤ → Option Progress
both_numbers none k = none
both_numbers (some p) none = none
both_numbers (some p) (some k) = some (p, k)

-- Exactly two parts are expected.
unfoldable pub parse_parts : List Text → Option Progress
unfolding drop_percent
parse_parts (p ∷ k ∷ []) = both_numbers (atoi (drop_percent p)) (atoi k)
parse_parts _ = none

unfoldable pub parse_base_update_stdout : Text → Option Progress
unfolding parse_parts
parse_base_update_stdout line =
    if not (has_prefix line progress_prefix) || not (has_suffix line progress_suffix)
    then none
    else parse_parts
        (split b' ' (trim_space (trim_prefix (trim_suffix line progress_suffix) progress_prefix)))

abbrev pub already_in_progress : ErrorResponse
already_in_progress = failed error_mender_update_already_in_progress (
    text
      "Could not start the update process. A Base update is already in progress or the Base has to be rebooted.")

abbrev pub could_not_start : ErrorResponse
could_not_start =
    failed error_mender_update_install_failed
      (text "Could not start the update process. Please see the Middleware log for more detail.")

abbrev pub could_not_read : ErrorResponse
could_not_read = failed error_mender_update_install_failed (
    text
      "An error occurred while performing the Base update. Please see the Middleware log for more detail.")

abbrev pub mender_errors : List ErrorCode
mender_errors =
    error_mender_update_image_not_mender_enabled ∷ error_mender_update_install_failed
    ∷ error_mender_update_invalid_version ∷ error_mender_update_no_version ∷ []

abbrev pub progress_event : Event
progress_event = record { identifier = base_update_progress_changed; queue_if_no_client = true }

-- The states in which another update is refused.
abbrev pub is_busy : BaseUpdateState → Bool
is_busy downloading = true
is_busy applying = true
is_busy rebooting = true
is_busy _ = false

module _ (sys : System) where
  unfoldable pub set_base_update_state_and_notify : BaseUpdateState → M sys (Unit {0})
  set_base_update_state_and_notify state = do
    modify
        (λ s. record s { base_update_progress = record s.base_update_progress { state = state } })
    send sys progress_event

  -- One line of stdout.
  unfoldable pub read_progress : Option Progress → M sys (Unit {0})
  unfolding set_base_update_state_and_notify
  read_progress none = pure tt
  read_progress (some (percentage, downloaded)) = do
    modify (λ s. record s {
      base_update_progress = record s.base_update_progress {
        progress_percentage = percentage;
        progress_downloaded_kib = downloaded;
      };
    })
    set_base_update_state_and_notify (if ltb_ℤ percentage (pos 98) then downloading else applying)

  unfoldable pub read_lines : List Text → M sys (Unit {0})
  read_lines [] = pure tt
  read_lines (line ∷ lines) = do read_progress (parse_base_update_stdout line); read_lines lines

  abbrev pub reboot_after_update : M sys ErrorResponse
  reboot_after_update = do
    response ← reboot_base sys
    pure (if response.success then succeeded else response)

  -- What follows the end of stdout.
  unfoldable pub finish_update : MenderRun → M sys ErrorResponse
  unfolding set_base_update_state_and_notify
  finish_update mender = elim mender.stdout_scan_error [
    | some err ↦ do set_base_update_state_and_notify update_failed; pure could_not_read
    | none ↦ elim mender.wait_error [
      | some err ↦ do
        set_base_update_state_and_notify update_failed
        pure (
            failed (handle_bbb_script_error_code mender.stderr_lines err mender_errors)
              (join newline mender.stderr_lines))
      | none ↦ do set_base_update_state_and_notify rebooting; reboot_after_update
    ]
  ]

  abbrev pub run_update : Call → MenderRun → M sys ErrorResponse
  run_update command mender = elim mender.stdout_pipe_error [
    | some err ↦ pure could_not_start
    | none ↦ elim mender.stderr_pipe_error [
      | some err ↦ pure could_not_start
      | none ↦ elim mender.start_error [
        | some err ↦ pure could_not_start
        | none ↦ do note sys command; read_lines mender.stdout_lines; finish_update mender
      ]
    ]
  ]

  unfoldable pub update_base : UpdateBaseArgs → M sys ErrorResponse
  update_base args s =
      let command = text "mender-update" ∷ text "install" ∷ args.version ∷ [] in
      let start : M sys ErrorResponse = (do
        mender ← outside sys (sys.mender_update s.config.bbb_cmd_script command)
        run_update (run s.config.bbb_cmd_script command) mender) in
      if is_busy s.base_update_progress.state then (already_in_progress, s) else start s

  unfoldable pub get_base_update_progress : M sys GetBaseUpdateProgressResponse
  get_base_update_progress = gets State.base_update_progress

  unfoldable pub is_base_update_available : M sys IsBaseUpdateAvailableResponse
  is_base_update_available = gets State.base_update_available

  abbrev pub announce : UpdateInfo → sys.SemVer → M sys (Unit {0})
  announce info version s =
      let offer : M sys (Unit {0}) = (do
        modify (λ t. record t {
          base_update_available = record t.base_update_available {
            update_available = true;
            update_info = info;
          };
        })
        send sys (record { identifier = base_update_is_available; queue_if_no_client = false })) in
      if not (sys.at_least s.current_version version) then offer s else (tt, s)

  abbrev pub compare_version : UpdateInfo → Returns sys.SemVer → M sys (Unit {0})
  compare_version info (_, some err) = pure tt
  compare_version info (version, none) = announce info version

  abbrev pub read_update_info : Returns UpdateInfo → M sys (Unit {0})
  read_update_info (_, some err) = pure tt
  read_update_info (info, none) = compare_version info (sys.new_semver_from_string info.version)

  -- One round of `updateCheckLoop`.
  unfoldable pub update_check : M sys (Unit {0})
  update_check s =
      (outside sys (sys.get_update_info s.config.image_update_info_url) >>= read_update_info) s
