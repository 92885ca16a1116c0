-- ===== src/Rpcmessages/Codes.antt =====
-- The error codes of middleware/src/rpcmessages/errorcodes.go. The Go type is a string: `no_code` is
-- its zero value, which a response without an error carries.
use bitbox_base.Base.{Option, none, some, List, [], ◌∷◌, if◌then◌else◌}
use bitbox_base.Base.Text.{Text, text, text_eq}

pub data ErrorCode : Type 0 where
  no_code : ErrorCode
  json_web_token_invalid : ErrorCode
  executable_not_found : ErrorCode
  error_script_not_superuser : ErrorCode
  error_script_includes_not_found : ErrorCode
  error_redis_error : ErrorCode
  error_prometheus_error : ErrorCode
  error_unexpected : ErrorCode
  error_cmd_script_invalid_arg : ErrorCode
  error_flashdrive_check_multiple : ErrorCode
  error_flashdrive_check_none : ErrorCode
  error_flashdrive_mount_not_found : ErrorCode
  error_flashdrive_mount_not_unique : ErrorCode
  error_flashdrive_mount_not_supported : ErrorCode
  error_flashdrive_unmount_not_mounted : ErrorCode
  error_backup_sysconfig_not_a_mountpoint : ErrorCode
  error_restore_sysconfig_backup_not_found : ErrorCode
  error_mender_update_image_not_mender_enabled : ErrorCode
  error_mender_update_install_failed : ErrorCode
  error_mender_update_no_version : ErrorCode
  error_mender_update_invalid_version : ErrorCode
  error_mender_update_already_in_progress : ErrorCode
  error_mender_update_commit_failed : ErrorCode
  error_config_script_invalid_arg : ErrorCode
  error_set_needs_two_arguments : ErrorCode
  error_set_bitcoin_network_invalid_value : ErrorCode
  error_set_bitcoin_dbcache_invalid_value : ErrorCode
  error_set_hostname_invalid_value : ErrorCode
  error_systemd_service_start_failed : ErrorCode
  error_initial_authentication_not_successful : ErrorCode
  error_authentication_password_incorrect : ErrorCode
  error_authentication_failed : ErrorCode
  error_authentication_username_not_found : ErrorCode
  error_password_too_short : ErrorCode
  error_password_change_failed : ErrorCode
  error_password_change_username_not_exist : ErrorCode
  error_password_change_password_incorrect : ErrorCode
  error_set_login_password_too_short : ErrorCode

-- `string(code)`.
unfoldable pub code_text : ErrorCode → Text
unfolding text
code_text no_code = []
code_text json_web_token_invalid = text "JSONWEBTOKEN_INVALID"
code_text executable_not_found = text "EXECUTABLE_NOT_FOUND"
code_text error_script_not_superuser = text "SCRIPT_NOT_RUN_AS_SUPERUSER"
code_text error_script_includes_not_found = text "SCRIPT_INCLUDES_NOT_FOUND"
code_text error_redis_error = text "REDIS_ERROR"
code_text error_prometheus_error = text "PROMETHEUS_ERROR"
code_text error_unexpected = text "UNEXPECTED_ERROR"
code_text error_cmd_script_invalid_arg = text "CMD_SCRIPT_INVALID_ARG"
code_text error_flashdrive_check_multiple = text "FLASHDRIVE_CHECK_MULTI"
code_text error_flashdrive_check_none = text "FLASHDRIVE_CHECK_NONE"
code_text error_flashdrive_mount_not_found = text "FLASHDRIVE_MOUNT_NOT_FOUND"
code_text error_flashdrive_mount_not_unique = text "FLASHDRIVE_MOUNT_NOT_UNIQUE"
code_text error_flashdrive_mount_not_supported = text "FLASHDRIVE_MOUNT_NOT_SUPPORTED"
code_text error_flashdrive_unmount_not_mounted = text "FLASHDRIVE_UNMOUNT_NOT_MOUNTED"
code_text error_backup_sysconfig_not_a_mountpoint = text "BACKUP_SYSCONFIG_NOT_A_MOUNTPOINT"
code_text error_restore_sysconfig_backup_not_found = text "RESTORE_SYSCONFIG_BACKUP_NOT_FOUND"
code_text error_mender_update_image_not_mender_enabled =
    text "MENDER_UPDATE_IMAGE_NOT_MENDER_ENABLED"
code_text error_mender_update_install_failed = text "MENDER_UPDATE_INSTALL_FAILED"
code_text error_mender_update_no_version = text "MENDER_UPDATE_NO_VERSION"
code_text error_mender_update_invalid_version = text "MENDER_UPDATE_INVALID_VERSION"
code_text error_mender_update_already_in_progress = text "MENDER_UPDATE_ALREADY_IN_PROGRESS"
code_text error_mender_update_commit_failed = text "MENDER_UPDATE_COMMIT_FAILED"
code_text error_config_script_invalid_arg = text "CONFIG_SCRIPT_INVALID_ARG"
code_text error_set_needs_two_arguments = text "SET_NEEDS_TWO_ARGUMENTS"
code_text error_set_bitcoin_network_invalid_value = text "SET_BITCOINETWORK_INVALID_VALUE"
code_text error_set_bitcoin_dbcache_invalid_value = text "SET_BITCOINDBCACHE_INVALID_VALUE"
code_text error_set_hostname_invalid_value = text "SET_HOSTNAME_INVALID_VALUE"
code_text error_systemd_service_start_failed = text "SYSTEMD_SERVICESTART_FAILED"
code_text error_initial_authentication_not_successful = text "INITIAL_AUTHENTICATION_NOT_SUCCESSFUL"
code_text error_authentication_password_incorrect = text "AUTHENTICATION_PASSWORD_INCORRECT"
code_text error_authentication_failed = text "AUTHENTICATION_FAILED"
code_text error_authentication_username_not_found = text "AUTHENTICATION_USERNAME_NOEXIST"
code_text error_password_too_short = text "CHANGEPASSWORD_TOO_SHORT"
code_text error_password_change_failed = text "CHANGEPASSWORD_FAILED"
code_text error_password_change_username_not_exist = text "CHANGEPASSWORD_USERNAME_NOEXIST"
code_text error_password_change_password_incorrect = text "CHANGEPASSWORD_PASSWORD_INCORRECT"
code_text error_set_login_password_too_short = text "SET_LOGINPASSWORD_PASSWORD_TOO_SHORT"

-- Every code, in the order of the file.
abbrev pub all_codes : List ErrorCode
all_codes =
    no_code ∷ json_web_token_invalid ∷ executable_not_found ∷ error_script_not_superuser
    ∷ error_script_includes_not_found ∷ error_redis_error ∷ error_prometheus_error
    ∷ error_unexpected ∷ error_cmd_script_invalid_arg ∷ error_flashdrive_check_multiple
    ∷ error_flashdrive_check_none ∷ error_flashdrive_mount_not_found
    ∷ error_flashdrive_mount_not_unique ∷ error_flashdrive_mount_not_supported
    ∷ error_flashdrive_unmount_not_mounted ∷ error_backup_sysconfig_not_a_mountpoint
    ∷ error_restore_sysconfig_backup_not_found ∷ error_mender_update_image_not_mender_enabled
    ∷ error_mender_update_install_failed ∷ error_mender_update_no_version
    ∷ error_mender_update_invalid_version ∷ error_mender_update_already_in_progress
    ∷ error_mender_update_commit_failed ∷ error_config_script_invalid_arg
    ∷ error_set_needs_two_arguments ∷ error_set_bitcoin_network_invalid_value
    ∷ error_set_bitcoin_dbcache_invalid_value ∷ error_set_hostname_invalid_value
    ∷ error_systemd_service_start_failed ∷ error_initial_authentication_not_successful
    ∷ error_authentication_password_incorrect ∷ error_authentication_failed
    ∷ error_authentication_username_not_found ∷ error_password_too_short
    ∷ error_password_change_failed ∷ error_password_change_username_not_exist
    ∷ error_password_change_password_incorrect ∷ error_set_login_password_too_short ∷ []

unfoldable pub find_code : Text → List ErrorCode → Option ErrorCode
find_code t [] = none
find_code t (c ∷ cs) = if text_eq t (code_text c) then some c else find_code t cs
