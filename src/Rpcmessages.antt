-- ===== src/Rpcmessages.antt =====
-- The messages of the RPC interface: middleware/src/rpcmessages/rpcmessages.go.
-- A pointer to a response is an `Option`; an int64 is a `ℤ`; a float64 is a type parameter.
pub mod Codes
pub mod Distinct
unfoldable pub use Codes.*
use bitbox_base.Base.{Bool, true, false, ◌&&◌, Option, none, some, []}
use bitbox_base.Base.Text.{Text, text, text_eq}
use bitbox_base.Base.Int.{ℤ}

-- The notification bytes that the middleware sends to its clients.
pub data Op : Type 0 where
  rpc_call service_info_changed base_update_progress_changed : Op
  base_update_is_available base_update_success base_update_failure : Op

unfoldable pub op_text : Op → Text
unfolding text
op_text rpc_call = text "r"
op_text service_info_changed = text "s"
op_text base_update_progress_changed = text "u"
op_text base_update_is_available = text "x"
op_text base_update_success = text "a"
op_text base_update_failure = text "b"

pub record UserAuthenticateArgs : Type 0 where
  pub username : Text
  pub password : Text

pub record AuthGenericRequest : Type 0 where
  pub token : Text

pub record UserChangePasswordArgs : Type 0 where
  pub username : Text
  pub password : Text
  pub new_password : Text
  pub token : Text

pub record SetHostnameArgs : Type 0 where
  pub hostname : Text
  pub token : Text

pub record SetLoginPasswordArgs : Type 0 where
  pub login_password : Text
  pub token : Text

pub record ToggleSettingArgs : Type 0 where
  pub toggle_setting : Bool
  pub token : Text

pub record UpdateBaseArgs : Type 0 where
  pub version : Text
  pub token : Text

pub record ErrorResponse : Type 0 where
  pub success : Bool
  pub code : ErrorCode
  pub message : Text

-- `rpcmessages.ErrorResponse{Success: true}`
abbrev pub succeeded : ErrorResponse
succeeded = record { success = true; code = ErrorCode.no_code; message = [] }

-- `rpcmessages.ErrorResponse{Success: false, Message: message, Code: code}`
abbrev pub failed : ErrorCode → Text → ErrorResponse
failed code message = record { success = false; code = code; message = message }

abbrev pub same_bool : Bool → Bool → Bool
same_bool true b = b
same_bool false true = false
same_bool false false = true

-- Equality of the pointed-to responses, as `reflect.DeepEqual` decides it.
unfoldable pub same_error_response : Option ErrorResponse → Option ErrorResponse → Bool
same_error_response none none = true
same_error_response (some a) (some b) =
    same_bool a.success b.success
    && (text_eq (code_text a.code) (code_text b.code) && text_eq a.message b.message)
same_error_response _ _ = false

pub record SetupStatusResponse : Type 0 where
  pub middleware_password_set : Bool
  pub base_setup : Bool

pub record UserAuthenticateResponse : Type 0 where
  pub error_response : Option ErrorResponse
  pub token : Text

pub record GetEnvResponse : Type 0 where
  pub network : Text
  pub electrs_rpc_port : Text

pub record UpdateInfo : Type 0 where
  pub description : Text
  pub version : Text
  pub severity : Text

pub record IsBaseUpdateAvailableResponse : Type 0 where
  pub error_response : Option ErrorResponse
  pub update_available : Bool
  pub update_info : UpdateInfo

pub data BaseUpdateState : Type 0 where
  -- The zero value, which no constant of the source names.
  no_state : BaseUpdateState
  not_in_progress downloading update_failed applying rebooting : BaseUpdateState

pub record GetBaseUpdateProgressResponse : Type 0 where
  pub error_response : Option ErrorResponse
  pub state : BaseUpdateState
  pub progress_percentage : ℤ
  pub progress_downloaded_kib : ℤ

pub record GetBaseInfoResponse : Type 0 where
  pub error_response : Option ErrorResponse
  pub middleware_local_ip : Text
  pub middleware_port : Text
  pub middleware_tor_onion : Text
  pub is_ssh_password_login_enabled : Bool
  pub free_diskspace : ℤ
  pub total_diskspace : ℤ
  pub base_version : Text
  pub bitcoind_version : Text
  pub lightningd_version : Text
  pub electrs_version : Text

pub record GetServiceInfoResponse (Float : Type 0) : Type 0 where
  pub error_response : Option ErrorResponse
  pub bitcoind_blocks : ℤ
  pub bitcoind_headers : ℤ
  pub bitcoind_verification_progress : Float
  pub bitcoind_peers : ℤ
  pub bitcoind_ibd : Bool
  pub lightningd_blocks : ℤ
  pub lightning_active_channels : ℤ
  pub electrs_blocks : ℤ

pub record GetServiceStatusResponse : Type 0 where
  pub error_response : Option ErrorResponse
  pub hostname : Text
  pub status : Text
  pub is_tor_enabled : Bool
  pub bitcoind_status : Bool
  pub lightningd_status : Bool
  pub electrs_status : Bool
