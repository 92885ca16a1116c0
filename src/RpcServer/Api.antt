-- ===== src/RpcServer/Api.antt =====
-- The Go interface `Middleware` of middleware/src/rpcserver/rpcserver.go: each method reads and
-- changes a state `S`.
use bitbox_base.Base.{Option, Action}
use bitbox_base.Base.Text.{Text}
use bitbox_base.Rpcmessages.{
  UserAuthenticateArgs, UserAuthenticateResponse, UserChangePasswordArgs, SetHostnameArgs,
  SetLoginPasswordArgs, ToggleSettingArgs, UpdateBaseArgs, ErrorResponse, SetupStatusResponse,
  GetEnvResponse, IsBaseUpdateAvailableResponse, GetBaseUpdateProgressResponse, GetBaseInfoResponse,
  GetServiceInfoResponse, GetServiceStatusResponse,
}
use bitbox_base.System.{GoError}
use bitbox_base.Middleware.Hostname.{Outcome}

pub record MiddlewareApi (S Float : Type 0) : Type 0 where
  pub setup_status : Action S SetupStatusResponse
  pub system_env : Action S GetEnvResponse
  pub reindex_bitcoin : Action S ErrorResponse
  pub resync_bitcoin : Action S ErrorResponse
  pub backup_sysconfig : Action S ErrorResponse
  pub backup_hsm_secret : Action S ErrorResponse
  pub restore_sysconfig : Action S ErrorResponse
  pub restore_hsm_secret : Action S ErrorResponse
  pub user_authenticate : UserAuthenticateArgs → Action S UserAuthenticateResponse
  pub user_change_password : UserChangePasswordArgs → Action S ErrorResponse
  pub set_hostname : SetHostnameArgs → Action S (Outcome ErrorResponse)
  pub enable_tor : ToggleSettingArgs → Action S ErrorResponse
  pub enable_tor_middleware : ToggleSettingArgs → Action S ErrorResponse
  pub enable_tor_electrs : ToggleSettingArgs → Action S ErrorResponse
  pub enable_tor_ssh : ToggleSettingArgs → Action S ErrorResponse
  pub enable_clearnet_ibd : ToggleSettingArgs → Action S ErrorResponse
  pub shutdown_base : Action S ErrorResponse
  pub reboot_base : Action S ErrorResponse
  pub enable_root_login : ToggleSettingArgs → Action S ErrorResponse
  pub enable_ssh_password_login : ToggleSettingArgs → Action S ErrorResponse
  pub set_login_password : SetLoginPasswordArgs → Action S ErrorResponse
  pub get_base_info : Action S GetBaseInfoResponse
  pub get_service_info : Action S (GetServiceInfoResponse Float)
  pub get_service_status : Action S GetServiceStatusResponse
  pub update_base : UpdateBaseArgs → Action S ErrorResponse
  pub get_base_update_progress : Action S GetBaseUpdateProgressResponse
  pub is_base_update_available : Action S IsBaseUpdateAvailableResponse
  pub finalize_setup_wizard : Action S ErrorResponse
  pub validate_token : Text → Action S (Option GoError)
