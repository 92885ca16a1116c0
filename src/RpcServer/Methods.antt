-- ===== src/RpcServer/Methods.antt =====
-- The methods of `RPCServer` in middleware/src/rpcserver/rpcserver.go, over any implementation of
-- the interface `Middleware`. `net/rpc` finds a method by its name; here a request is a value.
use bitbox_base.Base.{false, none, some, [], Action, pure, ◌>>=◌}
use bitbox_base.Base.Text.{Text, text}
use bitbox_base.Base.Int.{pos}
use bitbox_base.Rpcmessages.{
  UserAuthenticateArgs, UserAuthenticateResponse, UserChangePasswordArgs, SetHostnameArgs,
  SetLoginPasswordArgs, ToggleSettingArgs, UpdateBaseArgs, AuthGenericRequest, ErrorResponse,
  SetupStatusResponse, GetEnvResponse, IsBaseUpdateAvailableResponse, GetBaseUpdateProgressResponse,
  GetBaseInfoResponse, GetServiceInfoResponse, GetServiceStatusResponse, failed,
  json_web_token_invalid, no_state,
}
use bitbox_base.Middleware.Hostname.{Outcome, returns}
use bitbox_base.Middleware.Info.{base_info_failed}
use bitbox_base.RpcServer.Api.{MiddlewareApi}

unfoldable pub formulate_jwt_error : ErrorResponse
formulate_jwt_error = failed json_web_token_invalid (text "JSON web token validation failed")

abbrev pub service_info_denied : {Float : Type 0} → Float → GetServiceInfoResponse Float
service_info_denied zero_float = record {
  error_response = some formulate_jwt_error;
  bitcoind_blocks = pos 0;
  bitcoind_headers = pos 0;
  bitcoind_verification_progress = zero_float;
  bitcoind_peers = pos 0;
  bitcoind_ibd = false;
  lightningd_blocks = pos 0;
  lightning_active_channels = pos 0;
  electrs_blocks = pos 0;
}

abbrev pub update_progress_denied : GetBaseUpdateProgressResponse
update_progress_denied = record {
  error_response = some formulate_jwt_error;
  state = no_state;
  progress_percentage = pos 0;
  progress_downloaded_kib = pos 0;
}

abbrev pub update_available_denied : IsBaseUpdateAvailableResponse
update_available_denied = record {
  error_response = some formulate_jwt_error;
  update_available = false;
  update_info = record { description = []; version = []; severity = [] };
}

module _ {S Float : Type 0} (api : MiddlewareApi S Float) (zero_float : Float) where
  -- `if err := ValidateToken(token); err != nil { *reply = denied; return }; *reply = call()`
  abbrev pub authenticated : {R : Type 0} → Text → R → Action S R → Action S R
  authenticated token denied call = do
    err ← api.validate_token token
    elim err [ some e ↦ pure denied | none ↦ call ]

  unfoldable pub get_setup_status : Action S SetupStatusResponse
  get_setup_status = api.setup_status

  unfoldable pub get_system_env : AuthGenericRequest → Action S GetEnvResponse
  get_system_env args =
      authenticated args.token (record { network = []; electrs_rpc_port = [] }) api.system_env

  unfoldable pub reindex_bitcoin : AuthGenericRequest → Action S ErrorResponse
  reindex_bitcoin args = authenticated args.token formulate_jwt_error api.reindex_bitcoin

  unfoldable pub resync_bitcoin : AuthGenericRequest → Action S ErrorResponse
  resync_bitcoin args = authenticated args.token formulate_jwt_error api.resync_bitcoin

  unfoldable pub backup_sysconfig : AuthGenericRequest → Action S ErrorResponse
  backup_sysconfig args = authenticated args.token formulate_jwt_error api.backup_sysconfig

  unfoldable pub backup_hsm_secret : AuthGenericRequest → Action S ErrorResponse
  backup_hsm_secret args = authenticated args.token formulate_jwt_error api.backup_hsm_secret

  unfoldable pub restore_sysconfig : AuthGenericRequest → Action S ErrorResponse
  restore_sysconfig args = authenticated args.token formulate_jwt_error api.restore_sysconfig

  unfoldable pub restore_hsm_secret : AuthGenericRequest → Action S ErrorResponse
  restore_hsm_secret args = authenticated args.token formulate_jwt_error api.restore_hsm_secret

  unfoldable pub user_authenticate : UserAuthenticateArgs → Action S UserAuthenticateResponse
  user_authenticate args = api.user_authenticate args

  unfoldable pub user_change_password : UserChangePasswordArgs → Action S ErrorResponse
  user_change_password args =
      authenticated args.token formulate_jwt_error (api.user_change_password args)

  unfoldable pub set_hostname : SetHostnameArgs → Action S (Outcome ErrorResponse)
  set_hostname args = authenticated args.token (returns formulate_jwt_error) (api.set_hostname args)

  unfoldable pub enable_tor : ToggleSettingArgs → Action S ErrorResponse
  enable_tor args = authenticated args.token formulate_jwt_error (api.enable_tor args)

  unfoldable pub enable_tor_middleware : ToggleSettingArgs → Action S ErrorResponse
  enable_tor_middleware args =
      authenticated args.token formulate_jwt_error (api.enable_tor_middleware args)

  unfoldable pub enable_tor_electrs : ToggleSettingArgs → Action S ErrorResponse
  enable_tor_electrs args =
      authenticated args.token formulate_jwt_error (api.enable_tor_electrs args)

  unfoldable pub enable_tor_ssh : ToggleSettingArgs → Action S ErrorResponse
  enable_tor_ssh args = authenticated args.token formulate_jwt_error (api.enable_tor_ssh args)

  unfoldable pub enable_clearnet_ibd : ToggleSettingArgs → Action S ErrorResponse
  enable_clearnet_ibd args =
      authenticated args.token formulate_jwt_error (api.enable_clearnet_ibd args)

  unfoldable pub shutdown_base : AuthGenericRequest → Action S ErrorResponse
  shutdown_base args = authenticated args.token formulate_jwt_error api.shutdown_base

  unfoldable pub reboot_base : AuthGenericRequest → Action S ErrorResponse
  reboot_base args = authenticated args.token formulate_jwt_error api.reboot_base

  unfoldable pub enable_root_login : ToggleSettingArgs → Action S ErrorResponse
  enable_root_login args = authenticated args.token formulate_jwt_error (api.enable_root_login args)

  unfoldable pub enable_ssh_password_login : ToggleSettingArgs → Action S ErrorResponse
  enable_ssh_password_login args =
      authenticated args.token formulate_jwt_error (api.enable_ssh_password_login args)

  unfoldable pub set_login_password : SetLoginPasswordArgs → Action S ErrorResponse
  set_login_password args =
      authenticated args.token formulate_jwt_error (api.set_login_password args)

  unfoldable pub get_base_info : AuthGenericRequest → Action S GetBaseInfoResponse
  get_base_info args =
      authenticated args.token (base_info_failed formulate_jwt_error) api.get_base_info

  unfoldable pub get_service_info : AuthGenericRequest → Action S (GetServiceInfoResponse Float)
  get_service_info args =
      authenticated args.token (service_info_denied zero_float) api.get_service_info

  unfoldable pub get_service_status : Action S GetServiceStatusResponse
  get_service_status = api.get_service_status

  unfoldable pub update_base : UpdateBaseArgs → Action S ErrorResponse
  update_base args = authenticated args.token formulate_jwt_error (api.update_base args)

  unfoldable pub get_base_update_progress :
      AuthGenericRequest → Action S GetBaseUpdateProgressResponse
  get_base_update_progress args =
      authenticated args.token update_progress_denied api.get_base_update_progress

  unfoldable pub is_base_update_available :
      AuthGenericRequest → Action S IsBaseUpdateAvailableResponse
  is_base_update_available args =
      authenticated args.token update_available_denied api.is_base_update_available

  unfoldable pub finalize_setup_wizard : AuthGenericRequest → Action S ErrorResponse
  finalize_setup_wizard args =
      authenticated args.token formulate_jwt_error api.finalize_setup_wizard
