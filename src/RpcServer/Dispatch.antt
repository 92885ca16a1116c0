-- ===== src/RpcServer/Dispatch.antt =====
-- The requests and replies of the RPC server as data, and the method that serves each of them
-- (middleware/src/rpcserver/rpcserver.go).
use bitbox_base.Base.{Option, none, some, [], Action, pure, ◌>>=◌}
use bitbox_base.Base.Text.{Text}
use bitbox_base.Rpcmessages.{
  UserAuthenticateArgs, UserAuthenticateResponse, UserChangePasswordArgs, SetHostnameArgs,
  SetLoginPasswordArgs, ToggleSettingArgs, UpdateBaseArgs, AuthGenericRequest, ErrorResponse,
  SetupStatusResponse, GetEnvResponse, IsBaseUpdateAvailableResponse, GetBaseUpdateProgressResponse,
  GetBaseInfoResponse, GetServiceInfoResponse, GetServiceStatusResponse,
}
use bitbox_base.Middleware.Hostname.{Outcome, returns}
use bitbox_base.Middleware.Info.{base_info_failed}
use bitbox_base.RpcServer.Api.{MiddlewareApi}
use bitbox_base.RpcServer.Methods
use bitbox_base.RpcServer.Methods.{
  formulate_jwt_error, service_info_denied, update_progress_denied, update_available_denied,
}

pub data Request : Type 0 where
  get_setup_status : Request
  get_system_env : AuthGenericRequest → Request
  reindex_bitcoin : AuthGenericRequest → Request
  resync_bitcoin : AuthGenericRequest → Request
  backup_sysconfig : AuthGenericRequest → Request
  backup_hsm_secret : AuthGenericRequest → Request
  restore_sysconfig : AuthGenericRequest → Request
  restore_hsm_secret : AuthGenericRequest → Request
  user_authenticate : UserAuthenticateArgs → Request
  user_change_password : UserChangePasswordArgs → Request
  set_hostname : SetHostnameArgs → Request
  enable_tor : ToggleSettingArgs → Request
  enable_tor_middleware : ToggleSettingArgs → Request
  enable_tor_electrs : ToggleSettingArgs → Request
  enable_tor_ssh : ToggleSettingArgs → Request
  enable_clearnet_ibd : ToggleSettingArgs → Request
  shutdown_base : AuthGenericRequest → Request
  reboot_base : AuthGenericRequest → Request
  enable_root_login : ToggleSettingArgs → Request
  enable_ssh_password_login : ToggleSettingArgs → Request
  set_login_password : SetLoginPasswordArgs → Request
  get_base_info : AuthGenericRequest → Request
  get_service_info : AuthGenericRequest → Request
  get_service_status : Request
  update_base : UpdateBaseArgs → Request
  get_base_update_progress : AuthGenericRequest → Request
  is_base_update_available : AuthGenericRequest → Request
  finalize_setup_wizard : AuthGenericRequest → Request

pub data Reply (Float : Type 0) : Type 0 where
  setup_status : SetupStatusResponse → Reply Float
  env : GetEnvResponse → Reply Float
  plain : ErrorResponse → Reply Float
  login : UserAuthenticateResponse → Reply Float
  hostname_set : Outcome ErrorResponse → Reply Float
  base_info : GetBaseInfoResponse → Reply Float
  service_info : GetServiceInfoResponse Float → Reply Float
  service_status : GetServiceStatusResponse → Reply Float
  update_progress : GetBaseUpdateProgressResponse → Reply Float
  update_available : IsBaseUpdateAvailableResponse → Reply Float

-- The token that a request carries; `none` for the three methods that ask for none.
abbrev pub request_token : Request → Option Text
request_token get_setup_status = none
request_token (get_system_env args) = some args.token
request_token (reindex_bitcoin args) = some args.token
request_token (resync_bitcoin args) = some args.token
request_token (backup_sysconfig args) = some args.token
request_token (backup_hsm_secret args) = some args.token
request_token (restore_sysconfig args) = some args.token
request_token (restore_hsm_secret args) = some args.token
request_token (user_authenticate args) = none
request_token (user_change_password args) = some args.token
request_token (set_hostname args) = some args.token
request_token (enable_tor args) = some args.token
request_token (enable_tor_middleware args) = some args.token
request_token (enable_tor_electrs args) = some args.token
request_token (enable_tor_ssh args) = some args.token
request_token (enable_clearnet_ibd args) = some args.token
request_token (shutdown_base args) = some args.token
request_token (reboot_base args) = some args.token
request_token (enable_root_login args) = some args.token
request_token (enable_ssh_password_login args) = some args.token
request_token (set_login_password args) = some args.token
request_token (get_base_info args) = some args.token
request_token (get_service_info args) = some args.token
request_token get_service_status = none
request_token (update_base args) = some args.token
request_token (get_base_update_progress args) = some args.token
request_token (is_base_update_available args) = some args.token
request_token (finalize_setup_wizard args) = some args.token

module _ {S Float : Type 0} (api : MiddlewareApi S Float) (zero_float : Float) where
  abbrev answer : {R : Type 0} → (R → Reply Float) → Action S R → Action S (Reply Float)
  answer reply method = do r ← method; pure (reply r)

  unfoldable pub serve : Request → Action S (Reply Float)
  unfolding Methods.get_setup_status Methods.get_system_env Methods.reindex_bitcoin
      Methods.resync_bitcoin Methods.backup_sysconfig Methods.backup_hsm_secret
      Methods.restore_sysconfig Methods.restore_hsm_secret Methods.user_authenticate
      Methods.user_change_password Methods.set_hostname Methods.enable_tor
      Methods.enable_tor_middleware Methods.enable_tor_electrs Methods.enable_tor_ssh
      Methods.enable_clearnet_ibd Methods.shutdown_base Methods.reboot_base
      Methods.enable_root_login Methods.enable_ssh_password_login Methods.set_login_password
      Methods.get_base_info Methods.get_service_info Methods.get_service_status Methods.update_base
      Methods.get_base_update_progress Methods.is_base_update_available
      Methods.finalize_setup_wizard
  serve get_setup_status = answer setup_status (Methods.get_setup_status api zero_float)
  serve (get_system_env args) = answer env (Methods.get_system_env api zero_float args)
  serve (reindex_bitcoin args) = answer plain (Methods.reindex_bitcoin api zero_float args)
  serve (resync_bitcoin args) = answer plain (Methods.resync_bitcoin api zero_float args)
  serve (backup_sysconfig args) = answer plain (Methods.backup_sysconfig api zero_float args)
  serve (backup_hsm_secret args) = answer plain (Methods.backup_hsm_secret api zero_float args)
  serve (restore_sysconfig args) = answer plain (Methods.restore_sysconfig api zero_float args)
  serve (restore_hsm_secret args) = answer plain (Methods.restore_hsm_secret api zero_float args)
  serve (user_authenticate args) = answer login (Methods.user_authenticate api zero_float args)
  serve (user_change_password args) =
      answer plain (Methods.user_change_password api zero_float args)
  serve (set_hostname args) = answer hostname_set (Methods.set_hostname api zero_float args)
  serve (enable_tor args) = answer plain (Methods.enable_tor api zero_float args)
  serve (enable_tor_middleware args) =
      answer plain (Methods.enable_tor_middleware api zero_float args)
  serve (enable_tor_electrs args) = answer plain (Methods.enable_tor_electrs api zero_float args)
  serve (enable_tor_ssh args) = answer plain (Methods.enable_tor_ssh api zero_float args)
  serve (enable_clearnet_ibd args) = answer plain (Methods.enable_clearnet_ibd api zero_float args)
  serve (shutdown_base args) = answer plain (Methods.shutdown_base api zero_float args)
  serve (reboot_base args) = answer plain (Methods.reboot_base api zero_float args)
  serve (enable_root_login args) = answer plain (Methods.enable_root_login api zero_float args)
  serve (enable_ssh_password_login args) =
      answer plain (Methods.enable_ssh_password_login api zero_float args)
  serve (set_login_password args) = answer plain (Methods.set_login_password api zero_float args)
  serve (get_base_info args) = answer base_info (Methods.get_base_info api zero_float args)
  serve (get_service_info args) = answer service_info (Methods.get_service_info api zero_float args)
  serve get_service_status = answer service_status (Methods.get_service_status api zero_float)
  serve (update_base args) = answer plain (Methods.update_base api zero_float args)
  serve (get_base_update_progress args) =
      answer update_progress (Methods.get_base_update_progress api zero_float args)
  serve (is_base_update_available args) =
      answer update_available (Methods.is_base_update_available api zero_float args)
  serve (finalize_setup_wizard args) =
      answer plain (Methods.finalize_setup_wizard api zero_float args)

  -- What the implementation does for a request once its token is accepted.
  unfoldable pub perform : Request → Action S (Reply Float)
  perform get_setup_status = answer setup_status api.setup_status
  perform (get_system_env args) = answer env api.system_env
  perform (reindex_bitcoin args) = answer plain api.reindex_bitcoin
  perform (resync_bitcoin args) = answer plain api.resync_bitcoin
  perform (backup_sysconfig args) = answer plain api.backup_sysconfig
  perform (backup_hsm_secret args) = answer plain api.backup_hsm_secret
  perform (restore_sysconfig args) = answer plain api.restore_sysconfig
  perform (restore_hsm_secret args) = answer plain api.restore_hsm_secret
  perform (user_authenticate args) = answer login (api.user_authenticate args)
  perform (user_change_password args) = answer plain (api.user_change_password args)
  perform (set_hostname args) = answer hostname_set (api.set_hostname args)
  perform (enable_tor args) = answer plain (api.enable_tor args)
  perform (enable_tor_middleware args) = answer plain (api.enable_tor_middleware args)
  perform (enable_tor_electrs args) = answer plain (api.enable_tor_electrs args)
  perform (enable_tor_ssh args) = answer plain (api.enable_tor_ssh args)
  perform (enable_clearnet_ibd args) = answer plain (api.enable_clearnet_ibd args)
  perform (shutdown_base args) = answer plain api.shutdown_base
  perform (reboot_base args) = answer plain api.reboot_base
  perform (enable_root_login args) = answer plain (api.enable_root_login args)
  perform (enable_ssh_password_login args) = answer plain (api.enable_ssh_password_login args)
  perform (set_login_password args) = answer plain (api.set_login_password args)
  perform (get_base_info args) = answer base_info api.get_base_info
  perform (get_service_info args) = answer service_info api.get_service_info
  perform get_service_status = answer service_status api.get_service_status
  perform (update_base args) = answer plain (api.update_base args)
  perform (get_base_update_progress args) = answer update_progress api.get_base_update_progress
  perform (is_base_update_available args) = answer update_available api.is_base_update_available
  perform (finalize_setup_wizard args) = answer plain api.finalize_setup_wizard

-- The reply to a request whose token is refused.
unfoldable pub denied : {Float : Type 0} → Float → Request → Reply Float
denied zero_float (get_system_env args) = env (record { network = []; electrs_rpc_port = [] })
denied zero_float (set_hostname args) = hostname_set (returns formulate_jwt_error)
denied zero_float (get_base_info args) = base_info (base_info_failed formulate_jwt_error)
denied zero_float (get_service_info args) = service_info (service_info_denied zero_float)
denied zero_float (get_base_update_progress args) = update_progress update_progress_denied
denied zero_float (is_base_update_available args) = update_available update_available_denied
denied zero_float _ = plain formulate_jwt_error
