-- ===== src/RpcServer/Implementation.antt =====
-- The middleware of middleware/src/middleware.go as an implementation of the interface `Middleware`.
use bitbox_base.System.{System}
use bitbox_base.Middleware.State.{State, outside}
use bitbox_base.Middleware.Flashdrive
use bitbox_base.Middleware.Settings
use bitbox_base.Middleware.Hostname
use bitbox_base.Middleware.Auth
use bitbox_base.Middleware.Update
use bitbox_base.Middleware.Info
use bitbox_base.RpcServer.Api.{MiddlewareApi}

unfoldable pub middleware_api : (sys : System) → MiddlewareApi (State sys) sys.Float
middleware_api sys = record {
  setup_status = Auth.setup_status sys;
  system_env = Info.system_env sys;
  reindex_bitcoin = Settings.reindex_bitcoin sys;
  resync_bitcoin = Settings.resync_bitcoin sys;
  backup_sysconfig = Flashdrive.backup_sysconfig sys;
  backup_hsm_secret = Flashdrive.backup_hsm_secret sys;
  restore_sysconfig = Flashdrive.restore_sysconfig sys;
  restore_hsm_secret = Flashdrive.restore_hsm_secret sys;
  user_authenticate = Auth.user_authenticate sys;
  user_change_password = Auth.user_change_password sys;
  set_hostname = Hostname.set_hostname sys;
  enable_tor = Settings.enable_tor sys;
  enable_tor_middleware = Settings.enable_tor_middleware sys;
  enable_tor_electrs = Settings.enable_tor_electrs sys;
  enable_tor_ssh = Settings.enable_tor_ssh sys;
  enable_clearnet_ibd = Settings.enable_clearnet_ibd sys;
  shutdown_base = Settings.shutdown_base sys;
  reboot_base = Settings.reboot_base sys;
  enable_root_login = Settings.enable_root_login sys;
  enable_ssh_password_login = Settings.enable_ssh_password_login sys;
  set_login_password = Settings.set_login_password sys;
  get_base_info = Info.get_base_info sys;
  get_service_info = Info.get_service_info_response sys;
  get_service_status = Info.get_service_status sys;
  update_base = Update.update_base sys;
  get_base_update_progress = Update.get_base_update_progress sys;
  is_base_update_available = Update.is_base_update_available sys;
  finalize_setup_wizard = Info.finalize_setup_wizard sys;
  validate_token = λ token. outside sys (sys.validate_token token);
}
