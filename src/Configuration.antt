-- ===== src/Configuration.antt =====
-- The read-only configuration of the middleware: middleware/src/configuration/configuration.go.
-- `Args` has the exported fields, `Configuration` the private ones behind getters; a getter is here
-- the projection of its field.
use bitbox_base.Base.{Bool}
use bitbox_base.Base.Text.{Text}

pub record Args : Type 0 where
  pub bbb_cmd_script : Text
  pub bbb_config_script : Text
  pub bbb_systemctl_script : Text
  pub electrs_rpc_port : Text
  pub image_update_info_url : Text
  pub middleware_port : Text
  pub middleware_version : Text
  pub network : Text
  pub notification_named_pipe_path : Text
  pub prometheus_url : Text
  pub redis_mock : Bool
  pub redis_port : Text

pub record Configuration : Type 0 where
  pub bbb_cmd_script : Text
  pub bbb_config_script : Text
  pub bbb_systemctl_script : Text
  pub electrs_rpc_port : Text
  pub image_update_info_url : Text
  pub middleware_port : Text
  pub middleware_version : Text
  pub network : Text
  pub notification_named_pipe_path : Text
  pub prometheus_url : Text
  pub redis_mock : Bool
  pub redis_port : Text

unfoldable pub new_configuration : Args → Configuration
new_configuration args = record {
  bbb_cmd_script = args.bbb_cmd_script;
  bbb_config_script = args.bbb_config_script;
  bbb_systemctl_script = args.bbb_systemctl_script;
  electrs_rpc_port = args.electrs_rpc_port;
  image_update_info_url = args.image_update_info_url;
  middleware_port = args.middleware_port;
  middleware_version = args.middleware_version;
  network = args.network;
  notification_named_pipe_path = args.notification_named_pipe_path;
  prometheus_url = args.prometheus_url;
  redis_mock = args.redis_mock;
  redis_port = args.redis_port;
}
