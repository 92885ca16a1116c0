-- ===== src/Middleware/Info.antt =====
-- What the middleware tells of the Base: middleware/src/middleware.go (`GetBaseInfo`,
-- `GetServiceStatus`, `FinalizeSetupWizard`) and middleware/src/util.go (`getServiceInfo`,
-- `didServiceInfoChange`).
use bitbox_base.Base.{
  Bool, true, false, ◌&&◌, Option, none, some, List, [], ◌∷◌, pure, gets, ◌>>=◌, if◌then◌else◌,
}
use bitbox_base.Base.Text.{Text, text, text_eq}
use bitbox_base.Base.Int.{ℤ, pos, eqb_ℤ}
use bitbox_base.Rpcmessages.{
  ErrorResponse, succeeded, failed, error_prometheus_error, error_redis_error,
  error_systemd_service_start_failed, GetBaseInfoResponse, GetServiceInfoResponse,
  GetServiceStatusResponse, GetEnvResponse, same_bool, same_error_response,
}
use bitbox_base.System.{System, GoError, Returns}
use bitbox_base.System.Keys
use bitbox_base.System.Keys.{BaseRedisKey, key_text, BasePrometheusQuery, query_text}
use bitbox_base.Middleware.State.{State, M, outside, set_string}
use bitbox_base.Middleware.Scripts.{
  script_response, run_bbb_config_script, run_bbb_systemctl_script, check_systemd_service_status,
}

-- `ConvertErrorToErrorResponse` of the two clients.
unfoldable pub prometheus_error : GoError → ErrorResponse
prometheus_error err = failed error_prometheus_error err.message

unfoldable pub redis_error : GoError → ErrorResponse
redis_error err = failed error_redis_error err.message

-- A response that says no more than its error.
abbrev pub base_info_failed : ErrorResponse → GetBaseInfoResponse
base_info_failed e = record {
  error_response = some e;
  middleware_local_ip = [];
  middleware_port = [];
  middleware_tor_onion = [];
  is_ssh_password_login_enabled = false;
  free_diskspace = pos 0;
  total_diskspace = pos 0;
  base_version = [];
  bitcoind_version = [];
  lightningd_version = [];
  electrs_version = [];
}

abbrev pub service_status_failed : ErrorResponse → GetServiceStatusResponse
service_status_failed e = record {
  error_response = some e;
  hostname = [];
  status = [];
  is_tor_enabled = false;
  bitcoind_status = false;
  lightningd_status = false;
  electrs_status = false;
}

module _ (sys : System) where
  abbrev pub service_info_failed : Option ErrorResponse → GetServiceInfoResponse sys.Float
  service_info_failed e = record {
    error_response = e;
    bitcoind_blocks = pos 0;
    bitcoind_headers = pos 0;
    bitcoind_verification_progress = sys.zero_float;
    bitcoind_peers = pos 0;
    bitcoind_ibd = false;
    lightningd_blocks = pos 0;
    lightning_active_channels = pos 0;
    electrs_blocks = pos 0;
  }

  -- `value, err := call(); if err != nil { return fail(err) }`
  abbrev pub attempt : {A R : Type 0} → (GoError → R) → M sys (Returns A) → (A → M sys R) → M sys R
  attempt fail call continue s =
      let ((a, err), s') = call s in elim err [ some e ↦ (fail e, s') | none ↦ continue a s' ]

  abbrev pub read_string : BaseRedisKey → M sys (Returns Text)
  read_string key = outside sys (sys.redis.get_string (key_text key))

  abbrev pub read_bool : BaseRedisKey → M sys (Returns Bool)
  read_bool key = outside sys (sys.redis.get_bool (key_text key))

  abbrev query_int : BasePrometheusQuery → M sys (Returns ℤ)
  query_int query = outside sys (sys.prometheus.get_int (query_text query))

  -- `if err != nil { value = 0 }`
  abbrev or_zero : Returns ℤ → ℤ
  or_zero (n, none) = n
  or_zero (n, some err) = pos 0

  unfoldable pub get_service_info : M sys (GetServiceInfoResponse sys.Float)
  unfolding prometheus_error
  get_service_info = do
    let fail = λ (e : GoError). service_info_failed (some (prometheus_error e))
    blocks ← query_int Keys.bitcoin_block_count
    headers ← query_int Keys.bitcoin_header_count
    attempt fail
        (outside sys (sys.prometheus.get_float (query_text Keys.bitcoin_verification_progress)))
        λ progress. attempt fail (query_int Keys.bitcoin_peers) λ peers.
          attempt fail (query_int Keys.bitcoin_ibd) λ ibd. do
            lightningd ← query_int Keys.lightning_blocks
            channels ← query_int Keys.lightning_active_channels
            electrs ← query_int Keys.electrs_blocks
            pure (record {
              error_response = some succeeded;
              bitcoind_blocks = or_zero blocks;
              bitcoind_headers = or_zero headers;
              bitcoind_verification_progress = progress;
              bitcoind_peers = peers;
              bitcoind_ibd = eqb_ℤ ibd (pos 1);
              lightningd_blocks = or_zero lightningd;
              lightning_active_channels = or_zero channels;
              electrs_blocks = or_zero electrs;
            })

  -- `reflect.DeepEqual` on the response, which follows the pointer to the error response.
  unfoldable pub same_service_info :
      GetServiceInfoResponse sys.Float → GetServiceInfoResponse sys.Float → Bool
  same_service_info a b =
      same_error_response a.error_response b.error_response
      && (eqb_ℤ a.bitcoind_blocks b.bitcoind_blocks
          && (eqb_ℤ a.bitcoind_headers b.bitcoind_headers
              && (sys.float_equal a.bitcoind_verification_progress b.bitcoind_verification_progress
                  && (eqb_ℤ a.bitcoind_peers b.bitcoind_peers
                      && (same_bool a.bitcoind_ibd b.bitcoind_ibd
                          && (eqb_ℤ a.lightningd_blocks b.lightningd_blocks
                              && (eqb_ℤ a.lightning_active_channels b.lightning_active_channels
                                  && eqb_ℤ a.electrs_blocks b.electrs_blocks)))))))

  abbrev pub keep_service_info : GetServiceInfoResponse sys.Float → M sys Bool
  keep_service_info info s =
      if same_service_info info s.service_info
      then (false, s)
      else (true, record s { service_info = info })

  unfoldable pub did_service_info_change : M sys Bool
  unfolding get_service_info same_service_info
  did_service_info_change = do info ← get_service_info; keep_service_info info

  abbrev onion_if : Bool → M sys (Returns Text)
  onion_if tor s =
      let read = read_string Keys.middleware_onion in if tor then read s else (([], none), s)

  unfoldable pub get_base_info : M sys GetBaseInfoResponse
  unfolding prometheus_error redis_error
  get_base_info = do
    let prom = λ (e : GoError). base_info_failed (prometheus_error e)
    let red = λ (e : GoError). base_info_failed (redis_error e)
    attempt prom
        (outside sys (
          sys.prometheus.get_metric_string (query_text Keys.base_system_info)
            (text "base_ipaddress")))
        λ ip. do
          config ← gets State.config
          attempt red (read_bool Keys.tor_enabled) λ tor. attempt red (onion_if tor) λ onion.
              attempt red (read_string Keys.base_sshd_password_login) λ login.
                attempt prom (query_int Keys.base_free_diskspace) λ free.
                  attempt prom (query_int Keys.base_total_diskspace) λ total.
                    attempt red (read_string Keys.base_version) λ base.
                      attempt red (read_string Keys.bitcoind_version) λ bitcoind.
                        attempt red (read_string Keys.lightningd_version) λ lightningd.
                          attempt red (read_string Keys.electrs_version) λ electrs. pure (record {
                            error_response = some succeeded;
                            middleware_local_ip = ip;
                            middleware_port = config.middleware_port;
                            middleware_tor_onion = onion;
                            is_ssh_password_login_enabled = text_eq login (text "yes");
                            free_diskspace = free;
                            total_diskspace = total;
                            base_version = base;
                            bitcoind_version = bitcoind;
                            lightningd_version = lightningd;
                            electrs_version = electrs;
                          })

  -- Errors of systemctl are only logged.
  unfoldable pub get_service_status : M sys GetServiceStatusResponse
  unfolding redis_error
  get_service_status = do
    let fail = λ (e : GoError). service_status_failed (redis_error e)
    attempt fail (read_string Keys.base_hostname) λ hostname.
        attempt fail (read_bool Keys.tor_enabled) λ tor. do
          (bitcoind, _) ← check_systemd_service_status sys (text "bitcoind")
          (lightningd, _) ← check_systemd_service_status sys (text "lightningd")
          (electrs, _) ← check_systemd_service_status sys (text "electrs")
          pure (record {
            error_response = some succeeded;
            hostname = hostname;
            status = text "-PLACEHOLDER-";
            is_tor_enabled = tor;
            bitcoind_status = bitcoind;
            lightningd_status = lightningd;
            electrs_status = electrs;
          })

  unfoldable pub get_service_info_response : M sys (GetServiceInfoResponse sys.Float)
  get_service_info_response = gets State.service_info

  unfoldable pub system_env : M sys GetEnvResponse
  system_env =
      gets λ s. record { network = s.config.network; electrs_rpc_port = s.config.electrs_rpc_port }

  abbrev finish_setup : Option GoError → ErrorResponse
  finish_setup none = succeeded
  finish_setup (some err) = redis_error err

  abbrev pub after_start : Returns (List Text) → M sys ErrorResponse
  after_start (out, some err) =
      pure (script_response (error_systemd_service_start_failed ∷ []) (out, some err))
  after_start (out, none) = do
    stored ← set_string sys (key_text Keys.base_setup_done) (text "1")
    pure (finish_setup stored)

  abbrev pub after_enable : Returns (List Text) → M sys ErrorResponse
  after_enable (out, some err) = pure (script_response [] (out, some err))
  after_enable (out, none) = do
    result ← run_bbb_systemctl_script sys (text "start-bitcoin-services" ∷ [])
    after_start result

  unfoldable pub finalize_setup_wizard : M sys ErrorResponse
  finalize_setup_wizard = do
    result ← run_bbb_config_script sys (text "enable" ∷ text "bitcoin_services" ∷ [])
    after_enable result
