-- ===== src/Tests/Demo.antt =====
-- A small device to run the middleware on: a table of command outputs, a table of Redis keys, and
-- stand-ins for bcrypt, tokens and the HSM that are easy to follow by hand.
use bitbox_base.Base.{
  map, ◌%◌, ℕ, zero, ◌≡◌, refl, ap, Bool, true, false, Option, none, some, List, [], ◌∷◌, ◌++◌,
  if◌then◌else◌, leb, ◌==◌, Action,
}
use bitbox_base.Tests.Codec.{encode_texts, decode_texts, decode-encode_texts}
use bitbox_base.Base.Text.{Text, text, text_eq, join, has_prefix}
use bitbox_base.Base.Dict.{lookup, insert}
use bitbox_base.Base.Int.{pos}
use bitbox_base.Rpcmessages.{
  UpdateInfo, GetServiceInfoResponse, GetBaseUpdateProgressResponse, not_in_progress,
  BaseUpdateState,
}
use bitbox_base.Configuration.{Configuration}
use bitbox_base.System.{System, GoError, Returns, UsersMap, MenderRun}
use bitbox_base.Middleware.State.{State}

abbrev pub exit_error : GoError
exit_error = record { is_not_exist = false; message = text "exit status 1" }

pub record DemoWorld : Type 0 where
  pub outputs : List (Text × Returns Text)
  pub redis : List (Text × Text)
  pub mender : MenderRun

abbrev output_of : Option (Returns Text) → Returns Text
output_of none = ([], none)
output_of (some result) = result

unfoldable pub demo_output : Text → List Text → Action DemoWorld (Returns Text)
unfolding lookup join text_eq
demo_output command args w = (output_of (lookup (join (text " ") args) w.outputs), w)

abbrev pub value_of : Option Text → Text
value_of none = []
value_of (some t) = t

unfoldable pub demo_get : Text → Action DemoWorld (Returns Text)
unfolding lookup text_eq
demo_get key w = ((value_of (lookup key w.redis), none), w)

unfoldable pub demo_get_bool : Text → Action DemoWorld (Returns Bool)
unfolding lookup text_eq
demo_get_bool key w = ((text_eq (value_of (lookup key w.redis)) (text "1"), none), w)

unfoldable pub demo_set : Text → Text → Action DemoWorld (Option GoError)
unfolding insert text_eq
demo_set key value w = (none, record w { redis = insert key value w.redis })

user_texts : UsersMap → List Text
user_texts [] = []
user_texts ((name, user) ∷ users) = name ∷ user.bcrypted_password ∷ user.role ∷ user_texts users

users_of : List Text → UsersMap
users_of (name ∷ hash ∷ role ∷ rest) =
    (name, record { bcrypted_password = hash; role = role }) ∷ users_of rest
users_of _ = []

unfoldable pub demo_marshal : UsersMap → Text
unfolding encode_texts user_texts
demo_marshal users = encode_texts (user_texts users)

-- The first text is the empty one in front of the first length.
read_users : List Text → UsersMap
read_users [] = []
read_users (t ∷ texts) = users_of texts

unfoldable pub demo_unmarshal : Text → UsersMap
unfolding decode_texts users_of read_users
demo_unmarshal t = read_users (decode_texts zero t)

users_of-user_texts : (users : UsersMap) → users_of (user_texts users) ≡ users
unfolding users_of user_texts
users_of-user_texts [] = refl
users_of-user_texts ((name, user) ∷ users) = ap (λ m. (name, user) ∷ m) (users_of-user_texts users)

pub demo_unmarshal-demo_marshal : (users : UsersMap) → demo_unmarshal (demo_marshal users) ≡ users
unfolding demo_unmarshal demo_marshal
demo_unmarshal-demo_marshal users =
    rw (decode-encode_texts [] (user_texts users)) (users_of-user_texts users)

-- A hash is the password after an `h`, each byte modulo 128, and a token a text that begins with a
-- `t`.
unfoldable pub demo_hash : Text → Text
demo_hash password = b'h' ∷ map (λ c. c % 128) password

unfoldable pub demo_compare : Text → Text → Option GoError
unfolding text_eq demo_hash
demo_compare hash password = if text_eq hash (demo_hash password) then none else some exit_error

unfoldable pub demo_validate : Text → Action DemoWorld (Option GoError)
unfolding has_prefix
demo_validate token w = (if has_prefix token (b't' ∷ []) then none else some exit_error, w)

abbrev no_info : UpdateInfo
no_info = record { description = []; version = []; severity = [] }

abbrev pub demo : System
demo = record {
  World = DemoWorld;
  Float = ℕ;
  SemVer = ℕ;
  combined_output = demo_output;
  look_path = λ path w. (none, w);
  mender_update = λ command args w. (w.mender, w);
  redis = record { get_bool = demo_get_bool; get_string = demo_get; set_string = demo_set };
  prometheus = record {
    get_int = λ query w. ((pos 0, none), w);
    get_float = λ query w. ((0, none), w);
    get_metric_string = λ query metric w. ((text "1.2.3.4.5", none), w);
  };
  zero_float = 0;
  float_equal = λ a b. a == b;
  compare_hash = demo_compare;
  generate_hash = λ password w. ((demo_hash password, none), w);
  marshal_users = λ users. (demo_marshal users, none);
  unmarshal_users = λ t. (demo_unmarshal t, none);
  new_jwt_auth = λ w. (none, w);
  generate_token = λ name w. ((b't' ∷ name, none), w);
  validate_token = demo_validate;
  parse_ip4 = λ t. none;
  hsm_set_config = λ name ip w. (none, w);
  hsm_confirm_pairing = λ t w. (none, w);
  is_error_abort = λ err. false;
  get_update_info = λ url w. ((no_info, none), w);
  new_semver_from_string = λ t. (0, none);
  zero_semver = 0;
  at_least = λ a b. leb b a;
}

abbrev demo_config : Configuration
demo_config = record {
  bbb_cmd_script = text "/opt/bbb-cmd.sh";
  bbb_config_script = text "/opt/bbb-config.sh";
  bbb_systemctl_script = text "/opt/bbb-systemctl.sh";
  electrs_rpc_port = text "51002";
  image_update_info_url = text "https://example.org/update.json";
  middleware_port = text "8845";
  middleware_version = text "1.0.0";
  network = text "testnet";
  notification_named_pipe_path = text "/tmp/pipe";
  prometheus_url = text "http://localhost:9090";
  redis_mock = true;
  redis_port = text "6379";
}

abbrev no_service_info : GetServiceInfoResponse ℕ
no_service_info = record {
  error_response = none;
  bitcoind_blocks = pos 0;
  bitcoind_headers = pos 0;
  bitcoind_verification_progress = 0;
  bitcoind_peers = pos 0;
  bitcoind_ibd = false;
  lightningd_blocks = pos 0;
  lightning_active_channels = pos 0;
  electrs_blocks = pos 0;
}

-- An installation that downloads, then applies, then ends well.
abbrev pub mender_run : MenderRun
mender_run = record {
  stdout_pipe_error = none;
  stderr_pipe_error = none;
  start_error = none;
  stdout_lines =
      text "................................   0% 1024 KiB"
      ∷ text "unrelated"
      ∷ text "................................  99% 9000 KiB"
      ∷ [];
  stdout_scan_error = none;
  stderr_lines = [];
  wait_error = none;
}

abbrev pub demo_world : List (Text × Returns Text) → DemoWorld
demo_world outputs = record {
  outputs = outputs;
  redis =
      (text "middleware:auth", 5 ∷ (text "admin" ++ (3 ∷ (text "hpw" ++ (5 ∷ text "admin"))))) ∷ [];
  mender = mender_run;
}

abbrev pub demo_progress : BaseUpdateState → GetBaseUpdateProgressResponse
demo_progress state = record {
  error_response = none;
  state = state;
  progress_percentage = pos 0;
  progress_downloaded_kib = pos 0;
}

abbrev pub demo_state : BaseUpdateState → DemoWorld → State demo
demo_state state w = record {
  config = demo_config;
  service_info = no_service_info;
  base_update_progress = demo_progress state;
  base_update_available = record {
    error_response = none;
    update_available = false;
    update_info = no_info;
  };
  current_version = 0;
  is_middleware_password_set = false;
  is_base_setup_done = false;
  has_hsm_firmware = true;
  world = w;
  calls = [];
  events = [];
  scheduled = [];
}

abbrev pub idle : State demo
idle = demo_state not_in_progress (demo_world [])
