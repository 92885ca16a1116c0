-- ===== src/System.antt =====
-- What the middleware calls and does not implement, over an unknown state `World` of the device: the
-- operating system, the Redis and Prometheus clients behind their methods, the HSM firmware API,
-- bcrypt, JSON, JSON web tokens and semantic versions. Every call may change the world, so nothing
-- is assumed of what other processes do between two calls.
pub mod Keys
use bitbox_base.Base.{Bool, Option, ℕ, List, Action}
use bitbox_base.Base.Text.{Text}
use bitbox_base.Base.Int.{ℤ}
use bitbox_base.Rpcmessages.{UpdateInfo}

-- A Go `error` that is not nil: its text, and the answer of `os.IsNotExist`.
pub record GoError : Type 0 where
  pub is_not_exist : Bool
  pub message : Text

-- A Go result `(value, err)`; `none` is a nil error.
abbrev pub Returns : Type 0 → Type 0
Returns A = A × Option GoError

-- The methods of the Go interface `redis.Redis` that the middleware calls.
pub record RedisClient (World : Type 0) : Type 0 where
  pub get_bool : Text → Action World (Returns Bool)
  pub get_string : Text → Action World (Returns Text)
  pub set_string : Text → Text → Action World (Option GoError)

-- The methods of `prometheus.Client` that the middleware calls.
pub record PrometheusClient (World Float : Type 0) : Type 0 where
  pub get_int : Text → Action World (Returns ℤ)
  pub get_float : Text → Action World (Returns Float)
  pub get_metric_string : Text → Text → Action World (Returns Text)

-- One entry of the authentication structure, `UserAuthStruct`.
pub record UserAuthStruct : Type 0 where
  pub bcrypted_password : Text
  pub role : Text

-- `map[string]UserAuthStruct`
abbrev pub UsersMap : Type 0
UsersMap = List (Text × UserAuthStruct)

-- What one run of `bbb-cmd.sh mender-update install` shows to the middleware: the errors of opening
-- the pipes and of starting it, its lines on stdout and the error that ended them, the lines that
-- were captured of stderr, and the result of `cmd.Wait`.
pub record MenderRun : Type 0 where
  pub stdout_pipe_error : Option GoError
  pub stderr_pipe_error : Option GoError
  pub start_error : Option GoError
  pub stdout_lines : List Text
  pub stdout_scan_error : Option GoError
  pub stderr_lines : List Text
  pub wait_error : Option GoError

pub record System : Type 1 where
  pub World : Type 0
  pub Float : Type 0
  pub SemVer : Type 0
  -- `exec.Command(command, args...).CombinedOutput()` and `exec.LookPath`.
  pub combined_output : Text → List Text → Action World (Returns Text)
  pub look_path : Text → Action World (Option GoError)
  pub mender_update : Text → List Text → Action World MenderRun
  pub redis : RedisClient World
  pub prometheus : PrometheusClient World Float
  pub zero_float : Float
  pub float_equal : Float → Float → Bool
  -- bcrypt: `CompareHashAndPassword hash password`, `GenerateFromPassword password 12`.
  pub compare_hash : Text → Text → Option GoError
  pub generate_hash : Text → Action World (Returns Text)
  -- encoding/json on the authentication structure and on the update information.
  pub marshal_users : UsersMap → Returns Text
  pub unmarshal_users : Text → Returns UsersMap
  -- `authentication.NewJwtAuth`, `JwtAuth.GenerateToken` and `JwtAuth.ValidateToken`; the clock is part of the world.
  pub new_jwt_auth : Action World (Option GoError)
  pub generate_token : Text → Action World (Returns Text)
  pub validate_token : Text → Action World (Option GoError)
  -- `net.ParseIP(ip).To4()`, `none` for nil, and the HSM's `BitBoxBaseSetConfig`.
  pub parse_ip4 : Text → Option Text
  pub hsm_set_config : Text → Text → Action World (Option GoError)
  pub hsm_confirm_pairing : Text → Action World (Option GoError)
  pub is_error_abort : Option GoError → Bool
  -- `getBaseUpdateInfo` and the package `semver`.
  pub get_update_info : Text → Action World (Returns UpdateInfo)
  pub new_semver_from_string : Text → Returns SemVer
  pub zero_semver : SemVer
  pub at_least : SemVer → SemVer → Bool
