-- ===== src/Middleware/Start.antt =====
-- `NewMiddleware` of middleware/src/middleware.go.
pub mod Initial
use bitbox_base.Base.{
  Bool, true, false, Option, none, some, [], ◌∷◌, pure, ◌>>=◌, ◌>>◌, if◌then◌else◌,
}
use bitbox_base.Base.Text.{Text, text}
use bitbox_base.Base.Int.{pos}
use bitbox_base.Rpcmessages.{
  succeeded, not_in_progress, GetServiceInfoResponse, UpdateInfo, IsBaseUpdateAvailableResponse,
}
use bitbox_base.Configuration.{Configuration}
use bitbox_base.System.{System, GoError, Returns, UserAuthStruct, UsersMap}
use bitbox_base.System.Keys.{key_text, middleware_auth}
use bitbox_base.Middleware.State.{State, M, outside, set_string}
use bitbox_base.Middleware.Auth.{check_middleware_setup, initial_admin_password}

-- The zero value of `UpdateInfo`.
abbrev no_update_info : UpdateInfo
no_update_info = record { description = []; version = []; severity = [] }

-- The authentication structure with the initial password.
abbrev pub initial_users : Text → UsersMap
initial_users hash = (text "admin", record { bcrypted_password = hash; role = text "admin" }) ∷ []

module _ (sys : System) where
  -- The zero value of `GetServiceInfoResponse`.
  abbrev pub empty_service_info : GetServiceInfoResponse sys.Float
  empty_service_info = record {
    error_response = none;
    bitcoind_blocks = pos 0;
    bitcoind_headers = pos 0;
    bitcoind_verification_progress = sys.zero_float;
    bitcoind_peers = pos 0;
    bitcoind_ibd = false;
    lightningd_blocks = pos 0;
    lightning_active_channels = pos 0;
    electrs_blocks = pos 0;
  }

  -- The struct that `NewMiddleware` begins with.
  abbrev pub initial_state : Configuration → Bool → sys.World → State sys
  initial_state config hsm w = record {
    config = config;
    service_info = empty_service_info;
    base_update_progress = record {
      error_response = none;
      state = not_in_progress;
      progress_percentage = pos 0;
      progress_downloaded_kib = pos 0;
    };
    base_update_available = record {
      error_response = some succeeded;
      update_available = false;
      update_info = no_update_info;
    };
    current_version = sys.zero_semver;
    is_middleware_password_set = false;
    is_base_setup_done = false;
    has_hsm_firmware = hsm;
    world = w;
    calls = [];
    events = [];
    scheduled = [];
  }

  abbrev pub store_marshalled : Returns Text → M sys (Option GoError)
  store_marshalled (auth, some err) = pure (some err)
  store_marshalled (auth, none) = set_string sys (key_text middleware_auth) auth

  abbrev pub store_initial_hash : Returns Text → M sys (Option GoError)
  store_initial_hash (hash, some err) = pure (some err)
  store_initial_hash (hash, none) = store_marshalled (sys.marshal_users (initial_users hash))

  unfoldable pub initialize_auth_structure : M sys (Option GoError)
  initialize_auth_structure s =
      let store : M sys (Option GoError) = (do
        hash ← outside sys (sys.generate_hash initial_admin_password)
        store_initial_hash hash) in
      if s.is_middleware_password_set then (none, s) else store s

  abbrev pub make_token_key : Option GoError → M sys (Option GoError)
  make_token_key (some err) = pure (some err)
  make_token_key none = outside sys sys.new_jwt_auth

  abbrev pub initialize_checked : Option GoError → M sys (Option GoError)
  initialize_checked (some err) = pure (some err)
  initialize_checked none = do stored ← initialize_auth_structure; make_token_key stored

  -- The error that `NewMiddleware` returns, and the middleware that it returns if there is none.
  unfoldable pub new_middleware : Configuration → Bool → sys.World → Option GoError × State sys
  unfolding initialize_auth_structure
  new_middleware config hsm w =
      (do setup ← check_middleware_setup sys; initialize_checked setup) (initial_state config hsm w)
