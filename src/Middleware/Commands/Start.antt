-- ===== src/Middleware/Commands/Start.antt =====
-- The commands and writes of `NewMiddleware` and `Start` of middleware/src/middleware.go.
use bitbox_base.Base.{Bool, Option, none, some, refl, arith}
use bitbox_base.Base.Text.{Text}
use bitbox_base.Configuration.{Configuration}
use bitbox_base.System.{System, GoError, Returns}
use bitbox_base.System.Keys.{key_text, middleware_auth}
use bitbox_base.Middleware.State.{outside}
use bitbox_base.Middleware.Auth.{check_middleware_setup, initial_admin_password}
use bitbox_base.Middleware.Hostname.{Outcome, returns, panics, set_hsm_config}
use bitbox_base.Middleware.Loops.{read_version, start}
use bitbox_base.Middleware.Start.{
  initial_users, initial_state, store_marshalled, store_initial_hash, initialize_auth_structure,
  make_token_key, initialize_checked, new_middleware,
}
use bitbox_base.Middleware.Commands.{
  auth_key, IsSafe, Keeps, Keeps-outside, Keeps-set_string, Keeps-if, Keeps-same,
}
use bitbox_base.Middleware.Commands.Settings.{Keeps-set_hsm_config}

module _ (sys : System) (c : Configuration) where
  Keeps-store_marshalled : (r : Returns Text) → Keeps sys c (store_marshalled sys r)
  Keeps-store_marshalled (auth, some err) s h = h
  Keeps-store_marshalled (auth, none) s h =
      Keeps-set_string sys c (key_text middleware_auth) auth (auth_key auth) s h

  Keeps-store_initial_hash : (r : Returns Text) → Keeps sys c (store_initial_hash sys r)
  Keeps-store_initial_hash (hash, some err) s h = h
  Keeps-store_initial_hash (hash, none) s h =
      Keeps-store_marshalled (sys.marshal_users (initial_users hash)) s h

  Keeps-initialize_auth_structure : Keeps sys c (initialize_auth_structure sys)
  unfolding initialize_auth_structure
  Keeps-initialize_auth_structure s h =
      let hashing = sys.generate_hash initial_admin_password in
      let (hash, t) = outside sys hashing s in
      Keeps-if sys c s.is_middleware_password_set _ _ h
        (Keeps-store_initial_hash hash t (Keeps-outside sys c hashing s h))

  Keeps-make_token_key : (r : Option GoError) → Keeps sys c (make_token_key sys r)
  Keeps-make_token_key (some err) s h = h
  Keeps-make_token_key none s h = Keeps-outside sys c sys.new_jwt_auth s h

  Keeps-initialize_checked : (r : Option GoError) → Keeps sys c (initialize_checked sys r)
  Keeps-initialize_checked (some err) s h = h
  Keeps-initialize_checked none s h =
      let (stored, t) = initialize_auth_structure sys s in
      Keeps-make_token_key stored t (Keeps-initialize_auth_structure s h)

  Keeps-check_middleware_setup : Keeps sys c (check_middleware_setup sys)
  unfolding check_middleware_setup
  Keeps-check_middleware_setup s h =
      Keeps-same sys c s (check_middleware_setup sys s).1 (ground arith) (ground arith)
        (ground arith) h

  pub new_middleware-IsSafe :
      (hsm : Bool) (w : sys.World) → IsSafe sys c (new_middleware sys c hsm w).1
  unfolding new_middleware
  new_middleware-IsSafe hsm w =
      let s = initial_state sys c hsm w in
      let (setup, t) = check_middleware_setup sys s in
      Keeps-initialize_checked setup t
        (Keeps-check_middleware_setup s (record { configured = refl; calls = tt; scheduled = tt }))

  Keeps-read_version : (o : Outcome (Option GoError)) → Keeps sys c (read_version sys o)
  Keeps-read_version panics s h = h
  Keeps-read_version (returns err) s h = record {
    configured = h.configured;
    calls = h.calls;
    scheduled = h.scheduled;
  }

  pub Keeps-start : Keeps sys c (start sys)
  unfolding start
  Keeps-start s h =
      let (configured, t) = set_hsm_config sys s in
      Keeps-read_version configured t (Keeps-set_hsm_config sys c s h)
