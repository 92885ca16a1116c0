-- ===== src/Middleware/Start/Initial.antt =====
-- A Base whose password was never changed: `NewMiddleware` and then `UserAuthenticate` of
-- middleware/src/middleware.go.
use bitbox_base.Base.{
  ◌⊎◌, ◌≡◌, refl, ◌∙◌, Bool, false, Option, none, some, arith, Option-cases, inl, inr,
}
use bitbox_base.Base.Text.{Text, text, text_eq_self}
use bitbox_base.Base.Dict.{lookup}
use bitbox_base.Rpcmessages.{UserAuthenticateArgs}
use bitbox_base.Configuration.{Configuration}
use bitbox_base.System.{System, GoError, Returns}
use bitbox_base.System.Keys.{key_text, middleware_auth, middleware_password_set}
use bitbox_base.Middleware.State.{State}
use bitbox_base.Middleware.Auth.{initial_admin_password, check_middleware_setup, user_authenticate}
use bitbox_base.Middleware.Auth.Login.{IsLoggedIn}
use bitbox_base.Middleware.Auth.Change.{new_entry}
use bitbox_base.Middleware.Auth.Relogin.{
  LawfulRedis, LawfulSecrets, IsAscii, IsInterrupted, admin-IsAscii, user_authenticate-IsLoggedIn,
}
use bitbox_base.Middleware.Start.{
  new_middleware, initialize_auth_structure, initialize_checked, store_initial_hash,
  store_marshalled, initial_state, initial_users,
}

abbrev pub initial_login : UserAuthenticateArgs
initial_login = record { username = text "admin"; password = initial_admin_password }

module _ (sys : System) (redis : LawfulRedis sys) (secrets : LawfulSecrets sys) where
  -- Redis holds the initial user with a hash of the initial password.
  record HasInitialUser (w : sys.World) : Type 0 where
    auth : Text
    hash : Text
    held : redis.store.Holds (key_text middleware_auth) auth w
    marshalled : sys.marshal_users (initial_users hash) ≡ (auth, none)
    fits : sys.compare_hash hash initial_admin_password ≡ none
    ascii : IsAscii hash

  store_marshalled-HasInitialUser :
      (hash : Text) (m : Returns Text) (s : State sys)
      → (sys.compare_hash hash initial_admin_password ≡ none) × IsAscii hash
      → sys.marshal_users (initial_users hash) ≡ m
      → (store_marshalled sys m s).0 ≡ none
      → HasInitialUser (store_marshalled sys m s).1.world
  store_marshalled-HasInitialUser hash (auth, some err) s fits e done = cc
  store_marshalled-HasInitialUser hash (auth, none) s fits e done = record {
    auth = auth;
    hash = hash;
    held = redis.store.set_holds (key_text middleware_auth) auth s.world done;
    marshalled = e;
    fits = fits.0;
    ascii = fits.1;
  }

  store_initial_hash-HasInitialUser :
      (r : Returns Text) (s : State sys)
      → ((hash : Text)
          → r ≡ (hash, none)
          → (sys.compare_hash hash initial_admin_password ≡ none) × IsAscii hash)
      → (store_initial_hash sys r s).0 ≡ none
      → HasInitialUser (store_initial_hash sys r s).1.world
  store_initial_hash-HasInitialUser (hash, some err) s fits done = cc
  store_initial_hash-HasInitialUser (hash, none) s fits done =
      store_marshalled-HasInitialUser hash (sys.marshal_users (initial_users hash)) s
        (fits hash refl) refl done

  initialize_auth_structure-HasInitialUser :
      (s : State sys)
      → s.is_middleware_password_set ≡ false
      → (initialize_auth_structure sys s).0 ≡ none
      → HasInitialUser (initialize_auth_structure sys s).1.world
  unfolding initialize_auth_structure
  initialize_auth_structure-HasInitialUser s unset done =
      let (r, w) = sys.generate_hash initial_admin_password s.world in
      ground (
        arith,
        store_initial_hash-HasInitialUser r (record s { world = w })
            (λ hash e. secrets.compare_generate initial_admin_password hash s.world e),
      )

  -- The flag that `NewMiddleware` has read decides whether it writes.
  initialize_checked-HasInitialUser :
      (o : Option GoError) (s : State sys)
      → s.is_middleware_password_set ≡ false
      → (initialize_checked sys o s).0 ≡ none
      → HasInitialUser (initialize_checked sys o s).1.world
  initialize_checked-HasInitialUser (some err) s unset done = cc
  initialize_checked-HasInitialUser none s unset done =
      let t = (initialize_auth_structure sys s).1 in
      elim (Option-cases (initialize_auth_structure sys s).0) [
        | inl stored ↦
            let i = initialize_auth_structure-HasInitialUser s unset stored in
            rw stored (record {
              auth = i.auth;
              hash = i.hash;
              held = redis.new_jwt_auth_keeps (key_text middleware_auth) i.auth t.world i.held;
              marshalled = i.marshalled;
              fits = i.fits;
              ascii = i.ascii;
            })
        | inr (err, bad) ↦ ground arith
      ]

  check_middleware_setup-flag :
      (s : State sys)
      → (check_middleware_setup sys s).0 ≡ none
      → (check_middleware_setup sys s).1.is_middleware_password_set
        ≡ (sys.redis.get_bool (key_text middleware_password_set) s.world).0.0
  unfolding check_middleware_setup
  check_middleware_setup-flag s set = ground arith

  initialize_checked_set :
      (o : Option GoError) (s : State sys) → (initialize_checked sys o s).0 ≡ none → o ≡ none
  initialize_checked_set none s done = refl
  initialize_checked_set (some err) s done = cc

  -- A middleware that has just been started by `NewMiddleware` without an error, on a Base on which
  -- the flag of a set password read false, accepts the initial password of the user admin, unless
  -- Redis reports an error to the login or no token can be generated. This is for a Redis in which
  -- nothing else writes meanwhile, and for JSON and bcrypt that accept what they produced.
  pub user_authenticate-new_middleware :
      (config : Configuration) (hsm : Bool) (w : sys.World)
      → let (err, s) = new_middleware sys config hsm w in
        err ≡ none
        → (sys.redis.get_bool (key_text middleware_password_set) w).0.0 ≡ false
        → IsLoggedIn (user_authenticate sys initial_login s).0 ⊎ IsInterrupted sys initial_login s
  unfolding new_middleware lookup
  user_authenticate-new_middleware config hsm w started unset =
      let s = initial_state sys config hsm w in
      let (setup, t) = check_middleware_setup sys s in
      let set = initialize_checked_set setup t started in
      let u =
        initialize_checked-HasInitialUser setup t (check_middleware_setup-flag s set ∙ unset)
          started in
      user_authenticate-IsLoggedIn sys redis secrets initial_login
        (new_middleware sys config hsm w).1 u.auth (initial_users u.hash) (new_entry u.hash) u.held
        u.marshalled (rw (lookup, text_eq_self) refl) admin-IsAscii u.ascii admin-IsAscii u.fits
