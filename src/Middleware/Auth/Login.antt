-- ===== src/Middleware/Auth/Login.antt =====
-- Who can log in: `UserAuthenticate` of middleware/src/middleware.go.
use bitbox_base.Base.{◌≡◌, refl, inl, inr, Option, none, some, arith, Option-cases}
use bitbox_base.Base.Dict.{lookup}
use bitbox_base.Rpcmessages.{succeeded, UserAuthenticateArgs, UserAuthenticateResponse}
use bitbox_base.System.{System, UserAuthStruct, UsersMap}
use bitbox_base.Middleware.State.{State}
use bitbox_base.Middleware.Auth.{
  check_middleware_setup, get_auth_structure, check_user, user_authenticate,
}

abbrev pub IsLoggedIn : UserAuthenticateResponse → Type 0
IsLoggedIn r = r.error_response ≡ some succeeded

module _ (sys : System) where
  -- The user is in the map with a hash that the password fits, and the token is the generated one.
  pub record Accepts (args : UserAuthenticateArgs) (users : UsersMap) (w : sys.World)
      (r : UserAuthenticateResponse) : Type 0 where
    pub user : UserAuthStruct
    pub found : lookup args.username users ≡ some user
    pub fits : sys.compare_hash user.bcrypted_password args.password ≡ none
    pub token : (sys.generate_token args.username w).0 ≡ (r.token, none)

  check_found-Accepts :
      (args : UserAuthenticateArgs) (users : UsersMap) (s : State sys) (o : Option UserAuthStruct)
      → lookup args.username users ≡ o
      → IsLoggedIn (check_user sys args o s).0
      → Accepts args users s.world (check_user sys args o s).0
  check_found-Accepts args users s none found ok = cc
  check_found-Accepts args users s (some user) found ok =
      elim (Option-cases (sys.compare_hash user.bcrypted_password args.password)) [
        | inr (err, wrong) ↦ ground arith
        | inl right ↦ record { user = user; found = found; fits = right; token = ground arith }
      ]

  check_user-Accepts :
      (args : UserAuthenticateArgs) (users : UsersMap) (s : State sys)
      → let (r, _) = check_user sys args (lookup args.username users) s in
        IsLoggedIn r → Accepts args users s.world r
  check_user-Accepts args users s ok =
      check_found-Accepts args users s (lookup args.username users) refl ok

  -- Once the flags and the map are read, the answer is that of the lookup.
  pub user_authenticate_read :
      (args : UserAuthenticateArgs) (s : State sys)
      → let (setup, t) = check_middleware_setup sys s in
        let (users, u) = get_auth_structure sys t in
        setup ≡ none
        → users.1 ≡ none
        → user_authenticate sys args s ≡ check_user sys args (lookup args.username users.0) u
  unfolding user_authenticate
  user_authenticate_read args s set read = ground arith

  -- A login succeeds only if the setup flags and the authentication structure were read from Redis,
  -- the structure holds the user, the stored hash fits the password, and the token is the one that
  -- was generated for the user name.
  pub user_authenticate_sound :
      (args : UserAuthenticateArgs) (s : State sys)
      → IsLoggedIn (user_authenticate sys args s).0
      → let (setup, t) = check_middleware_setup sys s in
        let (users, u) = get_auth_structure sys t in
        (setup ≡ none)
        × (users.1 ≡ none)
        × Accepts args users.0 u.world (user_authenticate sys args s).0
  unfolding user_authenticate
  user_authenticate_sound args s ok = elim (Option-cases (check_middleware_setup sys s).0) [
    | inr (err, bad) ↦ ground arith
    | inl set ↦ elim (Option-cases (get_auth_structure sys (check_middleware_setup sys s).1).0.1) [
      | inr (err, bad) ↦ ground arith
      | inl read ↦ (
        set,
        read,
        rw (user_authenticate_read args s set read)
            (check_user-Accepts args _ _ (rw (user_authenticate_read args s set read) at ok)),
      )
    ]
  ]
