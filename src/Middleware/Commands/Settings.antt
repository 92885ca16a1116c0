-- ===== src/Middleware/Commands/Settings.antt =====
-- The commands of the methods of middleware/src/middleware.go that change a setting or a password.
use bitbox_base.Base.{
  Option, none, some, List, [], ◌∷◌, arith, Bool-cases, Option-cases, inl, inr, leb, ltb, length,
}
use bitbox_base.Base.Text.{Text, text}
use bitbox_base.Base.Dict.{lookup}
use bitbox_base.Rpcmessages.{
  ErrorCode, ToggleSettingArgs, SetLoginPasswordArgs, SetHostnameArgs, UserAuthenticateArgs,
  UserChangePasswordArgs,
}
use bitbox_base.Configuration.{Configuration}
use bitbox_base.System.{System, GoError, Returns, UsersMap, UserAuthStruct}
use bitbox_base.System.Keys.{key_text, middleware_auth, middleware_password_set}
use bitbox_base.Middleware.State.{run, outside, set_string}
use bitbox_base.Middleware.Runes.{rune_count}
use bitbox_base.Middleware.Settings.{toggle, shutdown_base, reboot_base, set_login_password}
use bitbox_base.Middleware.Hostname.{
  returns, panics, ignore_error, Outcome, set_hsm_config, set_hostname, after_script, is_hostname,
}
use bitbox_base.Middleware.Scripts.{run_bbb_config_script, determine_enable_value}
use bitbox_base.Middleware.Auth.{
  check_middleware_setup, get_auth_structure, user_authenticate, mark_password_set, finish_store,
  store_users, replace_hash, change_user, change_users, user_change_password,
}
use bitbox_base.Middleware.Commands.{
  auth_key, password_key, shutdown, reboot, Keeps, Keeps-outside, Keeps-schedule, Keeps-set_string,
  Keeps-same, Keeps-if,
}
use bitbox_base.Middleware.Commands.Scripts.{Keeps-run_bbb_config_script}

module _ (sys : System) (c : Configuration) where
  pub Keeps-toggle :
      (setting : Text) (possible : List ErrorCode) (action : ToggleSettingArgs)
      → Keeps sys c (toggle sys setting possible action)
  unfolding toggle
  Keeps-toggle setting possible action s h =
      Keeps-run_bbb_config_script sys c (determine_enable_value action ∷ setting ∷ []) s h

  pub Keeps-shutdown_base : Keeps sys c (shutdown_base sys)
  unfolding shutdown_base
  Keeps-shutdown_base s h =
      let looked = Keeps-outside sys c (sys.look_path (text "shutdown")) s h in
      Keeps-if sys c s.config.redis_mock _ _ h
        (elim (Option-cases (sys.look_path (text "shutdown") s.world).0) [
          | inl found ↦ rw found (
              Keeps-schedule sys c (run (text "shutdown") (text "now" ∷ [])) shutdown
                (outside sys (sys.look_path (text "shutdown")) s).1 looked)
          | inr (err, missing) ↦ rw missing looked
        ])

  pub Keeps-reboot_base : Keeps sys c (reboot_base sys)
  unfolding reboot_base
  Keeps-reboot_base s h =
      let looked = Keeps-outside sys c (sys.look_path (text "reboot")) s h in
      Keeps-if sys c s.config.redis_mock _ _ h
        (elim (Option-cases (sys.look_path (text "reboot") s.world).0) [
          | inl found ↦ rw found (
              Keeps-schedule sys c (run (text "reboot") []) reboot
                (outside sys (sys.look_path (text "reboot")) s).1 looked)
          | inr (err, missing) ↦ rw missing looked
        ])

  pub Keeps-set_login_password :
      (args : SetLoginPasswordArgs) → Keeps sys c (set_login_password sys args)
  unfolding set_login_password
  Keeps-set_login_password args s h = elim (Bool-cases (leb 8 (rune_count args.login_password))) [
    | inl e ↦ rw e (
        Keeps-run_bbb_config_script sys c (text "set" ∷ text "loginpw" ∷ args.login_password ∷ []) s
          h)
    | inr e ↦ rw e h
  ]

  pub Keeps-set_hsm_config : Keeps sys c (set_hsm_config sys)
  unfolding set_hsm_config
  Keeps-set_hsm_config s h =
      Keeps-same sys c s (set_hsm_config sys s).1 (ground arith) (ground arith) (ground arith) h

  Keeps-ignore_error : (o : Outcome (Option GoError)) → Keeps sys c (ignore_error sys o)
  Keeps-ignore_error (returns err) s h = h
  Keeps-ignore_error panics s h = h

  Keeps-after_script : (r : Returns (List Text)) → Keeps sys c (after_script sys r)
  Keeps-after_script (out, some err) s h = h
  Keeps-after_script (out, none) s h =
      let (o, t) = set_hsm_config sys s in Keeps-ignore_error o t (Keeps-set_hsm_config s h)

  pub Keeps-set_hostname : (args : SetHostnameArgs) → Keeps sys c (set_hostname sys args)
  unfolding set_hostname
  Keeps-set_hostname args s h =
      let command = text "set" ∷ text "hostname" ∷ args.hostname ∷ [] in
      let (r, t) = run_bbb_config_script sys command s in
      elim (Bool-cases (is_hostname args.hostname)) [
        | inl e ↦ rw e (Keeps-after_script r t (Keeps-run_bbb_config_script sys c command s h))
        | inr e ↦ rw e h
      ]

  pub Keeps-user_authenticate :
      (args : UserAuthenticateArgs) → Keeps sys c (user_authenticate sys args)
  unfolding user_authenticate check_middleware_setup get_auth_structure
  Keeps-user_authenticate args s h =
      Keeps-same sys c s (user_authenticate sys args s).1 (ground arith) (ground arith)
        (ground arith) h

  Keeps-mark_password_set : Keeps sys c (mark_password_set sys)
  unfolding mark_password_set
  Keeps-mark_password_set s h =
      let key = key_text middleware_password_set in
      let stored = Keeps-set_string sys c key (text "1") (password_key (text "1")) s h in
      Keeps-if sys c s.is_middleware_password_set _ _ h (record {
        configured = stored.configured;
        calls = stored.calls;
        scheduled = stored.scheduled;
      })

  Keeps-finish_store : (r : Option GoError) → Keeps sys c (finish_store sys r)
  Keeps-finish_store (some err) s h = h
  Keeps-finish_store none s h = Keeps-mark_password_set s h

  Keeps-store_users : (r : Returns Text) → Keeps sys c (store_users sys r)
  Keeps-store_users (auth, some err) s h = h
  Keeps-store_users (auth, none) s h =
      let (r, t) = set_string sys (key_text middleware_auth) auth s in
      Keeps-finish_store r t
        (Keeps-set_string sys c (key_text middleware_auth) auth (auth_key auth) s h)

  Keeps-replace_hash :
      (username : Text) (users : UsersMap) (r : Returns Text)
      → Keeps sys c (replace_hash sys username users r)
  Keeps-replace_hash username users (hash, some err) s h = h
  Keeps-replace_hash username users (hash, none) s h = Keeps-store_users _ s h

  Keeps-change_user :
      (args : UserChangePasswordArgs) (users : UsersMap) (user : Option UserAuthStruct)
      → Keeps sys c (change_user sys args users user)
  Keeps-change_user args users none s h = h
  Keeps-change_user args users (some user) s h =
      elim (Option-cases (sys.compare_hash user.bcrypted_password args.password)) [
        | inl right ↦
            let (hash, t) = outside sys (sys.generate_hash args.new_password) s in
            rw (right, change_user)
              (Keeps-replace_hash args.username users hash t
                (Keeps-outside sys c (sys.generate_hash args.new_password) s h))
        | inr (err, wrong) ↦ rw (wrong, change_user) h
      ]

  Keeps-change_users :
      (args : UserChangePasswordArgs) (r : Returns UsersMap) → Keeps sys c (change_users sys args r)
  Keeps-change_users args (users, some err) s h = h
  Keeps-change_users args (users, none) s h =
      Keeps-change_user args users (lookup args.username users) s h

  Keeps-get_auth_structure : Keeps sys c (get_auth_structure sys)
  unfolding get_auth_structure
  Keeps-get_auth_structure s h =
      Keeps-same sys c s (get_auth_structure sys s).1 (ground arith) (ground arith) (ground arith) h

  pub Keeps-user_change_password :
      (args : UserChangePasswordArgs) → Keeps sys c (user_change_password sys args)
  unfolding user_change_password
  Keeps-user_change_password args s h =
      let (users, t) = get_auth_structure sys s in
      elim (Bool-cases (ltb (length args.new_password) 8)) [
        | inl e ↦ rw e h
        | inr e ↦ rw e (Keeps-change_users args users t (Keeps-get_auth_structure s h))
      ]
