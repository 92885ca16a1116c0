-- ===== src/Middleware/Auth/Relogin.antt =====
-- After a password change the new password logs in: `UserChangePassword` and `UserAuthenticate` of
-- middleware/src/middleware.go over a Redis in which nothing else writes meanwhile. Any call of Redis
-- may fail.
use bitbox_base.Base.{
  sym, subst, All, ◌<◌, ◌⊎◌, inl, inr, Option-cases, ◌≡◌, ap, ◌∙◌, ◌≢◌, Bool, true, false, Option,
  none, some, arith,
}
use bitbox_base.Base.Text.{Text, text}
use bitbox_base.Base.Dict.{lookup, insert, lookup-insert_self}
use bitbox_base.Rpcmessages.{UserAuthenticateArgs, UserChangePasswordArgs}
use bitbox_base.System.{System, UserAuthStruct, UsersMap}
use bitbox_base.Redis.Kept.{LawfulStore}
use bitbox_base.System.Keys.{key_text, middleware_auth, middleware_password_set, base_setup_done}
use bitbox_base.Middleware.State.{State}
use bitbox_base.Middleware.Auth.{
  check_middleware_setup, get_auth_structure, check_user, user_authenticate, user_change_password,
}
use bitbox_base.Middleware.Auth.Login.{IsLoggedIn, user_authenticate_read}
use bitbox_base.Middleware.Auth.Change.{flag_world, new_entry, user_change_password_sound}

-- JSON keeps a text of these bytes as it is.
abbrev pub IsAscii : Text → Type 0
IsAscii = All (λ c. c < 128)

pub admin-IsAscii : IsAscii (text "admin")
unfolding text
admin-IsAscii = omega arith

module _ (sys : System) where
  -- Redis keeps what is written to it, and a new token key is nothing to it.
  pub record LawfulRedis : Type 1 where
    pub store : LawfulStore sys.World sys.redis
    pub new_jwt_auth_keeps :
        (k v : Text) (w : sys.World) → store.Holds k v w → store.Holds k v (sys.new_jwt_auth w).1

  -- JSON reads back what it wrote, for a name and an entry in ASCII. bcrypt accepts the password that
  -- it hashed, and its hashes are in ASCII.
  pub record LawfulSecrets : Type 0 where
    pub unmarshal_marshal :
        (m : UsersMap) (t name : Text) (user : UserAuthStruct)
        → sys.marshal_users m ≡ (t, none)
        → lookup name m ≡ some user
        → IsAscii name
        → IsAscii user.bcrypted_password
        → IsAscii user.role
        → ((sys.unmarshal_users t).1 ≡ none) × (lookup name (sys.unmarshal_users t).0 ≡ some user)
    pub compare_generate :
        (password hash : Text) (w : sys.World)
        → (sys.generate_hash password w).0 ≡ (hash, none)
        → (sys.compare_hash hash password ≡ none) × IsAscii hash

  keys_differ : key_text middleware_auth ≢ key_text middleware_password_set
  unfolding key_text text
  keys_differ = λ e. cc

  check_user-IsLoggedIn :
      (args : UserAuthenticateArgs) (o : Option UserAuthStruct) (user : UserAuthStruct)
      (s : State sys)
      → o ≡ some user
      → sys.compare_hash user.bcrypted_password args.password ≡ none
      → (sys.generate_token args.username s.world).0.1 ≡ none
      → IsLoggedIn (check_user sys args o s).0
  check_user-IsLoggedIn args none user s found fits token = cc
  check_user-IsLoggedIn args (some _) user s found fits token = ground arith

  -- What keeps a login from an answer about the user and the password: Redis reports an error for a
  -- flag of the setup or for the structure of the users, or no token can be generated.
  abbrev pub IsInterrupted : UserAuthenticateArgs → State sys → Type 0
  IsInterrupted args s =
      let (setup, t) = check_middleware_setup sys s in
      let (_, u) = get_auth_structure sys t in
      (setup ≢ none)
      ⊎ (((sys.redis.get_string (key_text middleware_auth) t.world).0.1 ≢ none)
          ⊎ ((sys.generate_token args.username u.world).0.1 ≢ none))

  -- The second flag is read unless the first one fails.
  check_middleware_setup-world :
      (s : State sys)
      → let (_, w) = sys.redis.get_bool (key_text middleware_password_set) s.world in
        let (_, v) = sys.redis.get_bool (key_text base_setup_done) w in
        let t = (check_middleware_setup sys s).1 in (t.world ≡ w) ⊎ (t.world ≡ v)
  unfolding check_middleware_setup
  check_middleware_setup-world s = ground arith

  get_auth_structure-unmarshal_users :
      (s : State sys) (auth : Text)
      → let (read, _) = sys.redis.get_string (key_text middleware_auth) s.world in
        read.1 ≡ none → read.0 ≡ auth → (get_auth_structure sys s).0 ≡ sys.unmarshal_users auth
  unfolding get_auth_structure
  get_auth_structure-unmarshal_users s auth done read = ground arith

  module _ (redis : LawfulRedis) (secrets : LawfulSecrets) where
    flag_world-Holds :
        (set : Bool) (auth : Text) (w : sys.World)
        → redis.store.Holds (key_text middleware_auth) auth w
        → redis.store.Holds (key_text middleware_auth) auth (flag_world sys set w)
    flag_world-Holds true auth w held = held
    flag_world-Holds false auth w held = redis.store.set_other _ auth _ _ w keys_differ held

    pub check_middleware_setup-Holds :
        (s : State sys) (k v : Text)
        → redis.store.Holds k v s.world
        → redis.store.Holds k v (check_middleware_setup sys s).1.world
    check_middleware_setup-Holds s k v held =
        let (_, w) = sys.redis.get_bool (key_text middleware_password_set) s.world in
        let first =
          redis.store.get_bool_keeps k v (key_text middleware_password_set) s.world held in
        let second = redis.store.get_bool_keeps k v (key_text base_setup_done) w first in
        elim (check_middleware_setup-world s) [
          | inl e ↦ subst (redis.store.Holds k v) (sym e) first
          | inr e ↦ subst (redis.store.Holds k v) (sym e) second
        ]

    -- A stored map in which the password fits the user's hash lets the user in.
    pub user_authenticate-IsLoggedIn :
        (args : UserAuthenticateArgs) (s : State sys) (auth : Text) (users : UsersMap)
        (user : UserAuthStruct)
        → redis.store.Holds (key_text middleware_auth) auth s.world
        → sys.marshal_users users ≡ (auth, none)
        → lookup args.username users ≡ some user
        → IsAscii args.username
        → IsAscii user.bcrypted_password
        → IsAscii user.role
        → sys.compare_hash user.bcrypted_password args.password ≡ none
        → IsLoggedIn (user_authenticate sys args s).0 ⊎ IsInterrupted args s
    user_authenticate-IsLoggedIn args s auth users user held marshalled found name hash role fits =
        let (setup, t) = check_middleware_setup sys s in
        let (_, u) = get_auth_structure sys t in
        let here = check_middleware_setup-Holds s _ auth held in
        let (parsed, kept) =
          secrets.unmarshal_marshal users auth args.username user marshalled found name hash role in
        elim (Option-cases setup) [
          | inr (err, bad) ↦ inr (inl (λ e. cc))
          | inl set ↦
              elim (Option-cases (sys.redis.get_string (key_text middleware_auth) t.world).0.1) [
                | inr (err, bad) ↦ inr (inr (inl (λ e. cc)))
                | inl done ↦
                    let got =
                      get_auth_structure-unmarshal_users t auth done
                        (redis.store.get_held _ auth t.world here done) in
                    elim (Option-cases (sys.generate_token args.username u.world).0.1) [
                      | inr (err, bad) ↦ inr (inr (inr (λ e. cc)))
                      | inl token ↦ inl (
                          rw (user_authenticate_read sys args s set (ap (λ p. p.1) got ∙ parsed)) (
                            check_user-IsLoggedIn args _ user u
                              (ap (λ (p : UsersMap × Option _). lookup args.username p.0) got
                                ∙ kept)
                              fits token))
                    ]
              ]
        ]

    -- After a password change that reports success, for a user name in ASCII, the next login with the
    -- new password succeeds, unless Redis reports an error to it or no token can be generated. This
    -- is for a Redis in which nothing else writes meanwhile, and for JSON and bcrypt that accept what
    -- they produced.
    pub user_authenticate-user_change_password :
        (args : UserChangePasswordArgs) (s : State sys)
        → IsAscii args.username
        → (user_change_password sys args s).0.success ≡ true
        → let login : UserAuthenticateArgs = record {
          username = args.username;
          password = args.new_password;
        } in
          let t = (user_change_password sys args s).1 in
          IsLoggedIn (user_authenticate sys login t).0 ⊎ IsInterrupted login t
    user_authenticate-user_change_password args s ascii ok =
        let (long, read, c) = user_change_password_sound sys args s ok in
        let (users, u) = get_auth_structure sys s in
        let (fits, hash) = secrets.compare_generate args.new_password c.hash u.world c.hashed in
        user_authenticate-IsLoggedIn
          (record { username = args.username; password = args.new_password })
          (user_change_password sys args s).1 c.auth
          (insert args.username (new_entry c.hash) users.0) (new_entry c.hash)
          (rw c.world (
            flag_world-Holds u.is_middleware_password_set c.auth _
              (redis.store.set_holds _ c.auth _ c.stored)))
          c.marshalled (lookup-insert_self args.username (new_entry c.hash) users.0) ascii hash
          admin-IsAscii fits
