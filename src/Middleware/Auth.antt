-- ===== src/Middleware/Auth.antt =====
-- Logging in and changing the password: middleware/src/middleware.go (`UserAuthenticate`,
-- `UserChangePassword`) and middleware/src/util.go (`checkMiddlewareSetup`,
-- `getAuthStructure`).
pub mod Login
pub mod Change
pub mod Relogin
use bitbox_base.Base.{
  Bool, true, false, Option, none, some, List, [], ◌∷◌, Action, pure, gets, modify, ◌>>=◌, ◌>>◌,
  ltb, length, if◌then◌else◌,
}
use bitbox_base.Base.Text.{Text, text}
use bitbox_base.Base.Dict.{lookup, insert}
use bitbox_base.Rpcmessages.{
  ErrorCode, ErrorResponse, succeeded, failed, error_authentication_failed,
  error_authentication_username_not_found, error_authentication_password_incorrect,
  error_password_too_short, error_password_change_failed, error_password_change_username_not_exist,
  error_password_change_password_incorrect, UserAuthenticateArgs, UserAuthenticateResponse,
  UserChangePasswordArgs, SetupStatusResponse,
}
use bitbox_base.System.{System, GoError, Returns, UserAuthStruct, UsersMap}
use bitbox_base.System.Keys.{key_text, middleware_password_set, base_setup_done, middleware_auth}
use bitbox_base.Middleware.State.{State, M, outside, set_string}

abbrev pub initial_admin_password : Text
initial_admin_password = text "ICanHasPasword?"

-- A failed login carries no token.
abbrev pub refused : ErrorCode → Text → UserAuthenticateResponse
refused code message = record { error_response = some (failed code message); token = [] }

abbrev pub see_logs : Text
see_logs = text "authentication unsuccessful, see middleware logs for more information"

abbrev pub change_failed : ErrorResponse
change_failed = failed error_password_change_failed (text "password change unsuccessful")

module _ (sys : System) where
  abbrev set_flags : Bool → Returns Bool → M sys (Option GoError)
  set_flags password_set (_, some err) = pure (some err)
  set_flags password_set (done, none) = do
    modify (λ s. record s { is_middleware_password_set = password_set; is_base_setup_done = done })
    pure none

  abbrev read_base_setup : Returns Bool → M sys (Option GoError)
  read_base_setup (_, some err) = pure (some err)
  read_base_setup (password_set, none) = do
    done ← outside sys (sys.redis.get_bool (key_text base_setup_done))
    set_flags password_set done

  unfoldable pub check_middleware_setup : M sys (Option GoError)
  check_middleware_setup = do
    password_set ← outside sys (sys.redis.get_bool (key_text middleware_password_set))
    read_base_setup password_set

  abbrev unmarshal : Returns Text → M sys (Returns UsersMap)
  unmarshal (_, some err) = pure ([], some err)
  unmarshal (auth, none) = pure (sys.unmarshal_users auth)

  unfoldable pub get_auth_structure : M sys (Returns UsersMap)
  get_auth_structure = do
    auth ← outside sys (sys.redis.get_string (key_text middleware_auth))
    unmarshal auth

  abbrev answer_token : Returns Text → UserAuthenticateResponse
  answer_token (_, some err) =
      refused error_authentication_failed (text "authentication unsuccessful, jwt error")
  answer_token (token, none) = record { error_response = some succeeded; token = token }

  -- `UserAuthenticate` after the map is read.
  abbrev check_user : UserAuthenticateArgs → Option UserAuthStruct → M sys UserAuthenticateResponse
  check_user args none = pure (
      refused error_authentication_username_not_found
        (text "authentication unsuccessful, username not found"))
  check_user args (some user) = elim (sys.compare_hash user.bcrypted_password args.password) [
    | some err ↦ pure (
        refused error_authentication_password_incorrect
          (text "authentication unsuccessful, incorrect password"))
    | none ↦ do token ← outside sys (sys.generate_token args.username); pure (answer_token token)
  ]

  abbrev check_users : UserAuthenticateArgs → Returns UsersMap → M sys UserAuthenticateResponse
  check_users args (_, some err) = pure (refused error_authentication_failed see_logs)
  check_users args (users, none) = check_user args (lookup args.username users)

  unfoldable pub user_authenticate : UserAuthenticateArgs → M sys UserAuthenticateResponse
  user_authenticate args = do
    setup ← check_middleware_setup
    elim setup [
      | some err ↦
          pure (refused error_authentication_failed (text "authentication failed, redis error"))
      | none ↦ do users ← get_auth_structure; check_users args users
    ]

  -- The end of `UserChangePassword`: an error of the second write is only logged.
  unfoldable pub mark_password_set : M sys ErrorResponse
  mark_password_set s = if s.is_middleware_password_set then (succeeded, s) else mark s
    where
      mark : M sys ErrorResponse
      mark = do
        set_string sys (key_text middleware_password_set) (text "1")
        modify (λ t. record t { is_middleware_password_set = true })
        pure succeeded

  abbrev pub finish_store : Option GoError → M sys ErrorResponse
  finish_store (some err) = pure change_failed
  finish_store none = mark_password_set

  abbrev pub store_users : Returns Text → M sys ErrorResponse
  store_users (_, some err) = pure change_failed
  store_users (auth, none) = do
    stored ← set_string sys (key_text middleware_auth) auth
    finish_store stored

  abbrev pub replace_hash : Text → UsersMap → Returns Text → M sys ErrorResponse
  replace_hash username users (_, some err) = pure change_failed
  replace_hash username users (hash, none) = store_users (
      sys.marshal_users
        (insert username (record { bcrypted_password = hash; role = text "admin" }) users))

  abbrev pub change_user :
      UserChangePasswordArgs → UsersMap → Option UserAuthStruct → M sys ErrorResponse
  change_user args users none =
      pure (failed error_password_change_username_not_exist (text "username does not exist"))
  change_user args users (some user) =
      elim (sys.compare_hash user.bcrypted_password args.password) [
        | some err ↦ pure (
            failed error_password_change_password_incorrect
              (text "password change unsuccessful, current password was incorrect"))
        | none ↦ do
          hash ← outside sys (sys.generate_hash args.new_password)
          replace_hash args.username users hash
      ]

  abbrev pub change_users : UserChangePasswordArgs → Returns UsersMap → M sys ErrorResponse
  change_users args (_, some err) = pure (failed error_authentication_failed see_logs)
  change_users args (users, none) = change_user args users (lookup args.username users)

  -- `len` counts bytes here.
  unfoldable pub user_change_password : UserChangePasswordArgs → M sys ErrorResponse
  user_change_password args =
      let change : M sys ErrorResponse = (do users ← get_auth_structure; change_users args users) in
      if ltb (length args.new_password) 8
      then pure (
          failed error_password_too_short (
            text
              "password change unsuccessful, the password needs to be at least 8 characters in length"))
      else change

  unfoldable pub setup_status : M sys SetupStatusResponse
  setup_status = gets λ s. record {
    middleware_password_set = s.is_middleware_password_set;
    base_setup = s.is_base_setup_done;
  }
