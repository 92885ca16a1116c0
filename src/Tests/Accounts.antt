-- ===== src/Tests/Accounts.antt =====
-- Logging in and changing a password.
use bitbox_base.Base.{◌⊎◌, ◌≡◌, refl, ◌≤◌, true, none, length}
use bitbox_base.Base.Text.{Text, text}
use bitbox_base.Rpcmessages.{UserAuthenticateArgs, UserChangePasswordArgs}
use bitbox_base.System.Keys.{key_text}
use bitbox_base.Middleware.Auth.{
  check_middleware_setup, get_auth_structure, user_authenticate, user_change_password,
  mark_password_set,
}
use bitbox_base.Middleware.Auth.Login.{Accepts, IsLoggedIn, user_authenticate_sound}
use bitbox_base.Middleware.Auth.Change.{Changed, user_change_password_sound}
use bitbox_base.Middleware.Auth.Relogin.{
  IsInterrupted, admin-IsAscii, user_authenticate-user_change_password,
}
use bitbox_base.Middleware.Start.{new_middleware}
use bitbox_base.Middleware.Start.Initial.{initial_login, user_authenticate-new_middleware}
use bitbox_base.Tests.Laws.{demo-LawfulRedis, demo-LawfulSecrets}
use bitbox_base.Tests.Demo.{
  demo, idle, demo_get, demo_get_bool, demo_set, demo_compare, demo_marshal, demo_unmarshal,
}

abbrev login_args : UserAuthenticateArgs
login_args = record { username = text "admin"; password = text "pw" }

user_authenticate_sound_example :
    let (setup, t) = check_middleware_setup demo idle in
    let (users, u) = get_auth_structure demo t in
    (setup ≡ none)
    × (users.1 ≡ none)
    × Accepts demo login_args users.0 u.world (user_authenticate demo login_args idle).0
unfolding check_middleware_setup get_auth_structure user_authenticate demo_get demo_get_bool
    demo_compare demo_unmarshal key_text text
user_authenticate_sound_example = user_authenticate_sound demo login_args idle refl

abbrev change_args : Text → UserChangePasswordArgs
change_args new = record {
  username = text "admin";
  password = text "pw";
  new_password = new;
  token = text "t";
}

user_change_password_sound_example :
    let (users, u) = get_auth_structure demo idle in
    (8 ≤ length (text "12345678"))
    × (users.1 ≡ none)
    × Changed demo
        (change_args (text "12345678"))
        users.0
        u
        (user_change_password demo (change_args (text "12345678")) idle).1
unfolding get_auth_structure user_change_password demo_get demo_set demo_compare demo_marshal
    demo_unmarshal mark_password_set key_text text
user_change_password_sound_example =
    user_change_password_sound demo (change_args (text "12345678")) idle refl

abbrev new_login : UserAuthenticateArgs
new_login = record { username = text "admin"; password = text "12345678" }

user_authenticate-user_change_password_example :
    let t = (user_change_password demo (change_args (text "12345678")) idle).1 in
    IsLoggedIn (user_authenticate demo new_login t).0 ⊎ IsInterrupted demo new_login t
unfolding get_auth_structure user_change_password demo_get demo_set demo_compare demo_marshal
    demo_unmarshal mark_password_set key_text text
user_authenticate-user_change_password_example =
    user_authenticate-user_change_password demo demo-LawfulRedis demo-LawfulSecrets
      (change_args (text "12345678")) idle admin-IsAscii refl

user_authenticate-new_middleware_example :
    let s = (new_middleware demo idle.config true idle.world).1 in
    IsLoggedIn (user_authenticate demo initial_login s).0 ⊎ IsInterrupted demo initial_login s
unfolding new_middleware check_middleware_setup demo_get_bool demo_set key_text text
user_authenticate-new_middleware_example =
    user_authenticate-new_middleware demo demo-LawfulRedis demo-LawfulSecrets idle.config true
      idle.world refl refl
