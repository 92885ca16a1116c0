-- ===== src/Tests/Tokens.antt =====
-- Tokens of a day, in a world where the number of entries in Redis counts the days.
use bitbox_base.Base.{
  ℕ, ◌*◌, ◌/◌, ◌&&◌, true, none, some, [], ◌∷◌, ◌≡◌, refl, ap, subst, arith, leb, if◌then◌else◌,
  length,
}
use bitbox_base.Base.Text.{Text, text, text_eq, text_eq_self}
use bitbox_base.System.{System, Returns}
use bitbox_base.Middleware.State.{State}
use bitbox_base.RpcServer.Dispatch.{Request, serve, denied}
use bitbox_base.RpcServer.Implementation.{middleware_api}
use bitbox_base.Authentication.{
  Jwt, JwtAuth, nanoseconds, new_jwt_auth, generate_random_bytes, generate_random_string,
  generate_token, validate_token,
}
use bitbox_base.Authentication.Expiry.{LawfulJwt}
use bitbox_base.Authentication.Session.{validated, serve-generate_token}
use bitbox_base.Tests.Demo.{DemoWorld, demo, idle, exit_error}

abbrev days : DemoWorld → ℕ
days w = length w.redis * (24 * 3600 * nanoseconds)

-- A token is the expiry before the key.
unfoldable parse : Text → Text → DemoWorld → Returns (Unit {0})
parse [] key w = (tt, some exit_error)
parse (expiry ∷ signature) key w =
    if text_eq signature key && leb (days w / nanoseconds) expiry
    then (tt, none)
    else (tt, some exit_error)

abbrev demo_jwt : Jwt DemoWorld
demo_jwt = record {
  Token = Unit {0};
  read_random = λ n w. ((text "random", none), w);
  encode_to_string = λ b. b;
  time_now = λ w. (days w, w);
  signed_string = λ claims key. (claims.expires_at ∷ key, none);
  parse_with_claims = λ token key w. (parse token key w, w);
  is_valid = λ t. true;
}

signed_parse :
    (expiry : ℕ) (key token : Text) (w : DemoWorld)
    → ◌≡◌ {A = Returns Text} (expiry ∷ key, none) (token, none)
    → parse token key w
      ≡ (if leb (days w / nanoseconds) expiry then (tt, none) else (tt, some exit_error))
unfolding parse
signed_parse expiry key token w signed =
    subst
      (λ t.
        parse t key w
        ≡ (if leb (days w / nanoseconds) expiry then (tt, none) else (tt, some exit_error)))
      (ap (λ r. r.0) signed) (rw (text_eq_self key) refl)

abbrev lawful : LawfulJwt demo_jwt
lawful = record {
  clock = days;
  reads_clock = λ w. refl;
  accepts = λ claims key token w signed early.
      (tt, rw (signed_parse claims.expires_at key token w signed) (ground arith), refl);
  expires = λ claims key token w signed positive late.
      (tt, exit_error, rw (signed_parse claims.expires_at key token w signed) (ground arith));
}

abbrev auth : JwtAuth
auth = record { jwt_key = text "random" }

auth_made : (w : DemoWorld) → new_jwt_auth demo_jwt w ≡ ((auth, none), w)
unfolding new_jwt_auth generate_random_string generate_random_bytes
auth_made w = refl

-- A device whose middleware validates these tokens.
abbrev device : System
device = record demo { validate_token = λ token w. validate_token demo_jwt auth token w }

abbrev token_of : ℕ → Text
token_of expiry = expiry ∷ text "random"

-- The idle device, with as many entries in Redis.
abbrev at_world : DemoWorld → State device
at_world w = record {
  config = idle.config;
  service_info = idle.service_info;
  base_update_progress = idle.base_update_progress;
  base_update_available = idle.base_update_available;
  current_version = idle.current_version;
  is_middleware_password_set = idle.is_middleware_password_set;
  is_base_setup_done = idle.is_base_setup_done;
  has_hsm_firmware = idle.has_hsm_firmware;
  world = w;
  calls = [];
  events = [];
  scheduled = [];
}

abbrev reboot : Request
reboot = Request.reboot_base (record { token = token_of 172800 })

abbrev third_day : State device
third_day = at_world (record (idle.world) { redis = ([], []) ∷ ([], []) ∷ idle.world.redis })

token_made : (generate_token demo_jwt auth (text "admin") idle.world).0 ≡ (token_of 172800, none)
unfolding generate_token
token_made = refl

accepted_next_day :
    (validate_token demo_jwt auth
      (token_of 172800)
      (record (idle.world) { redis = ([], []) ∷ idle.world.redis })).0
    ≡ none
unfolding validate_token parse text text_eq
accepted_next_day = refl

serve-generate_token_example :
    serve (middleware_api device) 0 reboot third_day
    ≡ (denied 0 reboot, validated device demo_jwt lawful auth (token_of 172800) third_day)
serve-generate_token_example =
    serve-generate_token device demo_jwt lawful auth (λ token w. refl) reboot third_day
      (text "admin") (token_of 172800) idle.world token_made refl
