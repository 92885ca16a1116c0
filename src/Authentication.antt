-- ===== src/Authentication.antt =====
-- The tokens of the middleware: middleware/src/authentication/authentication.go. The packages jwt-go,
-- crypto/rand and encoding/base64 and the clock are a parameter.
pub mod Expiry
pub mod Session
use bitbox_base.Base.{
  ℕ, ◌+◌, ◌*◌, ◌/◌, ◌^◌, Bool, false, Option, none, some, [], Action, if◌then◌else◌,
}
use bitbox_base.Base.Text.{Text, text}
use bitbox_base.System.{GoError, Returns}

-- `Claims`, with the `ExpiresAt` of its standard claims, in seconds since 1970.
pub record Claims : Type 0 where
  pub username : Text
  pub expires_at : ℕ

pub record Jwt (World : Type 0) : Type 1 where
  pub Token : Type 0
  -- `rand.Read` of a number of bytes and `base64.URLEncoding.EncodeToString`.
  pub read_random : ℕ → Action World (Returns Text)
  pub encode_to_string : Text → Text
  -- `time.Now()`, in nanoseconds since 1970.
  pub time_now : Action World ℕ
  -- `jwt.NewWithClaims(jwt.SigningMethodHS256, claims).SignedString(key)`
  pub signed_string : Claims → Text → Returns Text
  -- `jwt.ParseWithClaims` of a token, for the key that the callback returns, and `token.Valid`.
  pub parse_with_claims : Text → Text → Action World (Returns Token)
  pub is_valid : Token → Bool

pub record JwtAuth : Type 0 where
  pub jwt_key : Text

abbrev pub nanoseconds : ℕ
nanoseconds = 10 ^ 9

-- 24 hours.
abbrev pub lifetime : ℕ
lifetime = 24 * 3600 * nanoseconds

module _ {World : Type 0} (jwt : Jwt World) where
  -- `b` is nil beside an error.
  abbrev pub bytes_or_nil : Returns Text → Returns Text
  bytes_or_nil (b, some err) = ([], some err)
  bytes_or_nil (b, none) = (b, none)

  unfoldable pub generate_random_bytes : ℕ → Action World (Returns Text)
  generate_random_bytes n w = let (b, v) = jwt.read_random n w in (bytes_or_nil b, v)

  unfoldable pub generate_random_string : ℕ → Action World (Returns Text)
  generate_random_string s w =
      let (b, v) = generate_random_bytes s w in ((jwt.encode_to_string (b.0), b.1), v)

  abbrev pub auth_of : Returns Text → Returns JwtAuth
  auth_of (key, some err) = (record { jwt_key = [] }, some err)
  auth_of (key, none) = (record { jwt_key = key }, none)

  unfoldable pub new_jwt_auth : Action World (Returns JwtAuth)
  new_jwt_auth w = let (key, v) = generate_random_string 32 w in (auth_of key, v)

  abbrev pub token_or_empty : Returns Text → Returns Text
  token_or_empty (token, some err) = ([], some err)
  token_or_empty (token, none) = (token, none)

  abbrev pub claims_at : Text → ℕ → Claims
  claims_at username now = record {
    username = username;
    expires_at = (now + lifetime) / nanoseconds;
  }

  unfoldable pub generate_token : JwtAuth → Text → Action World (Returns Text)
  generate_token auth username w =
      let (now, v) = jwt.time_now w in
      (token_or_empty (jwt.signed_string (claims_at username now) auth.jwt_key), v)

  abbrev pub checked_token : Returns jwt.Token → Option GoError
  checked_token (token, some err) = some err
  checked_token (token, none) =
      if jwt.is_valid token
      then none
      else some (record { is_not_exist = false; message = text "invalid jwt token received" })

  unfoldable pub validate_token : JwtAuth → Text → Action World (Option GoError)
  validate_token auth token w =
      let (parsed, v) = jwt.parse_with_claims token auth.jwt_key w in (checked_token parsed, v)
