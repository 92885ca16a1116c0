-- ===== src/Authentication/Expiry.antt =====
-- How long a token of middleware/src/authentication/authentication.go is accepted.
use bitbox_base.Base.{
  ℕ, ◌+◌, ◌/◌, ◌≤◌, ◌<◌, true, none, some, ◌≡◌, refl, arith, ltb, is_some, Bool-cases, inl, inr,
}
use bitbox_base.Base.Text.{Text}
use bitbox_base.System.{GoError, Returns}
use bitbox_base.Authentication.{
  Claims, Jwt, JwtAuth, nanoseconds, lifetime, token_or_empty, claims_at, generate_token,
  validate_token,
}

-- What the documentation of jwt-go says: a token that was signed with the key is parsed, with an
-- error if its expiry is past.
pub record LawfulJwt {World : Type 0} (jwt : Jwt World) : Type 0 where
  pub clock : World → ℕ
  pub reads_clock : (w : World) → (jwt.time_now w).0 ≡ clock w
  pub accepts :
      (claims : Claims) (key token : Text) (w : World)
      → jwt.signed_string claims key ≡ (token, none)
      → clock w / nanoseconds ≤ claims.expires_at
      → (t : jwt.Token) × ((jwt.parse_with_claims token key w).0 ≡ (t, none))
        × (jwt.is_valid t ≡ true)
  pub expires :
      (claims : Claims) (key token : Text) (w : World)
      → jwt.signed_string claims key ≡ (token, none)
      → 0 < claims.expires_at
      → claims.expires_at < clock w / nanoseconds
      → (t : jwt.Token) × (err : GoError) × ((jwt.parse_with_claims token key w).0 ≡ (t, some err))

module _ {World : Type 0} (jwt : Jwt World) (law : LawfulJwt jwt) (auth : JwtAuth) where
  token_or_empty-none :
      (r : Returns Text) (token : Text) → token_or_empty jwt r ≡ (token, none) → r ≡ (token, none)
  token_or_empty-none (t, some err) token run = absurd (ground arith)
  token_or_empty-none (t, none) token run = run

  -- A generated token is the signed string of the claims.
  generate_token-signed :
      (name token : Text) (u : World)
      → (generate_token jwt auth name u).0 ≡ (token, none)
      → jwt.signed_string (claims_at jwt name (law.clock u)) auth.jwt_key ≡ (token, none)
  unfolding generate_token
  generate_token-signed name token u made =
      token_or_empty-none (jwt.signed_string (claims_at jwt name (law.clock u)) auth.jwt_key) token
        (rw (← law.reads_clock u) made)

  -- A token that was generated is accepted as long as no more than 24 hours have passed, counted in
  -- whole seconds, and refused from then on.
  pub validate_token-generate_token :
      (name token : Text) (u w : World)
      → (generate_token jwt auth name u).0 ≡ (token, none)
      → is_some (validate_token jwt auth token w).0
        ≡ ltb ((law.clock u + lifetime) / nanoseconds) (law.clock w / nanoseconds)
  unfolding validate_token
  validate_token-generate_token name token u w made =
      let signed = generate_token-signed name token u made in
      let claims = claims_at jwt name (law.clock u) in
      elim (Bool-cases (ltb claims.expires_at (law.clock w / nanoseconds))) [
        | inl late ↦
            let (t, err, failed) =
              law.expires claims auth.jwt_key token w signed (omega arith) (ground arith) in
            rw (failed, late) refl
        | inr early ↦
            let (t, parsed, valid) =
              law.accepts claims auth.jwt_key token w signed (ground arith) in
            rw (parsed, valid, early) refl
      ]
