-- ===== src/Authentication/Session.antt =====
-- A token of middleware/src/authentication/authentication.go in the requests to
-- middleware/src/rpcserver/rpcserver.go.
use bitbox_base.Base.{
  ◌+◌, ◌/◌, some, none, ◌≡◌, refl, sym, ap, ◌∙◌, ltb, if◌then◌else◌, is_some, Option-cases, inl,
  inr,
}
use bitbox_base.Base.Text.{Text}
use bitbox_base.System.{System}
use bitbox_base.Middleware.State.{State}
use bitbox_base.RpcServer.Dispatch.{Request, request_token, serve, perform, denied}
use bitbox_base.RpcServer.Implementation.{middleware_api}
use bitbox_base.RpcServer.Tokens.{serve-denied, serve-performed}
use bitbox_base.Authentication.{Jwt, JwtAuth, nanoseconds, lifetime, generate_token, validate_token}
use bitbox_base.Authentication.Expiry.{LawfulJwt, validate_token-generate_token}

module _ (sys : System) (jwt : Jwt sys.World) (law : LawfulJwt jwt) (auth : JwtAuth) where
  -- The state after the validation of the token.
  abbrev pub validated : Text → State sys → State sys
  validated token s = record s { world = (validate_token jwt auth token s.world).1 }

  -- A token that was generated opens the RPC server for 24 hours, counted in whole seconds: a request
  -- with it is performed until then and denied afterwards, in the state that the validation leaves, if
  -- the middleware validates tokens with the same key.
  pub serve-generate_token :
      ((token : Text) (w : sys.World)
        → sys.validate_token token w ≡ validate_token jwt auth token w)
      → (r : Request) (s : State sys) (name token : Text) (u : sys.World)
      → (generate_token jwt auth name u).0 ≡ (token, none)
      → request_token r ≡ some token
      → serve (middleware_api sys) sys.zero_float r s ≡ (
          if ltb ((law.clock u + lifetime) / nanoseconds) (law.clock s.world / nanoseconds)
          then (denied sys.zero_float r, validated token s)
          else perform (middleware_api sys) sys.zero_float r (validated token s))
  unfolding middleware_api
  serve-generate_token same r s name token u made asked =
      let e = validate_token-generate_token jwt law auth name token u s.world made in
      let v = same token s.world in
      elim (Option-cases (validate_token jwt auth token s.world).0) [
        | inl accepted ↦
            let early = sym e ∙ ap (λ x. is_some x) accepted in
            rw
              (
                serve-performed (middleware_api sys) sys.zero_float r s {token = token} asked
                    (ap (λ p. p.0) v ∙ accepted),
                v,
                early,
              )
              refl
        | inr (err, refused) ↦
            let late = sym e ∙ ap (λ x. is_some x) refused in
            rw
              (
                serve-denied (middleware_api sys) sys.zero_float r s {token = token} {err = err}
                    asked (ap (λ p. p.0) v ∙ refused),
                v,
                late,
              )
              refl
      ]
