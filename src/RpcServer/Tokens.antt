-- ===== src/RpcServer/Tokens.antt =====
-- Which requests of middleware/src/rpcserver/rpcserver.go are served without a valid token.
use bitbox_base.Base.{◌≡◌, refl, none, some, arith}
use bitbox_base.Base.Text.{Text}
use bitbox_base.System.{System, GoError}
use bitbox_base.Middleware.State.{State}
use bitbox_base.RpcServer.Api.{MiddlewareApi}
use bitbox_base.RpcServer.Dispatch.{Request, request_token, serve, perform, denied}
use bitbox_base.RpcServer.Implementation.{middleware_api}

module _ {S Float : Type 0} (api : MiddlewareApi S Float) (zero_float : Float) where
  -- A request whose token is refused gets the denial of its kind, and nothing but the validation
  -- of the token has changed the state.
  pub serve-denied :
      (r : Request) (s : S) {token : Text} {err : GoError}
      → request_token r ≡ some token
      → (api.validate_token token s).0 ≡ some err
      → serve api zero_float r s ≡ (denied zero_float r, (api.validate_token token s).1)
  unfolding serve denied
  serve-denied Request.get_setup_status s asked bad = ground arith
  serve-denied _ s asked bad = ground arith

  -- A request whose token is accepted is performed, in the state that the validation leaves.
  pub serve-performed :
      (r : Request) (s : S) {token : Text}
      → request_token r ≡ some token
      → (api.validate_token token s).0 ≡ none
      → serve api zero_float r s ≡ perform api zero_float r (api.validate_token token s).1
  unfolding serve perform
  serve-performed Request.get_setup_status s asked good = ground arith
  serve-performed _ s asked good = ground arith

-- With the middleware behind it, a request whose token is refused runs no command, writes nothing
-- to Redis, sends no event, schedules no command and leaves the setup flags and the update
-- progress as they were.
pub serve-denied_harmless :
    (sys : System) (r : Request) (s : State sys) {token : Text} {err : GoError}
    → request_token r ≡ some token
    → (sys.validate_token token s.world).0 ≡ some err
    → let t = (serve (middleware_api sys) sys.zero_float r s).1 in
      (t.calls ≡ s.calls)
      × (t.events ≡ s.events)
      × (t.scheduled ≡ s.scheduled)
      × (t.is_middleware_password_set ≡ s.is_middleware_password_set)
      × (t.is_base_setup_done ≡ s.is_base_setup_done)
      × (t.base_update_progress ≡ s.base_update_progress)
unfolding middleware_api
serve-denied_harmless sys r s asked bad =
    rw (serve-denied (middleware_api sys) sys.zero_float r s asked bad)
      (refl, refl, refl, refl, refl, refl)
