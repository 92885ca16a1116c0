-- ===== src/Middleware/State.antt =====
-- The state of the middleware (middleware/src/middleware.go, `Middleware`) with what it has done so
-- far: `calls` lists the commands run and the Redis writes in order, `events` what was sent on the
-- channel `middleware.events`, `scheduled` the commands that goroutines start after their delay.
-- These three record effects; no code reads them.
use bitbox_base.Base.{Bool, Option, List, [], ◌∷◌, ◌++◌, Action, modify, ◌>>◌}
use bitbox_base.Base.Text.{Text}
use bitbox_base.Rpcmessages.{
  Op, GetServiceInfoResponse, GetBaseUpdateProgressResponse, IsBaseUpdateAvailableResponse,
}
use bitbox_base.Configuration.{Configuration}
use bitbox_base.System.{System, GoError}

-- `handlers.Event`
pub record Event : Type 0 where
  pub identifier : Op
  pub queue_if_no_client : Bool

pub data Call : Type 0 where
  run : Text → List Text → Call
  set_redis : Text → Text → Call

pub record State (sys : System) : Type 0 where
  pub config : Configuration
  pub service_info : GetServiceInfoResponse sys.Float
  pub base_update_progress : GetBaseUpdateProgressResponse
  pub base_update_available : IsBaseUpdateAvailableResponse
  pub current_version : sys.SemVer
  pub is_middleware_password_set : Bool
  pub is_base_setup_done : Bool
  pub has_hsm_firmware : Bool
  pub world : sys.World
  pub calls : List Call
  pub events : List Event
  pub scheduled : List Call

module _ (sys : System) where
  abbrev pub M : Type 0 → Type 0
  M A = Action (State sys) A

  -- A call of the outside world.
  abbrev pub outside : {A : Type 0} → Action sys.World A → M A
  outside f s = let (a, w) = f s.world in (a, record s { world = w })

  abbrev pub note : Call → M (Unit {0})
  note c = modify (λ s. record s { calls = s.calls ++ (c ∷ []) })

  -- `middleware.events <- event`
  abbrev pub send : Event → M (Unit {0})
  send e = modify (λ s. record s { events = s.events ++ (e ∷ []) })

  -- `go func() { time.Sleep(delay); exec.Command(...).Start() }()`
  abbrev pub schedule : Call → M (Unit {0})
  schedule c = modify (λ s. record s { scheduled = s.scheduled ++ (c ∷ []) })

  abbrev pub set_string : Text → Text → M (Option GoError)
  set_string key value = do note (set_redis key value); outside (sys.redis.set_string key value)
