-- ===== src/Middleware/Loops.antt =====
-- `Start` of middleware/src/middleware.go, up to the creation of the named pipe, and a round of
-- `rpcLoop`.
use bitbox_base.Base.{Bool, false, Option, pure, modify, ◌>>=◌, ◌>>◌, if◌then◌else◌}
use bitbox_base.Rpcmessages.{service_info_changed}
use bitbox_base.System.{System, GoError}
use bitbox_base.System.Keys.{key_text, base_version}
use bitbox_base.Middleware.State.{M, outside, send}
use bitbox_base.Middleware.Hostname.{Outcome, returns, panics, set_hsm_config}
use bitbox_base.Middleware.Info.{did_service_info_change}

module _ (sys : System) where
  abbrev pub tell_change : Bool → M sys (Unit {0})
  tell_change changed =
      if changed
      then send sys (record { identifier = service_info_changed; queue_if_no_client = false })
      else pure tt

  unfoldable pub rpc_round : M sys (Unit {0})
  unfolding did_service_info_change
  rpc_round = do changed ← did_service_info_change sys; tell_change changed

  -- An error of `setHSMConfig`, of Redis or of the parser is only logged. What stands for the version
  -- is parsed all the same, and its result is kept.
  abbrev pub read_version : Outcome (Option GoError) → M sys (Outcome (Unit {0}))
  read_version panics = pure panics
  read_version (returns err) = do
    version ← outside sys (sys.redis.get_string (key_text base_version))
    modify (λ s. record s { current_version = (sys.new_semver_from_string version.0).0 })
    pure (returns tt)

  unfoldable pub start : M sys (Outcome (Unit {0}))
  unfolding set_hsm_config
  start = do configured ← set_hsm_config sys; read_version configured
