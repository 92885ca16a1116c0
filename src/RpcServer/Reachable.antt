-- ===== src/RpcServer/Reachable.antt =====
-- What the middleware of middleware/src/middleware.go can do, whatever requests arrive at
-- middleware/src/rpcserver/rpcserver.go and however its loops take turns with them.
use bitbox_base.Base.{Bool, none, arith, List, [], ◌∷◌, ◌≡◌, refl, Option-cases, inl, inr}
use bitbox_base.Base.Text.{text}
use bitbox_base.Rpcmessages.{
  error_backup_sysconfig_not_a_mountpoint, error_restore_sysconfig_backup_not_found,
  error_set_needs_two_arguments,
}
use bitbox_base.Configuration.{Configuration}
use bitbox_base.System.{System}
use bitbox_base.Middleware.State.{State, outside}
use bitbox_base.Middleware.Settings
use bitbox_base.Middleware.Flashdrive
use bitbox_base.Middleware.Info
use bitbox_base.Middleware.Update.{update_check, get_base_update_progress, is_base_update_available}
use bitbox_base.Middleware.Auth.{setup_status}
use bitbox_base.Middleware.Loops.{rpc_round, start}
use bitbox_base.Middleware.Start.{new_middleware}
use bitbox_base.Middleware.Commands.Start.{new_middleware-IsSafe, Keeps-start}
use bitbox_base.Middleware.Ipc.{Notification, ipc_notification_loop}
use bitbox_base.Middleware.Commands.{IsSafe, Keeps, Keeps-outside}
use bitbox_base.Middleware.Commands.Scripts.{Keeps-run_bbb_cmd_script, Keeps-on_flashdrive}
use bitbox_base.Middleware.Commands.Settings.{
  Keeps-toggle, Keeps-shutdown_base, Keeps-reboot_base, Keeps-set_login_password,
  Keeps-set_hostname, Keeps-user_authenticate, Keeps-user_change_password,
}
use bitbox_base.Middleware.Commands.Status.{
  Keeps-get_base_info, Keeps-get_service_status, Keeps-finalize_setup_wizard, Keeps-update_base,
  Keeps-rpc_round, Keeps-update_check, Keeps-ipc_notification_loop,
}
use bitbox_base.RpcServer.Dispatch.{Request, request_token, serve, perform}
use bitbox_base.RpcServer.Implementation.{middleware_api}
use bitbox_base.RpcServer.Tokens.{serve-denied, serve-performed}

module _ (sys : System) where
  -- `Start`, a request that is served, a round of `rpcLoop` or of `updateCheckLoop`, notifications that are
  -- handled, or something that changes outside. Each takes its turn as a whole.
  pub data Step (s : State sys) : State sys → Type 0 where
    starts : Step s (start sys s).1
    serves : (r : Request) → Step s (serve (middleware_api sys) sys.zero_float r s).1
    rpc_loops : Step s (rpc_round sys s).1
    checks : Step s (update_check sys s).1
    notifies : (ns : List Notification) → Step s (ipc_notification_loop sys ns s).1
    changes : (w : sys.World) → Step s (record s { world = w })

  pub data Reach (s : State sys) : State sys → Type 0 where
    here : Reach s s
    next : {t u : State sys} → Reach s t → Step t u → Reach s u

module _ (sys : System) (c : Configuration) where
  Keeps-perform : (r : Request) → Keeps sys c (perform (middleware_api sys) sys.zero_float r)
  unfolding perform middleware_api Settings.reindex_bitcoin Settings.resync_bitcoin
      Flashdrive.backup_sysconfig Flashdrive.backup_hsm_secret Flashdrive.restore_sysconfig
      Flashdrive.restore_hsm_secret Settings.enable_tor Settings.enable_tor_middleware
      Settings.enable_tor_electrs Settings.enable_tor_ssh Settings.enable_clearnet_ibd
      Settings.enable_root_login Settings.enable_ssh_password_login setup_status Info.system_env
      Info.get_service_info_response get_base_update_progress is_base_update_available
  Keeps-perform Request.get_setup_status s h = h
  Keeps-perform (Request.get_system_env args) s h = h
  Keeps-perform (Request.reindex_bitcoin args) s h =
      Keeps-run_bbb_cmd_script sys c (text "bitcoind" ∷ text "reindex" ∷ []) s h
  Keeps-perform (Request.resync_bitcoin args) s h =
      Keeps-run_bbb_cmd_script sys c (text "bitcoind" ∷ text "resync" ∷ []) s h
  Keeps-perform (Request.backup_sysconfig args) s h =
      Keeps-on_flashdrive sys c (text "backup" ∷ text "sysconfig" ∷ [])
        (error_backup_sysconfig_not_a_mountpoint ∷ []) s h
  Keeps-perform (Request.backup_hsm_secret args) s h =
      Keeps-run_bbb_cmd_script sys c (text "backup" ∷ text "hsm_secret" ∷ []) s h
  Keeps-perform (Request.restore_sysconfig args) s h =
      Keeps-on_flashdrive sys c (text "restore" ∷ text "sysconfig" ∷ [])
        (error_restore_sysconfig_backup_not_found ∷ []) s h
  Keeps-perform (Request.restore_hsm_secret args) s h =
      Keeps-run_bbb_cmd_script sys c (text "restore" ∷ text "hsm_secret" ∷ []) s h
  Keeps-perform (Request.user_authenticate args) s h = Keeps-user_authenticate sys c args s h
  Keeps-perform (Request.user_change_password args) s h = Keeps-user_change_password sys c args s h
  Keeps-perform (Request.set_hostname args) s h = Keeps-set_hostname sys c args s h
  Keeps-perform (Request.enable_tor args) s h = Keeps-toggle sys c (text "tor") [] args s h
  Keeps-perform (Request.enable_tor_middleware args) s h =
      Keeps-toggle sys c (text "tor_bbbmiddleware") [] args s h
  Keeps-perform (Request.enable_tor_electrs args) s h =
      Keeps-toggle sys c (text "tor_electrs") [] args s h
  Keeps-perform (Request.enable_tor_ssh args) s h = Keeps-toggle sys c (text "tor_ssh") [] args s h
  Keeps-perform (Request.enable_clearnet_ibd args) s h =
      Keeps-toggle sys c (text "bitcoin_ibd_clearnet") (error_set_needs_two_arguments ∷ []) args s h
  Keeps-perform (Request.shutdown_base args) s h = Keeps-shutdown_base sys c s h
  Keeps-perform (Request.reboot_base args) s h = Keeps-reboot_base sys c s h
  Keeps-perform (Request.enable_root_login args) s h =
      Keeps-toggle sys c (text "rootlogin") [] args s h
  Keeps-perform (Request.enable_ssh_password_login args) s h =
      Keeps-toggle sys c (text "sshpwlogin") [] args s h
  Keeps-perform (Request.set_login_password args) s h = Keeps-set_login_password sys c args s h
  Keeps-perform (Request.get_base_info args) s h = Keeps-get_base_info sys c s h
  Keeps-perform (Request.get_service_info args) s h = h
  Keeps-perform Request.get_service_status s h = Keeps-get_service_status sys c s h
  Keeps-perform (Request.update_base args) s h = Keeps-update_base sys c args s h
  Keeps-perform (Request.get_base_update_progress args) s h = h
  Keeps-perform (Request.is_base_update_available args) s h = h
  Keeps-perform (Request.finalize_setup_wizard args) s h = Keeps-finalize_setup_wizard sys c s h

  serve-perform :
      (r : Request) (s : State sys)
      → request_token r ≡ none
      → serve (middleware_api sys) sys.zero_float r s
        ≡ perform (middleware_api sys) sys.zero_float r s
  unfolding serve perform
  serve-perform Request.get_setup_status s free = refl
  serve-perform Request.get_service_status s free = refl
  serve-perform (Request.user_authenticate args) s free = refl
  serve-perform _ s free = absurd (ground arith)

  -- With a token, the request is performed or denied after the token was validated.
  Keeps-serve : (r : Request) → Keeps sys c (serve (middleware_api sys) sys.zero_float r)
  unfolding middleware_api
  Keeps-serve r s h = elim (Option-cases (request_token r)) [
    | inl free ↦ rw (serve-perform r s free) (Keeps-perform r s h)
    | inr (token, asked) ↦
        let validation = sys.validate_token token in
        let validated = Keeps-outside sys c validation s h in
        elim (Option-cases (validation s.world).0) [
          | inl good ↦
              rw
                (serve-performed (middleware_api sys) sys.zero_float r s {token = token} asked good)
                (Keeps-perform r (outside sys validation s).1 validated)
          | inr (err, bad) ↦
              rw
                (serve-denied (middleware_api sys) sys.zero_float r s {token = token} {err = err}
                  asked bad)
                validated
        ]
  ]

  Keeps-Step : {s t : State sys} → Step sys s t → IsSafe sys c s → IsSafe sys c t
  Keeps-Step {s} starts h = Keeps-start sys c s h
  Keeps-Step {s} (serves r) h = Keeps-serve r s h
  Keeps-Step {s} rpc_loops h = Keeps-rpc_round sys c s h
  Keeps-Step {s} checks h = Keeps-update_check sys c s h
  Keeps-Step {s} (notifies ns) h = Keeps-ipc_notification_loop sys c ns s h
  Keeps-Step {s} (changes w) h = record {
    configured = h.configured;
    calls = h.calls;
    scheduled = h.scheduled;
  }

  -- From `NewMiddleware` on, the middleware runs nothing but the three scripts of its configuration
  -- and `systemctl`, starts nothing later but a shutdown or a reboot, writes no key of Redis but
  -- its own three, and keeps its configuration: whatever requests arrive, with whatever tokens and
  -- arguments, and in whatever order the rounds of its loops and changes outside come between them,
  -- each taken as a whole.
  pub Reach-IsSafe :
      (hsm : Bool) (w : sys.World) (t : State sys)
      → Reach sys (new_middleware sys c hsm w).1 t
      → IsSafe sys c t
  Reach-IsSafe hsm w t here = new_middleware-IsSafe sys c hsm w
  Reach-IsSafe hsm w t (next r step) = Keeps-Step step (Reach-IsSafe hsm w _ r)
