-- ===== src/Middleware/Commands/Status.antt =====
-- The commands of the methods of middleware/src/middleware.go that report something or update the Base,
-- and of the loops.
use bitbox_base.Base.{
  Bool, true, false, Option, none, some, List, [], ◌∷◌, arith, Option-cases, inl, inr, sym, subst,
}
use bitbox_base.Base.Text.{Text, text}
use bitbox_base.Rpcmessages.{
  UpdateBaseArgs, GetServiceInfoResponse, BaseUpdateState, update_failed, rebooting,
}
use bitbox_base.Configuration.{Configuration}
use bitbox_base.System.{System, Returns, MenderRun}
use bitbox_base.System.Keys.{key_text, base_setup_done, base_hostname, tor_enabled}
use bitbox_base.Middleware.State.{Call, run, outside, note}
use bitbox_base.Middleware.Scripts.{
  run_bbb_config_script, run_bbb_systemctl_script, check_systemd_service_status,
}
use bitbox_base.Middleware.Info.{
  get_service_info, did_service_info_change, get_base_info, get_service_status, after_start,
  after_enable, finalize_setup_wizard, attempt, same_service_info, keep_service_info,
}
use bitbox_base.Middleware.Update.{
  Progress, set_base_update_state_and_notify, read_progress, read_lines, parse_base_update_stdout,
  finish_update, run_update, update_base, is_busy, update_check,
}
use bitbox_base.Middleware.Loops.{rpc_round, tell_change}
use bitbox_base.Middleware.Ipc.{Notification, handle_notification, ipc_notification_loop}
use bitbox_base.Middleware.Commands.{
  IsAllowed, cmd_script, setup_key, Keeps, Keeps-outside, Keeps-note, Keeps-set_string, Keeps-if,
  Keeps-same,
}
use bitbox_base.Middleware.Commands.Scripts.{
  Keeps-run_bbb_config_script, Keeps-run_bbb_systemctl_script, Keeps-check_systemd_service_status,
}
use bitbox_base.Middleware.Commands.Settings.{Keeps-reboot_base}

module _ (sys : System) (c : Configuration) where
  Keeps-get_service_info : Keeps sys c (get_service_info sys)
  unfolding get_service_info
  Keeps-get_service_info s h =
      Keeps-same sys c s (get_service_info sys s).1 (ground arith) (ground arith) (ground arith) h

  pub Keeps-get_base_info : Keeps sys c (get_base_info sys)
  unfolding get_base_info
  Keeps-get_base_info s h =
      Keeps-same sys c s (get_base_info sys s).1 (ground arith) (ground arith) (ground arith) h

  pub Keeps-get_service_status : Keeps sys c (get_service_status sys)
  unfolding get_service_status
  Keeps-get_service_status s h =
      let read = sys.redis.get_string (key_text base_hostname) in
      let ask = sys.redis.get_bool (key_text tor_enabled) in
      let t = (outside sys read s).1 in
      let ht = Keeps-outside sys c read s h in
      let u = (outside sys ask t).1 in
      let hu = Keeps-outside sys c ask t ht in
      let v = (check_systemd_service_status sys (text "bitcoind") u).1 in
      let hv = Keeps-check_systemd_service_status sys c (text "bitcoind") u hu in
      let w = (check_systemd_service_status sys (text "lightningd") v).1 in
      let hw = Keeps-check_systemd_service_status sys c (text "lightningd") v hv in
      elim (Option-cases (read s.world).0.1) [
        | inr (err, e) ↦ rw (e, get_service_status, attempt) ht
        | inl e ↦ elim (Option-cases (ask t.world).0.1) [
          | inr (err, f) ↦ rw (e, f, get_service_status, attempt) hu
          | inl f ↦
              rw (e, f, get_service_status, attempt)
                (Keeps-check_systemd_service_status sys c (text "electrs") w hw)
        ]
      ]

  Keeps-after_start : (r : Returns (List Text)) → Keeps sys c (after_start sys r)
  Keeps-after_start (out, some err) s h = h
  Keeps-after_start (out, none) s h =
      Keeps-set_string sys c (key_text base_setup_done) (text "1") (setup_key (text "1")) s h

  Keeps-after_enable : (r : Returns (List Text)) → Keeps sys c (after_enable sys r)
  Keeps-after_enable (out, some err) s h = h
  Keeps-after_enable (out, none) s h =
      let args = text "start-bitcoin-services" ∷ [] in
      let (r, t) = run_bbb_systemctl_script sys args s in
      Keeps-after_start r t (Keeps-run_bbb_systemctl_script sys c args s h)

  pub Keeps-finalize_setup_wizard : Keeps sys c (finalize_setup_wizard sys)
  unfolding finalize_setup_wizard
  Keeps-finalize_setup_wizard s h =
      let args = text "enable" ∷ text "bitcoin_services" ∷ [] in
      let (r, t) = run_bbb_config_script sys args s in
      Keeps-after_enable r t (Keeps-run_bbb_config_script sys c args s h)

  Keeps-set_base_update_state_and_notify :
      (state : BaseUpdateState) → Keeps sys c (set_base_update_state_and_notify sys state)
  unfolding set_base_update_state_and_notify
  Keeps-set_base_update_state_and_notify state s h = record {
    configured = h.configured;
    calls = h.calls;
    scheduled = h.scheduled;
  }

  Keeps-read_progress : (p : Option Progress) → Keeps sys c (read_progress sys p)
  unfolding read_progress set_base_update_state_and_notify
  Keeps-read_progress none s h = h
  Keeps-read_progress (some (percentage, downloaded)) s h = record {
    configured = h.configured;
    calls = h.calls;
    scheduled = h.scheduled;
  }

  Keeps-read_lines : (lines : List Text) → Keeps sys c (read_lines sys lines)
  unfolding read_lines
  Keeps-read_lines [] s h = h
  Keeps-read_lines (line ∷ lines) s h =
      Keeps-read_lines lines (read_progress sys (parse_base_update_stdout line) s).1
        (Keeps-read_progress (parse_base_update_stdout line) s h)

  Keeps-finish_update : (mender : MenderRun) → Keeps sys c (finish_update sys mender)
  unfolding finish_update
  Keeps-finish_update mender s h = elim (Option-cases mender.stdout_scan_error) [
    | inr (err, e) ↦
        rw (e, finish_update) (Keeps-set_base_update_state_and_notify update_failed s h)
    | inl e ↦ elim (Option-cases mender.wait_error) [
      | inr (err, f) ↦
          rw (e, f, finish_update) (Keeps-set_base_update_state_and_notify update_failed s h)
      | inl f ↦
          rw (e, f, finish_update)
            (Keeps-reboot_base sys c (set_base_update_state_and_notify sys rebooting s).1
              (Keeps-set_base_update_state_and_notify rebooting s h))
    ]
  ]

  Keeps-run_update :
      (command : Call) (mender : MenderRun)
      → IsAllowed c command
      → Keeps sys c (run_update sys command mender)
  Keeps-run_update command mender allowed s h = elim (Option-cases mender.stdout_pipe_error) [
    | inr (err, e) ↦ rw (e, run_update) h
    | inl e ↦ elim (Option-cases mender.stderr_pipe_error) [
      | inr (err, f) ↦ rw (e, f, run_update) h
      | inl f ↦ elim (Option-cases mender.start_error) [
        | inr (err, g) ↦ rw (e, f, g, run_update) h
        | inl g ↦
            let t = (note sys command s).1 in
            let ht = Keeps-note sys c command allowed s h in
            rw (e, f, g, run_update)
              (Keeps-finish_update mender (read_lines sys mender.stdout_lines t).1
                (Keeps-read_lines mender.stdout_lines t ht))
      ]
    ]
  ]

  pub Keeps-update_base : (args : UpdateBaseArgs) → Keeps sys c (update_base sys args)
  unfolding update_base
  Keeps-update_base args s h =
      let command = text "mender-update" ∷ text "install" ∷ args.version ∷ [] in
      let script = s.config.bbb_cmd_script in
      let (mender, t) = outside sys (sys.mender_update script command) s in
      let allowed =
        subst (λ d. IsAllowed c (run d.bbb_cmd_script command)) (sym h.configured)
          (cmd_script command) in
      Keeps-if sys c (is_busy s.base_update_progress.state) _ _ h (
        Keeps-run_update (run script command) mender allowed t
          (Keeps-outside sys c (sys.mender_update script command) s h))

  Keeps-keep_service_info :
      (info : GetServiceInfoResponse sys.Float) → Keeps sys c (keep_service_info sys info)
  Keeps-keep_service_info info s h =
      Keeps-if sys c (same_service_info sys info s.service_info) _ _ h
        (record { configured = h.configured; calls = h.calls; scheduled = h.scheduled })

  Keeps-did_service_info_change : Keeps sys c (did_service_info_change sys)
  unfolding did_service_info_change
  Keeps-did_service_info_change s h =
      let (info, t) = get_service_info sys s in
      Keeps-keep_service_info info t (Keeps-get_service_info s h)

  Keeps-tell_change : (changed : Bool) → Keeps sys c (tell_change sys changed)
  Keeps-tell_change true s h = record {
    configured = h.configured;
    calls = h.calls;
    scheduled = h.scheduled;
  }
  Keeps-tell_change false s h = h

  pub Keeps-rpc_round : Keeps sys c (rpc_round sys)
  unfolding rpc_round
  Keeps-rpc_round s h =
      let (changed, t) = did_service_info_change sys s in
      Keeps-tell_change changed t (Keeps-did_service_info_change s h)

  pub Keeps-update_check : Keeps sys c (update_check sys)
  unfolding update_check
  Keeps-update_check s h =
      Keeps-same sys c s (update_check sys s).1 (ground arith) (ground arith) (ground arith) h

  Keeps-handle_notification : (n : Notification) → Keeps sys c (handle_notification sys n)
  unfolding handle_notification
  Keeps-handle_notification n s h =
      Keeps-same sys c s (handle_notification sys n s).1 (ground arith) (ground arith)
        (ground arith) h

  pub Keeps-ipc_notification_loop :
      (ns : List Notification) → Keeps sys c (ipc_notification_loop sys ns)
  unfolding ipc_notification_loop
  Keeps-ipc_notification_loop [] s h = h
  Keeps-ipc_notification_loop (n ∷ ns) s h =
      Keeps-ipc_notification_loop ns (handle_notification sys n s).1
        (Keeps-handle_notification n s h)
