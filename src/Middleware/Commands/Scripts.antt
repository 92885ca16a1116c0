-- ===== src/Middleware/Commands/Scripts.antt =====
-- The scripts that middleware/src/util.go runs, and the flashdrive.
use bitbox_base.Base.{
  Option, none, some, List, [], ◌∷◌, Bool-cases, inl, inr, get_last?, sym, subst,
}
use bitbox_base.Base.Text.{Text, text}
use bitbox_base.Rpcmessages.{ErrorResponse, ErrorCode}
use bitbox_base.Configuration.{Configuration}
use bitbox_base.System.{System, Returns}
use bitbox_base.Middleware.State.{M, run, note}
use bitbox_base.Middleware.Scripts.{
  run_command, run_bbb_cmd_script, run_bbb_config_script, run_bbb_systemctl_script,
  check_systemd_service_status, script_response,
}
use bitbox_base.Middleware.Flashdrive.{
  mount_named, after_check, mount_flashdrive, unmount_flashdrive, with_unmount, on_flashdrive,
}
use bitbox_base.Middleware.Commands.{
  IsAllowed, cmd_script, config_script, systemctl_script, systemctl, Keeps, Keeps-outside,
  Keeps-note,
}

module _ (sys : System) (c : Configuration) where
  Keeps-run_command :
      (command : Text) (args : List Text)
      → IsAllowed c (run command args)
      → Keeps sys c (run_command sys command args)
  unfolding run_command
  Keeps-run_command command args allowed s h =
      Keeps-outside sys c (sys.combined_output command args) (note sys (run command args) s).1
        (Keeps-note sys c (run command args) allowed s h)

  pub Keeps-run_bbb_cmd_script : (args : List Text) → Keeps sys c (run_bbb_cmd_script sys args)
  unfolding run_bbb_cmd_script
  Keeps-run_bbb_cmd_script args s h =
      Keeps-run_command s.config.bbb_cmd_script args
        (subst (λ d. IsAllowed c (run d.bbb_cmd_script args)) (sym h.configured) (cmd_script args))
        s h

  pub Keeps-run_bbb_config_script :
      (args : List Text) → Keeps sys c (run_bbb_config_script sys args)
  unfolding run_bbb_config_script
  Keeps-run_bbb_config_script args s h =
      Keeps-run_command s.config.bbb_config_script args
        (subst (λ d. IsAllowed c (run d.bbb_config_script args)) (sym h.configured)
          (config_script args))
        s h

  pub Keeps-run_bbb_systemctl_script :
      (args : List Text) → Keeps sys c (run_bbb_systemctl_script sys args)
  unfolding run_bbb_systemctl_script
  Keeps-run_bbb_systemctl_script args s h =
      Keeps-run_command s.config.bbb_systemctl_script args
        (subst (λ d. IsAllowed c (run d.bbb_systemctl_script args)) (sym h.configured)
          (systemctl_script args))
        s h

  pub Keeps-check_systemd_service_status :
      (service : Text) → Keeps sys c (check_systemd_service_status sys service)
  unfolding check_systemd_service_status
  Keeps-check_systemd_service_status service s h =
      Keeps-run_command (text "systemctl") (text "is-active" ∷ service ∷ [])
        (systemctl (text "is-active" ∷ service ∷ [])) s h

  Keeps-mount_named : (name : Option Text) → Keeps sys c (mount_named sys name)
  unfolding mount_named
  Keeps-mount_named none s h = h
  Keeps-mount_named (some name) s h =
      Keeps-run_bbb_cmd_script (text "flashdrive" ∷ text "mount" ∷ name ∷ []) s h

  Keeps-after_check : (r : Returns (List Text)) → Keeps sys c (after_check sys r)
  Keeps-after_check (out, some err) s h = h
  Keeps-after_check (out, none) s h = Keeps-mount_named (get_last? out) s h

  Keeps-mount_flashdrive : Keeps sys c (mount_flashdrive sys)
  unfolding mount_flashdrive
  Keeps-mount_flashdrive s h =
      let args = text "flashdrive" ∷ text "check" ∷ [] in
      let (r, t) = run_bbb_cmd_script sys args s in
      Keeps-after_check r t (Keeps-run_bbb_cmd_script args s h)

  Keeps-unmount_flashdrive : Keeps sys c (unmount_flashdrive sys)
  unfolding unmount_flashdrive
  Keeps-unmount_flashdrive s h =
      Keeps-run_bbb_cmd_script (text "flashdrive" ∷ text "unmount" ∷ []) s h

  Keeps-with_unmount :
      (body : M sys ErrorResponse) → Keeps sys c body → Keeps sys c (with_unmount sys body)
  unfolding with_unmount
  Keeps-with_unmount body hb s h = Keeps-unmount_flashdrive (body s).1 (hb s h)

  pub Keeps-on_flashdrive :
      (args : List Text) (possible : List ErrorCode) → Keeps sys c (on_flashdrive sys args possible)
  unfolding on_flashdrive
  Keeps-on_flashdrive args possible s h =
      let (response, t) = mount_flashdrive sys s in
      let mounted = Keeps-mount_flashdrive s h in
      let method : M sys ErrorResponse =
        (λ u. let (out, v) = run_bbb_cmd_script sys args u in (script_response possible out, v)) in
      let body = Keeps-with_unmount method (Keeps-run_bbb_cmd_script args) t mounted in
      elim (Bool-cases response.success) [ inl e ↦ rw e body | inr e ↦ rw e mounted ]
