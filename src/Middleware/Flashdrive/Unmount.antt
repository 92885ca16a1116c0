-- ===== src/Middleware/Flashdrive/Unmount.antt =====
-- A flashdrive that was mounted is unmounted (middleware/src/middleware.go, `BackupSysconfig` and
-- `RestoreSysconfig`; middleware/src/util.go, `mountFlashdrive`).
use mathlib.Core.List.{append_assoc}
use bitbox_base.Base.{◌≡◌, refl, ◌∙◌, true, List, [], ◌∷◌, ◌++◌, arith, if◌then◌else◌}
use bitbox_base.Base.Text.{Text, text}
use bitbox_base.Rpcmessages.{ErrorCode, ErrorResponse}
use bitbox_base.System.{System}
use bitbox_base.Middleware.State.{State, Call, run}
use bitbox_base.Middleware.Scripts.{script_response, run_bbb_cmd_script}
use bitbox_base.Middleware.Flashdrive.{
  mount_named, mount_flashdrive, unmount_flashdrive, with_unmount, on_flashdrive,
}

module _ (sys : System) (s : State sys) where
  abbrev cmd : List Text → Call
  cmd args = run s.config.bbb_cmd_script args

  abbrev check_args : List Text
  check_args = text "flashdrive" ∷ text "check" ∷ []

  abbrev mount_args : Text → List Text
  mount_args name = text "flashdrive" ∷ text "mount" ∷ name ∷ []

  abbrev unmount_args : List Text
  unmount_args = text "flashdrive" ∷ text "unmount" ∷ []

  -- The script is the same afterwards.
  mount_flashdrive-config : (mount_flashdrive sys s).1.config ≡ s.config
  unfolding mount_flashdrive mount_named run_bbb_cmd_script
  mount_flashdrive-config = ground arith

-- The deferred unmount: one more command at the end, whatever the body did, and the body's error
-- is kept.
with_unmount_lem :
    (sys : System) (body : State sys → ErrorResponse × State sys) (s : State sys)
    → let (b, t) = body s in
      let (u, v) = unmount_flashdrive sys t in
      with_unmount sys body s ≡ ((if b.success then u else b), v)
unfolding with_unmount
with_unmount_lem sys body s = refl

unmount_flashdrive-calls :
    (sys : System) (s : State sys)
    → (unmount_flashdrive sys s).1.calls ≡ s.calls ++ (cmd sys s (unmount_args sys s) ∷ [])
unfolding unmount_flashdrive run_bbb_cmd_script
unmount_flashdrive-calls sys s = refl

-- If it was mounted, exactly two more commands run, the operation and then the unmount, whether the
-- operation fails or not; and an error of the operation is the response, while a success is
-- replaced by the response of the unmount.
pub on_flashdrive_mounted :
    (sys : System) (args : List Text) (possible : List ErrorCode) (s : State sys)
    → (mount_flashdrive sys s).0.success ≡ true
    → let m = (mount_flashdrive sys s).1 in
      let (out, u) = run_bbb_cmd_script sys args m in
      let (r, t) = on_flashdrive sys args possible s in
      let done = script_response possible out in
      (t.calls ≡ m.calls ++ (cmd sys s args ∷ cmd sys s (unmount_args sys s) ∷ []))
      × (r ≡ (if done.success then (unmount_flashdrive sys u).0 else done))
unfolding on_flashdrive run_bbb_cmd_script
on_flashdrive_mounted sys args possible s h = rw h (
  unmount_flashdrive-calls sys (run_bbb_cmd_script sys args (mount_flashdrive sys s).1).1
      ∙ rw (mount_flashdrive-config sys s) (append_assoc (mount_flashdrive sys s).1.calls _ _),
  refl,
)
