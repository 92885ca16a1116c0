-- ===== src/Middleware/Update/Progress.antt =====
-- The state machine of an update: `UpdateBase` of middleware/src/middleware.go.
use mathlib.Core.List.{append-nil, append_assoc}
use bitbox_base.Base.{
  ◌≡◌, refl, ◌∙◌, ◌⊎◌, inl, inr, false, Option, none, some, List, [], ◌∷◌, ◌++◌, arith,
  if◌then◌else◌, get_last?, get_last?_of_cons, sym, ap,
}
use bitbox_base.Base.Text.{Text, text}
use bitbox_base.Base.Int.{pos, ltb_ℤ}
use bitbox_base.Rpcmessages.{
  UpdateBaseArgs, BaseUpdateState, GetBaseUpdateProgressResponse, downloading, update_failed,
  applying, rebooting,
}
use bitbox_base.System.{System, MenderRun}
use bitbox_base.Middleware.State.{State, Event, Call, run}
use bitbox_base.Middleware.Settings.{reboot_base}
use bitbox_base.Middleware.Update.{
  Progress, is_busy, could_not_start, progress_event, parse_base_update_stdout, read_progress,
  read_lines, finish_update, run_update, update_base,
}

module _ (sys : System) where
  abbrev state_of : State sys → BaseUpdateState
  state_of s = s.base_update_progress.state

  reboot_base-progress :
      (s : State sys)
      → let t = (reboot_base sys s).1 in
        (t.base_update_progress ≡ s.base_update_progress) × (t.events ≡ s.events)
  unfolding reboot_base
  reboot_base-progress s = ground arith

  -- What the end of an update leaves: failed with the script's error, or rebooting.
  pub finish_update-state :
      (mender : MenderRun) (s : State sys)
      → let (r, t) = finish_update sys mender s in
        ((state_of t ≡ update_failed) × (r.success ≡ false))
        ⊎ ((state_of t ≡ rebooting)
            × (mender.stdout_scan_error ≡ none)
            × (mender.wait_error ≡ none))
  unfolding finish_update reboot_base
  finish_update-state mender s = ground arith

  -- The progress that the lines of stdout report, in order.
  abbrev pub reported : List Text → List Progress
  reported [] = []
  reported (line ∷ lines) = elim (parse_base_update_stdout line) [
    | none ↦ reported lines
    | some p ↦ p ∷ reported lines
  ]

  -- The events that they cause: one for each.
  abbrev pub progress_events : List Progress → List Event
  progress_events [] = []
  progress_events (p ∷ ps) = progress_event ∷ progress_events ps

  abbrev shown : GetBaseUpdateProgressResponse → Progress → GetBaseUpdateProgressResponse
  shown b (percentage, downloaded) = record b {
    state = if ltb_ℤ percentage (pos 98) then downloading else applying;
    progress_percentage = percentage;
    progress_downloaded_kib = downloaded;
  }

  -- The progress that is shown after some reports: the last one counts.
  abbrev pub after_reports :
      GetBaseUpdateProgressResponse → List Progress → GetBaseUpdateProgressResponse
  after_reports b ps = elim (get_last? ps) [ none ↦ b | some p ↦ shown b p ]

  after_reports-cons :
      (b : GetBaseUpdateProgressResponse) (p : Progress) (ps : List Progress)
      → after_reports b (p ∷ ps) ≡ after_reports (shown b p) ps
  after_reports-cons b p [] = refl
  after_reports-cons b p (q ∷ ps) =
      let (r, e) = get_last?_of_cons q ps in rw (e, after_reports) refl

  abbrev Shows : State sys → List Progress → State sys → Type 0
  Shows s ps t =
      (t.base_update_progress ≡ after_reports s.base_update_progress ps)
      × (t.events ≡ s.events ++ progress_events ps)
      × (t.calls ≡ s.calls)

  read_progress-Shows :
      (o : Option Progress) (ps : List Progress) (s t : State sys)
      → Shows (read_progress sys o s).1 ps t
      → Shows s (elim o [ none ↦ ps | some p ↦ p ∷ ps ]) t
  unfolding read_progress
  read_progress-Shows none ps s t h = h
  read_progress-Shows (some p) ps s t (b, e, c) =
      (b ∙ sym (after_reports-cons s.base_update_progress p ps), e ∙ append_assoc s.events _ _, c)

  -- Reading all lines shows the last progress that they report, in state downloading below 98
  -- percent and applying from there on, and sends one event for each report.
  pub read_lines-Shows :
      (lines : List Text) (s : State sys) → Shows s (reported lines) (read_lines sys lines s).1
  unfolding read_lines
  read_lines-Shows [] s = (refl, sym (append-nil s.events), refl)
  read_lines-Shows (line ∷ lines) s =
      let u = (read_progress sys (parse_base_update_stdout line) s).1 in
      read_progress-Shows (parse_base_update_stdout line) (reported lines) s
        (read_lines sys lines u).1 (read_lines-Shows lines u)

  run_update-final :
      (command : Call) (mender : MenderRun) (s : State sys)
      → let (r, t) = run_update sys command mender s in
        ((r ≡ could_not_start) × (t ≡ s))
        ⊎ (((state_of t ≡ update_failed) × (r.success ≡ false)) ⊎ (state_of t ≡ rebooting))
  run_update-final command mender s = ground (
    arith,
    finish_update-state mender
        (read_lines sys mender.stdout_lines (record s { calls = s.calls ++ (command ∷ []) })).1,
  )

  abbrev install_args : UpdateBaseArgs → List Text
  install_args args = text "mender-update" ∷ text "install" ∷ args.version ∷ []

  update_base_idle :
      (args : UpdateBaseArgs) (s : State sys)
      → is_busy (state_of s) ≡ false
      → let (mender, w) = sys.mender_update s.config.bbb_cmd_script (install_args args) s.world in
        update_base sys args s
        ≡ run_update sys
            (run s.config.bbb_cmd_script (install_args args))
            mender
            (record s { world = w })
  unfolding update_base
  update_base_idle args s idle = ground arith

  -- An update that is not refused ends in one of three ways: it could not be started, and shows what
  -- was shown before; it failed and shows that; or it shows that the Base reboots. It never ends in
  -- the states downloading or applying, so a later update is not refused because of it unless a
  -- reboot is due.
  pub update_base_final :
      (args : UpdateBaseArgs) (s : State sys)
      → is_busy (state_of s) ≡ false
      → let (r, t) = update_base sys args s in
        ((r ≡ could_not_start)
          × (t.base_update_progress ≡ s.base_update_progress)
          × (t.events ≡ s.events))
        ⊎ (((state_of t ≡ update_failed) × (r.success ≡ false)) ⊎ (state_of t ≡ rebooting))
  update_base_final args s idle =
      let (mender, w) = sys.mender_update s.config.bbb_cmd_script (install_args args) s.world in
      let command = run s.config.bbb_cmd_script (install_args args) in
      rw (update_base_idle args s idle)
        (elim (run_update-final command mender (record s { world = w })) [
          | inl (r, same) ↦ inl (r, ap (λ t. t.base_update_progress) same, ap (λ t. t.events) same)
          | inr ended ↦ inr ended
        ])
