-- ===== src/Tests/Update.antt =====
-- An update of the Base.
use bitbox_base.Base.{◌≡◌, refl, ◌⊎◌, ◌++◌, false, some, arith}
use bitbox_base.Base.Text.{text}
use bitbox_base.Base.Int.{pos}
use bitbox_base.Rpcmessages.{update_failed, rebooting, UpdateBaseArgs}
use bitbox_base.Middleware.Update.{
  could_not_start, update_base, read_lines, parse_base_update_stdout,
}
use bitbox_base.Middleware.Update.Progress.{
  update_base_final, read_lines-Shows, reported, after_reports, progress_events,
}
use bitbox_base.Middleware.Update.Stdout.{progress_line, parse_base_update_stdout-progress_line}
use bitbox_base.Tests.Demo.{demo, idle, mender_run}

abbrev update_args : UpdateBaseArgs
update_args = record { version = text "1.0.1"; token = text "t" }

update_base_final_example :
    let (r, t) = update_base demo update_args idle in
    ((r ≡ could_not_start)
      × (t.base_update_progress ≡ idle.base_update_progress)
      × (t.events ≡ idle.events))
    ⊎ (((t.base_update_progress.state ≡ update_failed) × (r.success ≡ false))
        ⊎ (t.base_update_progress.state ≡ rebooting))
update_base_final_example = update_base_final demo update_args idle refl

read_lines-Shows_example :
    let t = (read_lines demo mender_run.stdout_lines idle).1 in
    (t.base_update_progress
      ≡ after_reports demo idle.base_update_progress (reported demo mender_run.stdout_lines))
    × (t.events ≡ idle.events ++ progress_events demo (reported demo mender_run.stdout_lines))
    × (t.calls ≡ idle.calls)
read_lines-Shows_example = read_lines-Shows demo mender_run.stdout_lines idle

parse_base_update_stdout-progress_line_example :
    parse_base_update_stdout (progress_line 3 14 102400) ≡ some (pos 14, pos 102400)
parse_base_update_stdout-progress_line_example =
    parse_base_update_stdout-progress_line 3 14 102400 (omega arith) (omega arith)
