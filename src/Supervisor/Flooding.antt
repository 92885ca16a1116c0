-- ===== src/Supervisor/Flooding.antt =====
-- Flood control of restarts: `IsFlooding` and the handlers that restart a unit.
use bitbox_base.Base.{◌≡◌, ℕ, ◌+◌, ◌*◌, ◌/◌, ◌<◌, true, [], ◌∷◌, arith}
use bitbox_base.Base.Text.{Text, text}
use bitbox_base.Supervisor.Handling.{
  Host, ok, err, State, second, is_flooding, handle_by_restart, restart_unit,
}
use bitbox_base.Supervisor.Logs.{Event}

-- The seconds that the memory keeps are whole, so up to one second of the thirty is lost.
is_flooding_soon : (c n : ℕ) → n < c + 29 * second → is_flooding (c / second) n ≡ true
unfolding is_flooding
is_flooding_soon c n soon = ground arith

module _ (host : Host) where
  open host use {floats}

  -- The clock when the command that restarts the unit has returned.
  abbrev pub restart_clock : Text → State host → ℕ
  restart_clock unit s =
      let restart = text "/bin/systemctl" ∷ text "restart" ∷ unit ∷ [] in
      let (_, w) = host.run restart (host.now s.world).1 in (host.now w).0

  -- An event of a trigger whose last restart is less than 30 seconds old is refused with an error:
  -- nothing is run, and the memory of restarts stays as it was.
  pub handle_by_restart_flooding :
      (unit : Text) (event : Event floats.Float) (s : State host)
      → is_flooding (s.trigger_last_executed event.trigger) (host.now s.world).0 ≡ true
      → let (r, t) = handle_by_restart host unit event s in
        (r ≡ err) × (t.calls ≡ s.calls) × (t.trigger_last_executed ≡ s.trigger_last_executed)
  unfolding handle_by_restart
  handle_by_restart_flooding unit event s e = ground arith

  -- A handler that returns no error remembers when its command returned, in whole seconds.
  handle_by_restart_remembers :
      (unit : Text) (event : Event floats.Float) (s : State host)
      → (handle_by_restart host unit event s).0 ≡ ok
      → (handle_by_restart host unit event s).1.trigger_last_executed event.trigger
        ≡ restart_clock unit s / second
  unfolding handle_by_restart restart_unit
  handle_by_restart_remembers unit event s done = ground arith

  -- After a restart that succeeded, an event of the same trigger is refused without running a
  -- command while less than 29 seconds have passed since the restart command returned, whatever
  -- else changed in the world.
  pub handle_by_restart_spacing :
      (unit other : Text) (first next : Event floats.Float) (s : State host) (w : host.World)
      → next.trigger ≡ first.trigger
      → (handle_by_restart host unit first s).0 ≡ ok
      → (host.now w).0 < restart_clock unit s + 29 * second
      → let t = record ((handle_by_restart host unit first s).1) { world = w } in
        let (r, u) = handle_by_restart host other next t in
        (r ≡ err) × (u.calls ≡ t.calls) × (u.trigger_last_executed ≡ t.trigger_last_executed)
  handle_by_restart_spacing unit other first next s w same done soon =
      let t : State host = record ((handle_by_restart host unit first s).1) { world = w } in
      handle_by_restart_flooding other next t
        (rw (same, handle_by_restart_remembers unit first s done) (is_flooding_soon _ _ soon))
