-- ===== src/Tests/Supervision.antt =====
-- Events of the supervisor.
use bitbox_base.Base.{◌≡◌, refl, ◌*◌, ℕ, true, false, [], arith}
use bitbox_base.Base.Text.{text}
use bitbox_base.Base.Int.{ℤ, pos, eqb_ℤ, ltb_ℤ}
use bitbox_base.Supervisor.Handling.{
  Host, err, State, second, is_flooding, handle_by_restart, restart_unit, new_supervisor,
}
use bitbox_base.Supervisor.Logs.{Event, electrs_no_bitcoind_connectivity, prometheus_bitcoind_ibd}
use bitbox_base.Supervisor.Flooding.{handle_by_restart_spacing}

-- The world is the clock; commands succeed, and the block height is 1000.
abbrev host : Host
host = record {
  floats = record {
    Float = ℤ;
    from_int = λ z. z;
    equal = λ a b. eqb_ℤ a b;
    less = λ a b. ltb_ℤ a b;
  };
  World = ℕ;
  run = λ command w. (true, w);
  now = λ w. (w, w);
  query_float64 = λ query w. ((pos 1000, false), w);
  redis_get_int = λ key w. ((pos 0, false), w);
}

abbrev start : State host
start = new_supervisor host (100 * second)

abbrev restart_event : Event ℤ
restart_event = record {
  unit = text "electrs";
  trigger = electrs_no_bitcoind_connectivity;
  measure = [];
  value = pos 0;
}

abbrev restarted : State host
restarted = record {
  trigger_last_executed = λ t. 90;
  prometheus_last_state_ibd = pos 1;
  world = 100 * second;
  calls = [];
}

abbrev after_restart : State host
after_restart = record ((handle_by_restart host (text "electrs") restart_event start).1) {
  world = 110 * second;
}

handle_by_restart_spacing_example :
    let (r, u) = handle_by_restart host (text "electrs") restart_event after_restart in
    (r ≡ err)
    × (u.calls ≡ after_restart.calls)
    × (u.trigger_last_executed ≡ after_restart.trigger_last_executed)
unfolding is_flooding handle_by_restart restart_unit new_supervisor
handle_by_restart_spacing_example =
    handle_by_restart_spacing host (text "electrs") (text "electrs") restart_event restart_event
      start (110 * second) refl refl (omega arith)

abbrev ibd_event : ℤ → Event ℤ
ibd_event value = record {
  unit = [];
  trigger = prometheus_bitcoind_ibd;
  measure = text "bitcoin_ibd";
  value = value;
}
