-- ===== src/Supervisor/Handling.antt =====
-- The handlers of tools/bbbsupervisor/supervisor/eventhandling.go and the helpers of
-- tools/bbbsupervisor/supervisor/util.go.
use bitbox_base.Base.{
  ℕ, ◌+◌, ◌*◌, ◌/◌, ◌^◌, Bool, true, false, not, ◌&&◌, List, [], ◌∷◌, ◌++◌, Action, pure, gets,
  modify, ◌>>=◌, ◌>>◌, ◌==◌, ltb, if◌then◌else◌,
}
use bitbox_base.Base.Text.{Text, text}
use bitbox_base.Base.Int.{ℤ, pos, negsuc, eqb_ℤ}
use bitbox_base.Supervisor.Logs.{
  Trigger, electrs_fully_synced, electrs_no_bitcoind_connectivity,
  middleware_no_bitcoind_connectivity, prometheus_bitcoind_ibd, Event,
}

-- A float64: its constants and its comparisons `==` and `<`.
pub record Floats : Type 1 where
  pub Float : Type 0
  pub from_int : ℤ → Float
  pub equal : Float → Float → Bool
  pub less : Float → Float → Bool

-- What the supervisor calls: commands (`true` is success), the clock in nanoseconds since 1970, the
-- Prometheus and Redis clients. `query_float64` returns its value also beside an error.
pub record Host : Type 1 where
  pub floats : Floats
  pub World : Type 0
  pub run : List Text → Action World Bool
  pub now : Action World ℕ
  pub query_float64 : Text → Action World (floats.Float × Bool)
  pub redis_get_int : Text → Action World (ℤ × Bool)

pub data Result : Type 0 where
  ok : Result
  err : Result

-- `Supervisor.state`, with the commands that were run, in order.
pub record State (host : Host) : Type 0 where
  pub trigger_last_executed : Trigger → ℕ
  pub prometheus_last_state_ibd : host.floats.Float
  pub world : host.World
  pub calls : List (List Text)

abbrev pub second : ℕ
second = 10 ^ 9

-- `IsFlooding(30 * time.Second, last)`, at the time `now` in nanoseconds.
unfoldable pub is_flooding : ℕ → ℕ → Bool
is_flooding last now = ltb now (last * second + 30 * second)

abbrev set_last : Trigger → ℕ → (Trigger → ℕ) → Trigger → ℕ
set_last t n f u = if u == t then n else f u

module _ (host : Host) where
  open host use {floats}
  open floats use {Float, from_int, equal, less}

  abbrev pub M : Type 0 → Type 0
  M A = Action (State host) A

  abbrev pub outside : {A : Type 0} → Action host.World A → M A
  outside f s = let (a, w) = f s.world in (a, record s { world = w })

  abbrev pub run_command : List Text → M Bool
  run_command c = do modify (λ s. record s { calls = s.calls ++ (c ∷ []) }); outside (host.run c)

  abbrev as_result : Bool → Result
  as_result true = ok
  as_result false = err

  unfoldable pub restart_unit : Text → M Result
  restart_unit unit = do
    done ← run_command (text "/bin/systemctl" ∷ text "restart" ∷ unit ∷ [])
    pure (as_result done)

  unfoldable pub set_bbb_config_value : Text → Text → M Result
  set_bbb_config_value argument value = do
    done ← run_command (text "/usr/local/sbin/bbb-config.sh" ∷ text "set" ∷ argument ∷ value ∷ [])
    pure (as_result done)

  -- The error of the query is not looked at: only its value is.
  unfoldable pub check_block_height : ℤ → M Result
  check_block_height min_height = do
    (height, _) ← outside (host.query_float64 (text "bitcoin_blocks"))
    pure (if less height (from_int min_height) then err else ok)

  abbrev unset_if : ℤ × Bool → M Result
  unset_if (value, false) s = (err, s)
  unset_if (value, true) s =
      let unset = set_bbb_config_value (text "bitcoin_ibd_clearnet") (text "false") in
      if eqb_ℤ value (pos 1) then unset s else (ok, s)

  unfoldable pub unset_clearnet_idb : M Result
  unset_clearnet_idb = do
    value ← outside (host.redis_get_int (text "bitcoind:ibd-clearnet"))
    unset_if value

  -- `err := first(); if err != nil { return err }; return next()`
  abbrev pub and_then : Result → M Result → M Result
  and_then err next = pure err
  and_then ok next = next

  abbrev pub min_block_height : ℤ
  min_block_height = pos 596000

  unfoldable pub disable_base_ibd_state : M Result
  disable_base_ibd_state = do
    high ← check_block_height min_block_height
    and_then high (do
      unset ← unset_clearnet_idb
      and_then unset (set_bbb_config_value (text "bitcoin_ibd") (text "false")))

  abbrev finish_restart : Trigger → Result → M Result
  finish_restart t err = pure err
  finish_restart t ok = do
    now ← outside host.now
    modify (λ s. record s {
      trigger_last_executed = set_last t (now / second) s.trigger_last_executed;
    })
    pure ok

  -- The three handlers that restart a unit differ in the unit only.
  unfoldable pub handle_by_restart : Text → Event Float → M Result
  handle_by_restart unit event = do
    last ← gets (λ s. s.trigger_last_executed event.trigger)
    now ← outside host.now
    let restart : M Result = (do done ← restart_unit unit; finish_restart event.trigger done)
    if is_flooding last now then pure err else restart

  unfoldable pub handle_electrs_no_bitcoind_connectivity : Event Float → M Result
  unfolding handle_by_restart
  handle_electrs_no_bitcoind_connectivity = handle_by_restart (text "electrs")

  unfoldable pub handle_middleware_no_bitcoind_connectivity : Event Float → M Result
  unfolding handle_by_restart
  handle_middleware_no_bitcoind_connectivity = handle_by_restart (text "bbbmiddleware")

  unfoldable pub handle_electrs_fully_synced : Event Float → M Result
  unfolding handle_by_restart
  handle_electrs_fully_synced = handle_by_restart (text "electrs")

  -- `s.state.PrometheusLastStateIBD = isActive`, after the command succeeded.
  abbrev pub remember : Float → Result → M Result
  remember active err = pure err
  remember active ok = do modify (λ s. record s { prometheus_last_state_ibd = active }); pure ok

  unfoldable pub switch_ibd : Float → Bool → M Result
  switch_ibd active on = do
    done ←
        (if on
          then set_bbb_config_value (text "bitcoin_ibd") (text "true")
          else disable_base_ibd_state)
    remember active done

  unfoldable pub handle_bitcoind_ibd : Event Float → M Result
  unfolding switch_ibd
  handle_bitcoind_ibd event s =
      let was = s.prometheus_last_state_ibd in
      let active = event.value in
      let is_on = equal active (from_int (pos 1)) in
      let is_off = equal active (from_int (pos 0)) in
      let was_on = equal was (from_int (pos 1)) in
      let was_off = equal was (from_int (pos 0)) in
      if not is_on && not is_off
      then (err, s)
      else if equal was active
      then (ok, s)
      else if equal was (from_int (negsuc 0))
      then switch_ibd active is_on s
      else if was_on && is_off
      then switch_ibd active false s
      else if was_off && is_on
      then switch_ibd active true s
      else (ok, s)

  -- `eventHandler`: a watcher's error, an event that no handler takes and a handler's error panic,
  -- and the deferred function recovers, so every input leads to the next round.
  pub data Input : Type 0 where
    watcher_error : Input
    incoming : Event Float → Input

  unfoldable pub handle_event : Event Float → M Result
  handle_event event =
      if event.trigger == electrs_fully_synced
      then handle_electrs_fully_synced event
      else if event.trigger == electrs_no_bitcoind_connectivity
      then handle_electrs_no_bitcoind_connectivity event
      else if event.trigger == middleware_no_bitcoind_connectivity
      then handle_middleware_no_bitcoind_connectivity event
      else if event.trigger == prometheus_bitcoind_ibd
      then handle_bitcoind_ibd event
      else pure err

  unfoldable pub event_handler : Input → State host → State host
  unfolding handle_event
  event_handler watcher_error s = s
  event_handler (incoming event) s = (handle_event event s).1

  -- `eventLoop` on the inputs that arrive.
  unfoldable pub event_loop : List Input → State host → State host
  unfolding event_handler
  event_loop [] s = s
  event_loop (i ∷ is) s = event_loop is (event_handler i s)

  -- `New`.
  unfoldable pub new_supervisor : host.World → State host
  new_supervisor w = record {
    trigger_last_executed = λ t. 0;
    prometheus_last_state_ibd = from_int (negsuc 0);
    world = w;
    calls = [];
  }
