-- ===== src/Supervisor/Ibd.antt =====
-- The initial block download: `handleBitcoindIBD` and the commands that it runs.
use bitbox_base.Base.{◌≡◌, ◌⊎◌, Bool, true, false, arith}
use bitbox_base.Base.Text.{text}
use bitbox_base.Base.Int.{pos}
use bitbox_base.Supervisor.Handling.{
  Host, ok, err, State, handle_bitcoind_ibd, switch_ibd, disable_base_ibd_state, check_block_height,
  unset_clearnet_idb, set_bbb_config_value, min_block_height,
}
use bitbox_base.Supervisor.Logs.{Event}

module _ (host : Host) where
  open host use {floats}
  open floats use {Float, from_int, equal, less}

  -- While the block height that Prometheus answers is below 596000, disabling the state of the
  -- initial block download fails and runs no command.
  pub disable_base_ibd_state_low :
      (s : State host)
      → less
          (host.query_float64 (text "bitcoin_blocks") s.world).0.0
          (from_int (min_block_height host))
        ≡ true
      → let (r, t) = disable_base_ibd_state host s in
        (r ≡ err)
        × (t.calls ≡ s.calls)
        × (t.prometheus_last_state_ibd ≡ s.prometheus_last_state_ibd)
  unfolding disable_base_ibd_state check_block_height
  disable_base_ibd_state_low s low = ground arith

  disable_base_ibd_state-last :
      (s : State host)
      → (disable_base_ibd_state host s).1.prometheus_last_state_ibd ≡ s.prometheus_last_state_ibd
  unfolding disable_base_ibd_state check_block_height unset_clearnet_idb set_bbb_config_value
  disable_base_ibd_state-last s = ground arith

  switch_ibd-last :
      (active : Float) (on : Bool) (s : State host)
      → let (r, t) = switch_ibd host active on s in
        ((r ≡ ok) × (t.prometheus_last_state_ibd ≡ active))
        ⊎ ((r ≡ err) × (t.prometheus_last_state_ibd ≡ s.prometheus_last_state_ibd))
  unfolding switch_ibd set_bbb_config_value
  switch_ibd-last active true s = ground arith
  switch_ibd-last active false s = let e = disable_base_ibd_state-last s in ground arith

  -- The supervisor's memory of the download state follows an event's value only when the handler
  -- returns no error: with an error it keeps the value it had, so the next event tries again.
  pub handle_bitcoind_ibd-last :
      (event : Event Float) (s : State host)
      → let (r, t) = handle_bitcoind_ibd host event s in
        ((r ≡ ok) × (t.prometheus_last_state_ibd ≡ event.value))
        ⊎ (t.prometheus_last_state_ibd ≡ s.prometheus_last_state_ibd)
  unfolding handle_bitcoind_ibd
  handle_bitcoind_ibd-last event s =
      let e = switch_ibd-last event.value (equal event.value (from_int (pos 1))) s in
      let f = switch_ibd-last event.value false s in
      let g = switch_ibd-last event.value true s in ground arith
