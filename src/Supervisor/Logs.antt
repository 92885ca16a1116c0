-- ===== src/Supervisor/Logs.antt =====
-- From log lines to events: tools/bbbsupervisor/watcher/logwatcher/logwatcher.go and
-- tools/bbbsupervisor/watcher/trigger/trigger.go.
use bitbox_base.Base.{ℕ, Option, none, some, List, [], ◌∷◌, if◌then◌else◌}
use bitbox_base.Base.Text.{Text, text, split, contains, trim_suffix}

-- `Trigger` is an `int`, and these are its constants.
abbrev pub Trigger : Type 0
Trigger = ℕ

abbrev pub electrs_fully_synced : Trigger
electrs_fully_synced = 1

abbrev pub electrs_no_bitcoind_connectivity : Trigger
electrs_no_bitcoind_connectivity = 2

abbrev pub middleware_no_bitcoind_connectivity : Trigger
middleware_no_bitcoind_connectivity = 3

abbrev pub prometheus_bitcoind_ibd : Trigger
prometheus_bitcoind_ibd = 4

-- `watcher.Event`, for a type of floating-point values.
pub record Event (Float : Type 0) : Type 0 where
  pub unit : Text
  pub trigger : Trigger
  pub measure : Text
  pub value : Float

module _ {Float : Type 0} (zero_float : Float) where
  abbrev log_event : Text → Trigger → Event Float
  log_event unit t = record { unit = unit; trigger = t; measure = []; value = zero_float }

  unfoldable pub parse_event : Text → Text → Option (Event Float)
  parse_event line unit =
      if contains line (text "finished full compaction")
      then some (log_event unit electrs_fully_synced)
      else if contains line (text "WARN - reconnecting to bitcoind: no reply from daemon")
      then some (log_event unit electrs_no_bitcoind_connectivity)
      else if contains line (text "GetBlockChainInfo rpc call failed")
      then some (log_event unit middleware_no_bitcoind_connectivity)
      else none

  -- The loop of `EventWriter.Write`: the events that it sends, in order.
  unfoldable pub parse_lines : List Text → Text → List (Event Float)
  unfolding parse_event
  parse_lines [] unit = []
  parse_lines (line ∷ lines) unit =
      let rest = parse_lines lines unit in
      elim (parse_event line unit) [ none ↦ rest | some event ↦ event ∷ rest ]

  unfoldable pub event_writer_write : Text → Text → List (Event Float)
  unfolding parse_lines
  event_writer_write p unit = parse_lines (split b'\n' (trim_suffix p (b'\n' ∷ []))) unit
