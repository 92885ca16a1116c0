-- ===== src/Supervisor/Unanswered.antt =====
-- The supervisor while Prometheus does not answer.
use mathlib.Core.List.{append-nil}
use bitbox_base.Base.{subst, Option, [], sym, ◌≡◌, ◌∙◌, refl, ap, true, false, none, some, arith}
use bitbox_base.Base.Text.{Text, text}
use bitbox_base.Base.Int.{pos}
use bitbox_base.System.{GoError, Returns}
use bitbox_base.Prometheus.{Web}
use bitbox_base.Prometheus.Query.{
  QueryClient, query_json, query_float64, float_of, parsed_value,
  parse_prometheus_response_as_float,
}
use bitbox_base.Supervisor.Logs.{Event, prometheus_bitcoind_ibd}
use bitbox_base.Supervisor.Handling.{
  Input, Host, State, err, disable_base_ibd_state, handle_bitcoind_ibd, min_block_height,
  switch_ibd, handle_event, event_handler,
}
use bitbox_base.Supervisor.Restarts.{OnlyRestarts, OnlyRestarts-trans, log-OnlyRestarts}
use bitbox_base.Supervisor.Ibd.{disable_base_ibd_state_low}
use bitbox_base.Supervisor.Polling.{
  Daemon, PrometheusWatcher, told, polled_host, measured, watch_handler, Watching, Step, queries,
  receives, logs, Reach, here, next,
}

module _ (web : Web) where
  parsed_value-zero :
      (q : Text) (r : Returns web.floats.Float) (x : web.floats.Float) (e : GoError)
      → parsed_value web q r ≡ (x, some e)
      → x ≡ web.floats.from_int (pos 0)
  parsed_value-zero q (val, some f) x e run = ground arith
  parsed_value-zero q (val, none) x e run = absurd (ground arith)

  float_of-zero :
      (q : Text) (r : Returns Text × web.World) (x : web.floats.Float) (e : GoError)
      → (float_of web q r).0 ≡ (x, some e)
      → x ≡ web.floats.from_int (pos 0)
  float_of-zero q ((json, some f), w) x e run = ground arith
  float_of-zero q ((json, none), w) x e run =
      parsed_value-zero q (parse_prometheus_response_as_float web json) x e run

  query_float64-zero :
      (c : QueryClient) (q : Text) (w : web.World) (x : web.floats.Float) (e : GoError)
      → (query_float64 web c q w).0 ≡ (x, some e)
      → x ≡ web.floats.from_int (pos 0)
  unfolding query_float64
  query_float64-zero c q w x e run = float_of-zero q (query_json web c q w) x e run

  -- The client reports an error.
  abbrev pub Fails : QueryClient → Text → web.World → Type 0
  Fails c q w = (x : web.floats.Float) × (e : GoError) × ((query_float64 web c q w).0 ≡ (x, some e))

module _ (web : Web) (daemon : Daemon web) (client : QueryClient) where
  abbrev Here : Host
  Here = polled_host web daemon client

  -- No command was run, and the state of the download is remembered as it was.
  abbrev pub IsIdle : State Here → State Here → Type 0
  IsIdle s t = (t.calls ≡ s.calls) × (t.prometheus_last_state_ibd ≡ s.prometheus_last_state_ibd)

  told-value :
      {A : Type 0} (r : Returns A × web.World) (x : A) (e : GoError)
      → r.0 ≡ (x, some e)
      → (told web daemon client r).0.0 ≡ x
  told-value ((a, none), w) x e run = absurd (ground arith)
  told-value ((a, some f), w) x e run = ap (λ r. r.0) run

  -- The height 0, which stands beside an error, is below the minimum.
  abbrev pub ZeroIsLow : Type 0
  ZeroIsLow =
      web.floats.less (web.floats.from_int (pos 0)) (web.floats.from_int (min_block_height Here))
      ≡ true

  -- What waits to be received is a reading of the watched value that is not 1, or an error.
  abbrev pub IsOff : PrometheusWatcher → Option (Input Here) → Type 0
  IsOff pw none = Unit
  IsOff pw (some input) =
      (r : Returns web.floats.Float) × (input ≡ measured web daemon client pw r)
      × ((x : web.floats.Float)
          → r ≡ (x, none)
          → web.floats.equal x (web.floats.from_int (pos 1)) ≡ false)

  module _ (low : ZeroIsLow) where
    query_float64-Fails :
        (w : web.World)
        → Fails web client (text "bitcoin_blocks") w
        → web.floats.less
            (Here.query_float64 (text "bitcoin_blocks") w).0.0
            (web.floats.from_int (min_block_height Here))
          ≡ true
    query_float64-Fails w (x, e, run) =
        rw
          (
            told-value (query_float64 web client (text "bitcoin_blocks") w) x e run,
            query_float64-zero web client (text "bitcoin_blocks") w x e run,
          )
          low

    disable_base_ibd_state-Fails :
        (s : State Here)
        → Fails web client (text "bitcoin_blocks") s.world
        → ((disable_base_ibd_state Here s).0 ≡ err) × IsIdle s (disable_base_ibd_state Here s).1
    disable_base_ibd_state-Fails s f =
        let (failed, calls, last) =
          disable_base_ibd_state_low Here s (query_float64-Fails s.world f) in
        (failed, (calls, last))

    handle_bitcoind_ibd-Fails :
        (event : Event web.floats.Float) (s : State Here)
        → web.floats.equal event.value (web.floats.from_int (pos 1)) ≡ false
        → Fails web client (text "bitcoin_blocks") s.world
        → IsIdle s (handle_bitcoind_ibd Here event s).1
    unfolding handle_bitcoind_ibd switch_ibd
    handle_bitcoind_ibd-Fails event s off f =
        let d = disable_base_ibd_state-Fails s f in ground arith

    measured-Fails :
        (pw : PrometheusWatcher) (r : Returns web.floats.Float) (s : State Here)
        → pw.trigger ≡ prometheus_bitcoind_ibd
        → ((x : web.floats.Float)
            → r ≡ (x, none)
            → web.floats.equal x (web.floats.from_int (pos 1)) ≡ false)
        → Fails web client (text "bitcoin_blocks") s.world
        → IsIdle s (event_handler Here (measured web daemon client pw r) s)
    unfolding event_handler handle_event
    measured-Fails pw (value, some e) s ibd off f = (refl, refl)
    measured-Fails pw (value, none) s ibd off f =
        let event : Event web.floats.Float = record {
          unit = pw.unit;
          trigger = prometheus_bitcoind_ibd;
          measure = pw.expression;
          value = value;
        } in
        let h = handle_bitcoind_ibd-Fails event s (off value refl) f in rw ibd h

    IsIdle-OnlyRestarts : (s t : State Here) → IsIdle s t → OnlyRestarts web daemon client s t
    IsIdle-OnlyRestarts s t (c, l) = ([], c ∙ sym (append-nil s.calls), tt, l)

    module _ (pw : PrometheusWatcher) where
      Step-IsOff :
          pw.trigger ≡ prometheus_bitcoind_ibd
          → ((w : web.World) → Fails web client (text "bitcoin_blocks") w)
          → ((w : web.World) (x : web.floats.Float)
              → (query_float64 web pw.p_client pw.expression w).0 ≡ (x, none)
              → web.floats.equal x (web.floats.from_int (pos 1)) ≡ false)
          → {s t : Watching web daemon client} → Step web daemon client pw s t
          → IsOff pw s.in_flight
          → OnlyRestarts web daemon client s.state t.state × IsOff pw t.in_flight
      unfolding watch_handler
      Step-IsOff ibd fails off {s} (queries free) was = (
        IsIdle-OnlyRestarts s.state s.state (refl, refl),
        ((query_float64 web pw.p_client pw.expression s.state.world).0, refl, off s.state.world),
      )
      Step-IsOff ibd fails off {s} (receives input is) was =
          let (r, e, quiet) = subst (IsOff pw) is was in
          let idle = measured-Fails pw r s.state ibd quiet (fails s.state.world) in
          (
            IsIdle-OnlyRestarts s.state (event_handler Here input s.state)
                (subst (λ i. IsIdle s.state (event_handler Here i s.state)) (sym e) idle),
            tt,
          )
      Step-IsOff ibd fails off {s} (logs line unit event parsed) was =
          (log-OnlyRestarts web daemon client line unit event s.state parsed, was)

      -- For floats in which 0 is less than the minimal height, and from a state in which no reading 1
      -- waits to be received: as long as every query for the number of blocks fails and no reading of
      -- the watched value is 1, the supervisor runs no command but restarts of units, which the events
      -- of the log watchers cause, and keeps the last state of the initial block download that it has
      -- handled. This is so in whatever order the rounds of the Prometheus watcher and the events of
      -- the log watchers come, and however often Prometheus reports that the download is over.
      pub Reach-OnlyRestarts :
          pw.trigger ≡ prometheus_bitcoind_ibd
          → ((w : web.World) → Fails web client (text "bitcoin_blocks") w)
          → ((w : web.World) (x : web.floats.Float)
              → (query_float64 web pw.p_client pw.expression w).0 ≡ (x, none)
              → web.floats.equal x (web.floats.from_int (pos 1)) ≡ false)
          → {s t : Watching web daemon client} → Reach web daemon client pw s t
          → IsOff pw s.in_flight
          → OnlyRestarts web daemon client s.state t.state × IsOff pw t.in_flight
      Reach-OnlyRestarts ibd fails off {s} here was =
          (IsIdle-OnlyRestarts s.state s.state (refl, refl), was)
      Reach-OnlyRestarts ibd fails off {s} {t} (next {t = u} r step) was =
          let (before, waits) = Reach-OnlyRestarts ibd fails off r was in
          let (after, waits') = Step-IsOff ibd fails off step waits in
          (OnlyRestarts-trans web daemon client s.state u.state t.state before after, waits')
