-- ===== src/Supervisor/Polling.antt =====
-- The supervisor's watchers and its Prometheus client:
-- tools/bbbsupervisor/watcher/prometheuswatcher/prometheuswatcher.go and `setupWatchers` of
-- tools/bbbsupervisor/supervisor/supervisor.go, with tools/bbbsupervisor/prometheus/prometheus.go.
use bitbox_base.Base.{ℕ, ◌*◌, ◌≡◌, Bool, true, false, Option, none, some, List, [], ◌∷◌, Action}
use bitbox_base.Base.Text.{Text, text}
use bitbox_base.Base.Int.{ℤ, pos}
use bitbox_base.System.{Returns}
use bitbox_base.Prometheus.{Web}
use bitbox_base.Prometheus.Query.{QueryClient, query_float64}
use bitbox_base.Supervisor.Logs.{Trigger, Event, parse_event, prometheus_bitcoind_ibd}
use bitbox_base.Supervisor.Handling.{
  Host, State, Input, watcher_error, incoming, event_handler, second,
}

pub record PrometheusWatcher : Type 0 where
  pub unit : Text
  pub expression : Text
  pub p_client : QueryClient
  pub trigger : Trigger
  pub interval : ℕ

-- What the supervisor runs besides its Prometheus client.
pub record Daemon (web : Web) : Type 0 where
  pub run : List Text → Action web.World Bool
  pub now : Action web.World ℕ
  pub redis_get_int : Text → Action web.World (ℤ × Bool)

-- A `LogWatcher` with its unit, or a `PrometheusWatcher`.
pub data Watcher : Type 0 where
  log_watcher : Text → Watcher
  prometheus_watcher : PrometheusWatcher → Watcher

abbrev pub ibd_watcher : QueryClient → PrometheusWatcher
ibd_watcher client = record {
  unit = text "bitcoind";
  expression = text "bitcoin_ibd";
  p_client = client;
  trigger = prometheus_bitcoind_ibd;
  interval = 10 * second;
}

-- `setupWatchers`, for the supervisor's Prometheus client.
abbrev pub setup_watchers : QueryClient → List Watcher
setup_watchers client =
    log_watcher (text "bitcoind")
    ∷ log_watcher (text "lightningd")
    ∷ log_watcher (text "electrs")
    ∷ log_watcher (text "bbbmiddleware")
    ∷ prometheus_watcher (ibd_watcher client)
    ∷ []

module _ (web : Web) (daemon : Daemon web) (client : QueryClient) where
  abbrev with_success : {A : Type 0} → Returns A → A × Bool
  with_success (a, none) = (a, true)
  with_success (a, some err) = (a, false)

  abbrev pub told : {A : Type 0} → Returns A × web.World → (A × Bool) × web.World
  told (r, w) = (with_success r, w)

  -- The supervisor's host with the client of its own package.
  abbrev pub polled_host : Host
  polled_host = record {
    floats = web.floats;
    World = web.World;
    run = daemon.run;
    now = daemon.now;
    query_float64 = λ expression w. told (query_float64 web client expression w);
    redis_get_int = daemon.redis_get_int;
  }

  -- The error or the event that goes to the channel of the event loop.
  abbrev pub measured : PrometheusWatcher → Returns web.floats.Float → Input polled_host
  measured pw (value, some err) = watcher_error
  measured pw (value, none) =
      incoming
        (record { unit = pw.unit; trigger = pw.trigger; measure = pw.expression; value = value })

  unfoldable pub watch_handler : PrometheusWatcher → Action web.World (Input polled_host)
  watch_handler pw w =
      let (r, v) = query_float64 web pw.p_client pw.expression w in (measured pw r, v)

  -- The supervisor and what its Prometheus watcher waits to send on the channel of the event loop.
  pub record Watching : Type 0 where
    pub state : State polled_host
    pub in_flight : Option (Input polled_host)

  abbrev pub take_reading : PrometheusWatcher → Watching → Watching
  take_reading pw s =
      let (input, v) = watch_handler pw s.state.world in
      record { state = record (s.state) { world = v }; in_flight = some input }

  abbrev pub receive : Input polled_host → Watching → Watching
  receive input s = record { state = event_handler polled_host input s.state; in_flight = none }

  -- The event loop receives an event of a log watcher.
  abbrev pub receive_log : Event web.floats.Float → Watching → Watching
  receive_log event s = record s { state = event_handler polled_host (incoming event) s.state }

  -- One step of the goroutines: a round of `Watch` queries and then waits for the event loop, which
  -- handles what the log watchers send before and after, each event as a whole.
  pub data Step (pw : PrometheusWatcher) (s : Watching) : Watching → Type 0 where
    queries : s.in_flight ≡ none → Step pw s (take_reading pw s)
    receives : (input : Input polled_host) → s.in_flight ≡ some input → Step pw s (receive input s)
    logs :
        (line unit : Text) (event : Event web.floats.Float)
        → parse_event (web.floats.from_int (pos 0)) line unit ≡ some event
        → Step pw s (receive_log event s)

  pub data Reach (pw : PrometheusWatcher) (s : Watching) : Watching → Type 0 where
    here : Reach pw s s
    next : {t u : Watching} → Reach pw s t → Step pw t u → Reach pw s u
