-- ===== src/Tests/Metrics.antt =====
-- A Prometheus that reports the end of the initial block download and has no number of blocks.
use bitbox_base.Base.{
  ℕ, ◌+◌, true, false, none, List, [], ◌∷◌, ◌++◌, ◌≡◌, refl, sym, ap, ◌∙◌, subst, arith, some, ltb,
  ◌==◌, ◌^◌, if◌then◌else◌,
}
use bitbox_base.Base.Text.{Text, text, text_eq, contains}
use bitbox_base.Base.Int.{ℤ, pos, eqb_ℤ, ltb_ℤ}
use bitbox_base.Base.Dict.{lookup}
use bitbox_base.Prometheus.{Web, member}
use bitbox_base.Prometheus.Client.{
  Client, new_client, vector, check_result_type, get_float, get_int, get_metric_string, query,
  first_member, get_first_result_value, get_metrics_map,
}
use bitbox_base.Prometheus.Query.{
  QueryClient, new_query_client, host, query_json, query_float64,
  parse_prometheus_response_as_float,
}
use bitbox_base.Prometheus.Agreement.{LawfulJson, get_float-query_float64}
use bitbox_base.Supervisor.Handling.{Input, new_supervisor}
use bitbox_base.Supervisor.Logs.{Event, parse_event}
use bitbox_base.Supervisor.Polling.{
  Daemon, Watching, watch_handler, take_reading, receive, receive_log, Reach, here, next, queries,
  receives, logs, polled_host, ibd_watcher,
}
use bitbox_base.Supervisor.Restarts.{OnlyRestarts}
use bitbox_base.Supervisor.Unanswered.{Fails, IsOff, Reach-OnlyRestarts}

abbrev port : QueryClient
port = new_query_client (text "9090")

abbrev blocks : Text
blocks = text "bitcoin_blocks"

abbrev ibd : Text
ibd = text "bitcoin_ibd"

-- The results by number: 0 does not exist, 3 holds 4, which maps `value` and `metric` to 5, which holds
-- 6 and 7.
abbrev result_at : Text → Text → ℕ
result_at body path =
    if text_eq path (text "status")
    then 1
    else if text_eq path (text "data.resultType")
    then 2
    else if text_eq body blocks
    then 0
    else 3

abbrev elements : ℕ → List ℕ
elements r = if r == 3 then 4 ∷ [] else if r == 5 then 6 ∷ 7 ∷ [] else []

-- The body of a response is its query.
abbrev web : Web
web = record {
  floats = record {
    Float = ℤ;
    from_int = λ z. z;
    equal = λ a b. eqb_ℤ a b;
    less = λ a b. ltb_ℤ a b;
  };
  World = ℕ;
  HttpResponse = Text;
  http_get = λ timeout url w. (
    (
      if text_eq url (text "http://localhost:9090/api/v1/query?query=bitcoin_blocks")
          then blocks
          else ibd,
      none,
    ),
    w + 1,
  );
  read_all = λ resp w. ((resp, none), w);
  close_body = λ resp w. w;
  query_escape = λ q. q;
  JsonResult = ℕ;
  no_result = 0;
  valid = λ body. true;
  json_get = λ body path. result_at body path;
  json_exists = λ r. ltb 0 r;
  to_string = λ r. if r == 1 then text "success" else if r == 2 then text "vector" else text "0";
  to_array = λ r. elements r;
  to_map = λ r. (text "value", 5) ∷ (text "metric", 5) ∷ [];
  to_float = λ r. pos 0;
  to_int = λ r. pos 0;
}

missing-elements : (r : ℕ) → ltb 0 r ≡ false → elements r ≡ []
missing-elements r missing = ground arith

lawful : LawfulJson web
lawful = record { array_of_missing = λ r missing. missing-elements r missing }

abbrev middleware_client : Client
middleware_client = new_client (text "http://localhost:9090")

ibd_json : query_json web port ibd 0 ≡ ((ibd, none), 1)
unfolding query_json text text_eq
ibd_json = refl

ibd_is_vector : check_result_type web ibd vector ≡ none
unfolding check_result_type text text_eq
ibd_is_vector = refl

ibd_value : (w : ℕ) → query_float64 web port ibd w ≡ ((pos 0, none), w + 1)
unfolding query_float64 query_json parse_prometheus_response_as_float member lookup text text_eq
ibd_value w = refl

ibd_number : get_int web middleware_client ibd 0 ≡ ((pos 0, none), 1)
unfolding get_int query get_first_result_value first_member check_result_type member lookup text
    text_eq
ibd_number = refl

ibd_metric : get_metric_string web middleware_client ibd (text "x") 0 ≡ ((text "0", none), 1)
unfolding get_metric_string get_metrics_map query first_member check_result_type member lookup text
    text_eq
ibd_metric = refl

address_same : middleware_client.address ≡ text "http://" ++ (host ++ (text ":" ++ port.port))
unfolding text
address_same = refl

get_float-query_float64_example : get_float web middleware_client ibd 0 ≡ ((pos 0, none), 1)
get_float-query_float64_example =
    get_float-query_float64 web lawful middleware_client port ibd ibd (pos 0) 0 1 address_same refl
      ibd_json ibd_is_vector (ibd_value 0)

abbrev daemon : Daemon web
daemon = record {
  run = λ command w. (true, w);
  now = λ w. (w + 10 ^ 12, w);
  redis_get_int = λ key w. ((pos 0, true), w);
}

blocks_fail : (w : ℕ) → Fails web port blocks w
unfolding query_float64 query_json parse_prometheus_response_as_float member lookup text text_eq
blocks_fail w = (pos 0, _, refl)

ibd_off : (w : ℕ) (x : ℤ) → (query_float64 web port ibd w).0 ≡ (x, none) → eqb_ℤ x (pos 1) ≡ false
ibd_off w x run =
    subst (λ v. eqb_ℤ v (pos 1) ≡ false) (sym (ap (λ r. r.0.0) (ibd_value w)) ∙ ap (λ r. r.0) run)
      refl

abbrev watching : Watching web daemon port
watching = record { state = new_supervisor (polled_host web daemon port) 0; in_flight = none }

abbrev compaction : Event ℤ
compaction = record { unit = text "electrs"; trigger = 1; measure = []; value = pos 0 }

abbrev reading : Input (polled_host web daemon port)
reading = (watch_handler web daemon port (ibd_watcher port) 0).0

-- The value is read, an event of electrs is handled before it, and then it is received.
abbrev watched : Watching web daemon port
watched = receive web daemon port reading (
    receive_log web daemon port compaction
      (take_reading web daemon port (ibd_watcher port) watching))

compaction_logged :
    parse_event (pos 0) (text "finished full compaction") (text "electrs") ≡ some compaction
unfolding parse_event contains text
compaction_logged = refl

watching-watched : Reach web daemon port (ibd_watcher port) watching watched
unfolding new_supervisor
watching-watched =
    next
      (next (next here (queries refl))
        (logs (text "finished full compaction") (text "electrs") compaction compaction_logged))
      (receives reading refl)

Reach-OnlyRestarts_example :
    OnlyRestarts web daemon port watching.state watched.state
    × IsOff web daemon port (ibd_watcher port) watched.in_flight
Reach-OnlyRestarts_example =
    Reach-OnlyRestarts web daemon port refl (ibd_watcher port) refl blocks_fail ibd_off
      watching-watched tt
