-- ===== src/Prometheus/Client.antt =====
-- The client of the middleware: middleware/src/prometheus/prometheus.go.
use bitbox_base.Base.{not, Option, none, some, List, [], ◌∷◌, ◌++◌, Action, if◌then◌else◌}
use bitbox_base.Base.Text.{Text, text, text_eq}
use bitbox_base.Base.Int.{ℤ, pos}
use bitbox_base.System.{GoError, Returns, PrometheusClient}
use bitbox_base.Prometheus.{Web, errorf, member, read_body}

pub record Client : Type 0 where
  pub address : Text

abbrev pub new_client : Text → Client
new_client address = record { address = address }

abbrev pub success : Text
success = text "success"

abbrev pub vector : Text
vector = text "vector"

module _ (web : Web) where
  open web use {World, JsonResult}

  -- What `query` makes of a body that was read.
  abbrev pub checked_response : Returns Text → Returns Text
  checked_response (body, some err) = ([], some err)
  checked_response (body, none) =
      if not (web.valid body)
      then (
        [],
        some (
            errorf (text "received invalid JSON from as result of the Prometheus query: " ++ body)),
      )
      else if not (text_eq success (web.to_string (web.json_get body (text "status"))))
      then ([], some (errorf (text "the Prometheus query failed: " ++ body)))
      else (body, none)

  abbrev pub query_url : Client → Text → Text
  query_url client q = client.address ++ (text "/api/v1/query?query=" ++ web.query_escape q)

  unfoldable pub query : Client → Text → Action World (Returns Text)
  query client q w =
      let (read, v) =
        read_body web (text "a HTTP error occurred: ") (text "could not read response body: ")
          (web.http_get 5 (query_url client q) w) in
      (checked_response read, v)

  unfoldable pub check_result_type : Text → Text → Option GoError
  check_result_type r expected =
      let query_result_type = web.json_get r (text "data.resultType") in
      if not (web.json_exists query_result_type)
      then some (errorf (text "the JSON response does not have a field 'data.resultType'"))
      else if not (text_eq (web.to_string query_result_type) expected)
      then some (
          errorf (
            text "the JSON response field 'data.resultType' does not match the expected value of '"
            ++ (expected ++ (text "'. It's '" ++ (web.to_string query_result_type ++ text "'")))))
      else none

  abbrev fails : {A : Type 0} → A → Text → Returns A
  fails a message = (a, some (errorf message))

  -- The member `key` of the first entry of `data.result`: the steps that `getFirstResultValue` and
  -- `getMetricsMap` have in common.
  abbrev pub entry_member : Text → Text → List JsonResult → Returns JsonResult
  entry_member key missing [] =
      fails web.no_result (text "the query result does not have any result entries")
  entry_member key missing (first ∷ _) =
      let value = member web key (web.to_map first) in
      if not (web.json_exists value) then fails web.no_result missing else (value, none)

  abbrev pub typed_member : Text → Text → Text → Option GoError → Returns JsonResult
  typed_member r key missing (some err) = (web.no_result, some err)
  typed_member r key missing none =
      let query_result = web.json_get r (text "data.result") in
      if not (web.json_exists query_result)
      then fails web.no_result (text "the query result does not have 'data.result'")
      else entry_member key missing (web.to_array query_result)

  unfoldable pub first_member : Text → Text → Text → Returns JsonResult
  first_member r key missing = typed_member r key missing (check_result_type r vector)

  abbrev pub second_of : List JsonResult → Returns JsonResult
  second_of (_ ∷ value ∷ _) = (value, none)
  second_of _ = fails web.no_result (text "the first query result value has less than two entries")

  abbrev pub value_of : Returns JsonResult → Returns JsonResult
  value_of (_, some err) = (web.no_result, some err)
  value_of (value, none) = second_of (web.to_array value)

  unfoldable pub get_first_result_value : Text → Returns JsonResult
  get_first_result_value r = value_of (
      first_member r (text "value")
        (text "the query result does not have 'data.result[0]['values']'"))

  abbrev pub map_or : Returns JsonResult → Returns (List (Text × JsonResult))
  map_or (_, some err) = ([], some err)
  map_or (metric, none) = (web.to_map metric, none)

  unfoldable pub get_metrics_map : Text → Returns (List (Text × JsonResult))
  get_metrics_map r = map_or (
      first_member r (text "metric")
        (text "the query result does not have 'data.result[0]['metric']'"))

  -- `could not ... <what>: <err>`
  abbrev pub explained : Text → Text → GoError → GoError
  explained before what err = errorf (before ++ (what ++ (text ": " ++ err.message)))

  abbrev pub converted : {A : Type 0} → A → Text → (JsonResult → A) → Returns JsonResult → Returns A
  converted zero r f (value, some err) = (
    zero,
    some (explained (text "could not get the first result value from '") (r ++ text "'") err),
  )
  converted zero r f (value, none) = (f value, none)

  -- `GetFloat` and `GetInt`, which differ in the conversion only.
  abbrev pub number_of :
      {A : Type 0} → A → Text → (JsonResult → A) → Returns Text × World → Returns A × World
  number_of zero q f ((r, some err), w) = (
    (zero, some (explained (text "could not query an integer for query '") (q ++ text "'") err)),
    w,
  )
  number_of zero q f ((r, none), w) = (converted zero r f (get_first_result_value r), w)

  unfoldable pub get_float : Client → Text → Action World (Returns web.floats.Float)
  get_float client q w = number_of (web.floats.from_int (pos 0)) q web.to_float (query client q w)

  unfoldable pub get_int : Client → Text → Action World (Returns ℤ)
  get_int client q w = number_of (pos 0) q web.to_int (query client q w)

  abbrev pub metric_of : Text → Text → Returns (List (Text × JsonResult)) → Returns Text
  metric_of r metric (_, some err) = (
    [],
    some (
        explained (text "could not read the metrics map from Prometheus (response: ")
          (r ++ text ")") err),
  )
  metric_of r metric (m, none) = (web.to_string (member web metric m), none)

  abbrev pub metric_string_of : Text → Text → Returns Text × World → Returns Text × World
  metric_string_of q metric ((r, some err), w) =
      (([], some (explained (text "could not query '") (q ++ text "' from Prometheus") err)), w)
  metric_string_of q metric ((r, none), w) = (metric_of r metric (get_metrics_map r), w)

  unfoldable pub get_metric_string : Client → Text → Text → Action World (Returns Text)
  get_metric_string client q metric w = metric_string_of q metric (query client q w)

  -- The client as the middleware calls it.
  abbrev pub prometheus_client : Client → PrometheusClient World web.floats.Float
  prometheus_client client = record {
    get_int = get_int client;
    get_float = get_float client;
    get_metric_string = get_metric_string client;
  }
