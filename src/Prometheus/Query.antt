-- ===== src/Prometheus/Query.antt =====
-- The client of the supervisor: tools/bbbsupervisor/prometheus/prometheus.go.
use bitbox_base.Base.{not, none, some, List, [], ◌∷◌, ◌++◌, Action, length, if◌then◌else◌}
use bitbox_base.Base.Text.{Text, text, text_eq}
use bitbox_base.Base.Int.{pos, negsuc}
use bitbox_base.Base.Decimal.{decimal}
use bitbox_base.System.{Returns}
use bitbox_base.Prometheus.{Web, errorf, member, read_body}

-- The client, without the package's name of the middleware's client.
pub record QueryClient : Type 0 where
  pub port : Text

abbrev pub new_query_client : Text → QueryClient
new_query_client port = record { port = port }

abbrev pub host : Text
host = text "localhost"

module _ (web : Web) where
  open web use {World, JsonResult}

  abbrev Float : Type 0
  Float = web.floats.Float

  abbrev pub checked_json : Returns Text → Returns Text
  checked_json (body, some err) = ([], some err)
  checked_json (body, none) =
      if not (web.valid body)
      then ([], some (errorf (text "prometheus request returned invalid JSON: " ++ body)))
      else (body, none)

  abbrev pub json_url : QueryClient → Text → Text
  json_url c expression =
      text "http://"
      ++ (host ++ (text ":" ++ (c.port ++ (text "/api/v1/query?query=" ++ expression))))

  unfoldable pub query_json : QueryClient → Text → Action World (Returns Text)
  query_json c expression w =
      let (read, v) =
        read_body web (text "failed to perform a get GET on the prometheus server: ")
          (text "failed to read response body from prometheus request: ")
          (web.http_get 5 (json_url c expression) w) in
      (checked_json read, v)

  abbrev unparsed : Text → Returns Float
  unparsed message = (web.floats.from_int (negsuc 0), some (errorf message))

  abbrev unexpected : {A : Type 0} → List A → Text → Text → Returns Float
  unexpected l of json = unparsed (
      text "unexpectedly got "
      ++ (decimal (length l) ++ (of ++ (text " from prometheus request: " ++ json))))

  abbrev pub parse_values : Text → List JsonResult → Returns Float
  parse_values json (time ∷ value ∷ []) =
      if not (web.json_exists value)
      then unparsed (text "the result value does not exist: " ++ json)
      else (web.to_float value, none)
  parse_values json l = unexpected l (text " values") json

  abbrev pub parse_results : Text → List JsonResult → Returns Float
  parse_results json (only ∷ []) =
      parse_values json (web.to_array (member web (text "value") (web.to_map only)))
  parse_results json l = unexpected l (text " results") json

  unfoldable pub parse_prometheus_response_as_float : Text → Returns Float
  parse_prometheus_response_as_float json =
      let status = web.to_string (web.json_get json (text "status")) in
      if not (text_eq status (text "success"))
      then unparsed
          (text "prometheus request returned non-success (" ++ (status ++ (text "): " ++ json)))
      else parse_results json (web.to_array (web.json_get json (text "data.result")))

  abbrev pub parsed_value : Text → Returns Float → Returns Float
  parsed_value expression (val, some err) = (
    web.floats.from_int (pos 0),
    some (
        errorf (
          text "Could parse response from '" ++ (expression ++ (text "' query: " ++ err.message)))),
  )
  parsed_value expression (val, none) = (val, none)

  abbrev pub float_of : Text → Returns Text × World → Returns Float × World
  float_of expression ((json, some err), w) = (
    (
      web.floats.from_int (pos 0),
      some (
          errorf (
            text "Could not query " ++ (expression ++ (text " from prometheus: " ++ err.message)))),
    ),
    w,
  )
  float_of expression ((json, none), w) =
      (parsed_value expression (parse_prometheus_response_as_float json), w)

  unfoldable pub query_float64 : QueryClient → Text → Action World (Returns Float)
  query_float64 c expression w = float_of expression (query_json c expression w)
