-- ===== src/Prometheus/Agreement.antt =====
-- The clients of middleware/src/prometheus/prometheus.go and
-- tools/bbbsupervisor/prometheus/prometheus.go on the same answer.
use mathlib.Core.List.{append_assoc}
use bitbox_base.Base.{
  true, false, none, some, List, [], ◌∷◌, ◌++◌, ◌≡◌, refl, ap, subst, arith, Bool-cases, inl, inr,
}
use bitbox_base.Base.Text.{Text, text, text_eq, text_eq_iff, text_eq_self}
use bitbox_base.System.{Returns}
use bitbox_base.Prometheus.{Web, member, read_as, read_body}
use bitbox_base.Prometheus.Client.{
  Client, vector, checked_response, query_url, query, check_result_type, first_member,
  get_first_result_value, get_float,
}
use bitbox_base.Prometheus.Query.{
  QueryClient, host, checked_json, json_url, query_json, parse_values, parse_results,
  parse_prometheus_response_as_float, float_of, parsed_value, query_float64,
}

-- What the documentation of gjson says of `Array` on a result that does not exist.
pub record LawfulJson (web : Web) : Type 0 where
  pub array_of_missing : (r : web.JsonResult) → web.json_exists r ≡ false → web.to_array r ≡ []

module _ (web : Web) where
  read_as-same :
      (a b : Text) (resp : web.HttpResponse) (r : Returns Text × web.World) (json : Text)
      (v : web.World)
      → read_as web a resp r ≡ ((json, none), v)
      → read_as web b resp r ≡ ((json, none), v)
  read_as-same a b resp ((body, some err), w) json v run = absurd (ground arith)
  read_as-same a b resp ((body, none), w) json v run = run

  -- Without an error, the texts of the errors do not matter.
  read_body-same :
      (a b c d : Text) (r : Returns web.HttpResponse × web.World) (json : Text) (v : web.World)
      → read_body web a b r ≡ ((json, none), v)
      → read_body web c d r ≡ ((json, none), v)
  read_body-same a b c d ((resp, some err), w) json v run = absurd (ground arith)
  read_body-same a b c d ((resp, none), w) json v run =
      read_as-same b d resp (web.read_all resp w) json v run

  checked_json-valid :
      (r : Returns Text × web.World) (json : Text) (v : web.World)
      → ◌≡◌ {A = Returns Text × web.World} (checked_json web (r.0), r.1) ((json, none), v)
      → (r ≡ ((json, none), v)) × (web.valid json ≡ true)
  checked_json-valid ((body, some err), w) json v run = absurd (ground arith)
  checked_json-valid ((body, none), w) json v run = elim (Bool-cases (web.valid body)) [
    | inl e ↦ ground arith
    | inr e ↦ absurd (ground arith)
  ]

  parse_values-second :
      (json : Text) (l : List web.JsonResult) (x : web.floats.Float)
      → parse_values web json l ≡ (x, none)
      → (time value : web.JsonResult) × (l ≡ time ∷ value ∷ []) × (x ≡ web.to_float value)
  parse_values-second json (time ∷ value ∷ []) x run = (time, value, refl, ground arith)
  parse_values-second json [] x run = absurd (ground arith)
  parse_values-second json (a ∷ []) x run = absurd (ground arith)
  parse_values-second json (a ∷ b ∷ c ∷ l) x run = absurd (ground arith)

  parse_results-only :
      (json : Text) (l : List web.JsonResult) (x : web.floats.Float)
      → parse_results web json l ≡ (x, none)
      → (only : web.JsonResult) × (l ≡ only ∷ [])
        × (parse_values web json (web.to_array (member web (text "value") (web.to_map only)))
            ≡ (x, none))
  parse_results-only json (only ∷ []) x run = (only, refl, run)
  parse_results-only json [] x run = absurd (ground arith)
  parse_results-only json (a ∷ b ∷ l) x run = absurd (ground arith)

  parsed_value-some :
      (q : Text) (r : Returns web.floats.Float) (x : web.floats.Float)
      → parsed_value web q r ≡ (x, none)
      → r ≡ (x, none)
  parsed_value-some q (val, some err) x run = absurd (ground arith)
  parsed_value-some q (val, none) x run = run

  float_of-parsed :
      (q json : Text) (x : web.floats.Float) (v : web.World)
      → float_of web q ((json, none), v) ≡ ((x, none), v)
      → parse_prometheus_response_as_float web json ≡ (x, none)
  float_of-parsed q json x v run =
      parsed_value-some q (parse_prometheus_response_as_float web json) x (ap (λ r. r.0) run)

  -- What the parser has found when it gives a value.
  record Found (json : Text) (x : web.floats.Float) : Type 0 where
    only : web.JsonResult
    time : web.JsonResult
    value : web.JsonResult
    success : text_eq (web.to_string (web.json_get json (text "status"))) (text "success") ≡ true
    results : web.to_array (web.json_get json (text "data.result")) ≡ only ∷ []
    values : web.to_array (member web (text "value") (web.to_map only)) ≡ time ∷ value ∷ []
    measured : x ≡ web.to_float value

  parse_results-Found :
      (json : Text) (x : web.floats.Float)
      → text_eq (web.to_string (web.json_get json (text "status"))) (text "success") ≡ true
      → parse_results web json (web.to_array (web.json_get json (text "data.result"))) ≡ (x, none)
      → Found json x
  parse_results-Found json x success run =
      let (only, results, one) =
        parse_results-only json (web.to_array (web.json_get json (text "data.result"))) x run in
      let (time, value, values, measured) =
        parse_values-second json (web.to_array (member web (text "value") (web.to_map only))) x
          one in
      record {
        only = only;
        time = time;
        value = value;
        success = success;
        results = results;
        values = values;
        measured = measured;
      }

  parse-Found :
      (json : Text) (x : web.floats.Float)
      → parse_prometheus_response_as_float web json ≡ (x, none)
      → Found json x
  unfolding parse_prometheus_response_as_float
  parse-Found json x run =
      elim (Bool-cases
        (text_eq (web.to_string (web.json_get json (text "status"))) (text "success"))) [
          | inl e ↦ parse_results-Found json x e (ground (arith, e, run))
          | inr e ↦ absurd (ground arith)
        ]

  module _ (law : LawfulJson web) where
    array-exists :
        (r first : web.JsonResult) (rest : List web.JsonResult)
        → web.to_array r ≡ first ∷ rest
        → web.json_exists r ≡ true
    array-exists r first rest e = elim (Bool-cases (web.json_exists r)) [
      | inl there ↦ there
      | inr missing ↦ let empty = law.array_of_missing r missing in absurd (ground arith)
    ]

    get_first_result_value-Found :
        (json : Text) (x : web.floats.Float) (f : Found json x)
        → check_result_type web json vector ≡ none
        → get_first_result_value web json ≡ (f.value, none)
    unfolding get_first_result_value first_member
    get_first_result_value-Found json x f typed =
        rw
          (
            typed,
            array-exists (web.json_get json (text "data.result")) f.only [] f.results,
            f.results,
            array-exists (member web (text "value") (web.to_map f.only)) f.time (f.value ∷ [])
                f.values,
            f.values,
          )
          refl

    checked_response-Found :
        (json : Text) (x : web.floats.Float)
        → Found json x
        → web.valid json ≡ true
        → checked_response web (json, none) ≡ (json, none)
    checked_response-Found json x f ok =
        let status =
          text_eq_iff (web.to_string (web.json_get json (text "status"))) (text "success") in
        rw (ok, status.0 f.success, text_eq_self (text "success")) refl

    same_url :
        (client : Client) (c : QueryClient) (q : Text)
        → client.address ≡ text "http://" ++ (host ++ (text ":" ++ c.port))
        → web.query_escape q ≡ q
        → query_url web client q ≡ json_url web c q
    same_url client c q address plain = simp (address, plain, append_assoc)

    query-query_json :
        (client : Client) (c : QueryClient) (q json : Text) (x : web.floats.Float) (w v : web.World)
        → client.address ≡ text "http://" ++ (host ++ (text ":" ++ c.port))
        → web.query_escape q ≡ q
        → Found json x
        → query_json web c q w ≡ ((json, none), v)
        → query web client q w ≡ ((json, none), v)
    unfolding query query_json
    query-query_json client c q json x w v address plain f run =
        let url = same_url client c q address plain in
        let a = text "failed to perform a get GET on the prometheus server: " in
        let b = text "failed to read response body from prometheus request: " in
        let got = web.http_get 5 (json_url web c q) w in
        let (read, ok) = checked_json-valid (read_body web a b got) json v run in
        let body =
          read_body-same a b (text "a HTTP error occurred: ")
            (text "could not read response body: ") got json v read in
        rw (url, body, checked_response-Found json x f ok) refl

    -- When the client of the supervisor gives a value, the client of the middleware gives the same
    -- value and does the same calls, if both are asked for the same query at the same address, the
    -- query needs no escaping and the type of the result is a vector.
    pub get_float-query_float64 :
        (client : Client) (c : QueryClient) (q json : Text) (x : web.floats.Float) (w v : web.World)
        → client.address ≡ text "http://" ++ (host ++ (text ":" ++ c.port))
        → web.query_escape q ≡ q
        → query_json web c q w ≡ ((json, none), v)
        → check_result_type web json vector ≡ none
        → query_float64 web c q w ≡ ((x, none), v)
        → get_float web client q w ≡ ((x, none), v)
    unfolding get_float query_float64
    get_float-query_float64 client c q json x w v address plain asked typed run =
        let f =
          parse-Found json x (
            float_of-parsed q json x v
              (subst (λ r. float_of web q r ≡ ((x, none), v)) asked run)) in
        rw
          (
            query-query_json client c q json x w v address plain f asked,
            get_first_result_value-Found json x f typed,
            f.measured,
          )
          refl
