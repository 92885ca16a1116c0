-- ===== src/Prometheus.antt =====
-- The two Prometheus clients: middleware/src/prometheus/prometheus.go in Client and
-- tools/bbbsupervisor/prometheus/prometheus.go in Query. HTTP, `url.QueryEscape` and the package gjson
-- are a parameter.
pub mod Client
pub mod Query
pub mod Agreement
use bitbox_base.Base.{ℕ, Bool, false, Option, none, some, List, [], ◌++◌, Action}
use bitbox_base.Base.Text.{Text}
use bitbox_base.Base.Int.{ℤ}
use bitbox_base.Base.Dict.{lookup}
use bitbox_base.System.{GoError, Returns}
use bitbox_base.Supervisor.Handling.{Floats}

pub record Web : Type 1 where
  pub floats : Floats
  pub World : Type 0
  pub HttpResponse : Type 0
  -- `http.Client.Get` with a timeout in seconds, `ioutil.ReadAll(resp.Body)` and `resp.Body.Close`.
  pub http_get : ℕ → Text → Action World (Returns HttpResponse)
  pub read_all : HttpResponse → Action World (Returns Text)
  pub close_body : HttpResponse → World → World
  pub query_escape : Text → Text
  -- `gjson.Result` with its methods, and the Result that a missing key of a Go map gives.
  pub JsonResult : Type 0
  pub no_result : JsonResult
  pub valid : Text → Bool
  pub json_get : Text → Text → JsonResult
  pub json_exists : JsonResult → Bool
  pub to_string : JsonResult → Text
  pub to_array : JsonResult → List JsonResult
  pub to_map : JsonResult → List (Text × JsonResult)
  pub to_float : JsonResult → floats.Float
  pub to_int : JsonResult → ℤ

-- `fmt.Errorf`
abbrev pub errorf : Text → GoError
errorf message = record { is_not_exist = false; message = message }

module _ (web : Web) where
  abbrev pub member_or : Option web.JsonResult → web.JsonResult
  member_or none = web.no_result
  member_or (some r) = r

  -- The value of a key of the map.
  unfoldable pub member : Text → List (Text × web.JsonResult) → web.JsonResult
  member key m = member_or (lookup key m)

  abbrev pub read_as : Text → web.HttpResponse → Returns Text × web.World → Returns Text × web.World
  read_as before resp ((body, some err), w) =
      (([], some (errorf (before ++ err.message))), web.close_body resp w)
  read_as before resp ((body, none), w) = ((body, none), web.close_body resp w)

  -- The body of a response, with what stands before the message of an error. The body is closed when
  -- the function returns.
  abbrev pub read_body :
      Text → Text → Returns web.HttpResponse × web.World → Returns Text × web.World
  read_body get_error read_error ((resp, some err), w) =
      (([], some (errorf (get_error ++ err.message))), w)
  read_body get_error read_error ((resp, none), w) = read_as read_error resp (web.read_all resp w)
