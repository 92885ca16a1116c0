-- ===== src/Middleware/Download.antt =====
-- `getBaseUpdateInfo` of middleware/src/util.go, over HTTP and the JSON decoder as a parameter.
use bitbox_base.Base.{ℕ, [], false, none, some, ◌++◌, ◌≡◌, refl, Action}
use bitbox_base.Base.Text.{Text, text}
use bitbox_base.Rpcmessages.{UpdateInfo}
use bitbox_base.System.{System, GoError, Returns}
use bitbox_base.Middleware.State.{State}
use bitbox_base.Middleware.Update.{update_check}

-- `http.Client.Get` with a timeout in seconds, `json.NewDecoder(response.Body).Decode` into the zero
-- value, and `response.Body.Close`. What was decoded stands also beside an error.
pub record Http (World : Type 0) : Type 1 where
  pub Response : Type 0
  pub http_get : ℕ → Text → Action World (Returns Response)
  pub decode : Response → Action World (Returns UpdateInfo)
  pub close_body : Response → World → World

module _ {World : Type 0} (http : Http World) where
  abbrev no_update : UpdateInfo
  no_update = record { description = []; version = []; severity = [] }

  abbrev decoded : http.Response → Returns UpdateInfo × World → Returns UpdateInfo × World
  decoded response ((info, none), w) = ((info, none), http.close_body response w)
  decoded response ((info, some err), w) = (
    (
      info,
      some (record {
        is_not_exist = false;
        message = text "could not decode JSON response: " ++ err.message;
      }),
    ),
    http.close_body response w,
  )

  abbrev downloaded : Returns http.Response × World → Returns UpdateInfo × World
  downloaded ((response, some err), w) = ((no_update, some err), w)
  downloaded ((response, none), w) = decoded response (http.decode response w)

  unfoldable pub get_base_update_info : Text → Action World (Returns UpdateInfo)
  get_base_update_info url w = downloaded (http.http_get 15 url w)

-- A round of `updateCheckLoop` whose request fails, or whose answer cannot be decoded, offers no update
-- and sends no event.
pub update_check-get_base_update_info :
    (sys : System) (http : Http sys.World)
    → ((url : Text) (w : sys.World) → sys.get_update_info url w ≡ get_base_update_info http url w)
    → (s : State sys) (info : UpdateInfo) (err : GoError)
    → (get_base_update_info http s.config.image_update_info_url s.world).0 ≡ (info, some err)
    → ((update_check sys s).1.base_update_available ≡ s.base_update_available)
      × ((update_check sys s).1.events ≡ s.events)
unfolding update_check
update_check-get_base_update_info sys http same s info err failed =
    let e = same s.config.image_update_info_url s.world in rw (e, failed) (refl, refl)
