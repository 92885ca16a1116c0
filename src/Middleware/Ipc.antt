-- ===== src/Middleware/Ipc.antt =====
-- Notifications of other processes: the package middleware/src/ipcnotification and
-- `ipcNotificationLoop` of middleware/src/middleware.go. `unmarshal` is `json.Unmarshal` into a
-- `Notification`.
pub mod Delivered
use bitbox_base.Base.{
  Bool, true, false, Option, none, some, List, [], ◌∷◌, leb, length, pure, ◌>>◌, if◌then◌else◌,
}
use bitbox_base.Base.Text.{Text, text, text_eq}
use bitbox_base.Base.Int.{ℤ}
use bitbox_base.Rpcmessages.{base_update_success, base_update_failure}
use bitbox_base.System.{System, Returns}
use bitbox_base.Middleware.State.{State, M, send}

-- An `interface{}` that encoding/json has filled; a number is kept as its text.
mutual
  pub data Json : Type 0 where
    json_null : Json
    json_bool : Bool → Json
    json_number : Text → Json
    json_string : Text → Json
    json_array : Items → Json
    json_object : Members → Json

  pub data Items : Type 0 where
    no_item : Items
    item : Json → Items → Items

  pub data Members : Type 0 where
    no_member : Members
    member : Text → Json → Members → Members

pub record Notification : Type 0 where
  pub version : ℤ
  pub topic : Text
  pub payload : Json

unfoldable pub find_member : Text → Members → Option Json
unfolding text_eq
find_member key no_member = none
find_member key (member k value members) =
    if text_eq k key then some value else find_member key members

abbrev success_of : Option Json → Bool × Bool
success_of (some (json_bool success)) = (success, true)
success_of _ = (false, false)

-- `ParseMenderUpdatePayload`: the value, and whether there is one.
unfoldable pub parse_mender_update_payload : Json → Bool × Bool
unfolding find_member text
parse_mender_update_payload (json_object members) =
    success_of (find_member (text "success") members)
parse_mender_update_payload _ = (false, false)

module _ (unmarshal : Text → Returns Notification) where
  abbrev received : Returns Notification → List Notification → List Notification
  received (notification, some err) later = later
  received (notification, none) later = notification ∷ later

  -- The loop of `read` over the lines of the pipe, until its scanner ends: what it passes on.
  unfoldable pub read_notifications : List Text → List Notification
  read_notifications [] = []
  read_notifications (line ∷ lines) =
      let later = read_notifications lines in
      let passed = received (unmarshal line) later in
      if leb 4096 (length line) then later else passed

module _ (sys : System) where
  abbrev pub report : Bool × Bool → M sys (Unit {0})
  report (true, true) =
      send sys (record { identifier = base_update_success; queue_if_no_client = true })
  report (false, true) =
      send sys (record { identifier = base_update_failure; queue_if_no_client = true })
  report (success, false) = pure tt

  -- A version that is not supported is only logged.
  unfoldable pub handle_notification : Notification → M sys (Unit {0})
  unfolding parse_mender_update_payload text_eq text
  handle_notification n =
      if text_eq n.topic (text "mender-update")
      then report (parse_mender_update_payload n.payload)
      else pure tt

  unfoldable pub ipc_notification_loop : List Notification → M sys (Unit {0})
  unfolding handle_notification
  ipc_notification_loop [] = pure tt
  ipc_notification_loop (n ∷ ns) = handle_notification n >> ipc_notification_loop ns
