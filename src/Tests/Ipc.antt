-- ===== src/Tests/Ipc.antt =====
-- Notifications on the small device.
use bitbox_base.Base.{true, none, some, List, [], ◌∷◌, ◌++◌, ◌≡◌, refl, if◌then◌else◌}
use bitbox_base.Base.Text.{Text, text, text_eq}
use bitbox_base.Base.Int.{pos}
use bitbox_base.Rpcmessages.{base_update_success}
use bitbox_base.System.{Returns}
use bitbox_base.Middleware.State.{Event}
use bitbox_base.Middleware.Ipc.{
  Notification, json_bool, json_object, member, no_member, read_notifications,
  ipc_notification_loop,
}
use bitbox_base.Middleware.Ipc.Delivered.{Delivers, ipc_notification_loop-Delivers}
use bitbox_base.Tests.Demo.{demo, idle, exit_error}

abbrev update_notification : Notification
update_notification = record {
  version = pos 2;
  topic = text "mender-update";
  payload = json_object (member (text "success") (json_bool true) no_member);
}

-- A line is the name of a notification.
unfoldable demo_unmarshal : Text → Returns Notification
unfolding text_eq text
demo_unmarshal line =
    if text_eq line (text "updated")
    then (update_notification, none)
    else (update_notification, some exit_error)

abbrev lines : List Text
lines = text "noise" ∷ text "updated" ∷ []

-- An unsupported version.
ipc_events :
    (ipc_notification_loop demo (read_notifications demo_unmarshal lines) idle).1.events
    ≡ idle.events ++ (record { identifier = base_update_success; queue_if_no_client = true } ∷ [])
unfolding ipc_notification_loop read_notifications demo_unmarshal text
ipc_events = refl

ipc_notification_loop-Delivers_example :
    (events : List Event) × Delivers demo_unmarshal lines events
    × ((ipc_notification_loop demo (read_notifications demo_unmarshal lines) idle).1
        ≡ record idle { events = idle.events ++ events })
ipc_notification_loop-Delivers_example =
    ipc_notification_loop-Delivers demo demo_unmarshal lines idle
