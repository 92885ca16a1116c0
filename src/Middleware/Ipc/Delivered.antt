-- ===== src/Middleware/Ipc/Delivered.antt =====
-- Which lines of the named pipe reach the clients (middleware/src/ipcnotification and
-- `ipcNotificationLoop` of middleware/src/middleware.go).
use mathlib.Core.List.{append_assoc, append-nil}
use bitbox_base.Base.{
  Bool, true, false, Option, none, some, List, [], ◌∷◌, ◌++◌, ◌≤◌, ◌<◌, ◌≡◌, ◌≢◌, ◌⊎◌, inl, inr,
  refl, sym, ap, ◌∙◌, length, leb, arith, Bool-cases, Option-cases, true-ne-false, if◌then◌else◌,
}
use bitbox_base.Base.Text.{Text, text, text_eq, text_eq_iff}
use bitbox_base.Rpcmessages.{base_update_success, base_update_failure}
use bitbox_base.System.{System, GoError, Returns}
use bitbox_base.Middleware.State.{State, Event}
use bitbox_base.Middleware.Ipc.{
  report, Json, json_bool, json_object, Members, Notification, find_member,
  parse_mender_update_payload, read_notifications, handle_notification, ipc_notification_loop,
}

abbrev pub update_event : Bool → Event
update_event success = record {
  identifier = if success then base_update_success else base_update_failure;
  queue_if_no_client = true;
}

-- The result of an update, in a notification of any version.
pub record TellsResult (n : Notification) (success : Bool) : Type 0 where
  pub topic : n.topic ≡ text "mender-update"
  pub members : Members
  pub payload : n.payload ≡ json_object members
  pub result : find_member (text "success") members ≡ some (json_bool success)

module _ (unmarshal : Text → Returns Notification) where
  -- Why a line is not passed on to the clients.
  pub data IsSilent (line : Text) : Type 0 where
    too_long : 4096 ≤ length line → IsSilent line
    malformed : {err : GoError} → (unmarshal line).1 ≡ some err → IsSilent line
    meaningless : ((b : Bool) → TellsResult (unmarshal line).0 b → ⊥) → IsSilent line

  -- The events for the lines of the pipe, in their order.
  pub data Delivers : List Text → List Event → Type 0 where
    ended : Delivers [] []
    told :
        {line : Text} {lines : List Text} {events : List Event} (success : Bool)
        → length line < 4096
        → (unmarshal line).1 ≡ none
        → TellsResult (unmarshal line).0 success
        → Delivers lines events
        → Delivers (line ∷ lines) (update_event success ∷ events)
    silent :
        {line : Text} {lines : List Text} {events : List Event}
        → IsSilent line
        → Delivers lines events
        → Delivers (line ∷ lines) events

-- The success that a payload reports, or that it reports none.
abbrev ParseCase : Json → Type 0
ParseCase p =
    ((b : Bool) × (members : Members) × (p ≡ json_object members)
      × (find_member (text "success") members ≡ some (json_bool b))
      × (parse_mender_update_payload p ≡ (b, true)))
    ⊎ (((members : Members) (b : Bool)
          → p ≡ json_object members
          → find_member (text "success") members ≢ some (json_bool b))
        × (parse_mender_update_payload p ≡ (false, false)))

parse_found :
    (members : Members) (found : Option Json)
    → find_member (text "success") members ≡ found
    → ParseCase (json_object members)
unfolding parse_mender_update_payload
parse_found members none e = inr (λ ms b p f. cc, rw e refl)
parse_found members (some (json_bool b)) e = inl (b, members, refl, e, rw e refl)
parse_found members (some v) e = inr (λ ms b p f. cc, rw e refl)

parse_cases : (p : Json) → ParseCase p
unfolding parse_mender_update_payload
parse_cases (json_object members) = parse_found members (find_member (text "success") members) refl
parse_cases p = inr (λ members b e f. cc, refl)

module _ (sys : System) where
  abbrev with_events : State sys → List Event → State sys
  with_events s es = record s { events = s.events ++ es }

  -- What one notification does.
  abbrev HandleCase : Notification → State sys → Type 0
  HandleCase n s =
      ((b : Bool) × TellsResult n b
        × ((handle_notification sys n s).1 ≡ with_events s (update_event b ∷ [])))
      ⊎ (((b : Bool) → TellsResult n b → ⊥) × ((handle_notification sys n s).1 ≡ s))

  handle_parsed :
      (n : Notification) (s : State sys)
      → text_eq n.topic (text "mender-update") ≡ true
      → ParseCase n.payload
      → HandleCase n s
  unfolding handle_notification
  handle_parsed n s e (inl (b, members, p, r, parsed)) =
      let tells : TellsResult n b = record {
        topic = (text_eq_iff n.topic (text "mender-update")).0 e;
        members = members;
        payload = p;
        result = r;
      } in
      inl (b, tells, rw (e, parsed) (told_lem b))
    where
      told_lem : (c : Bool) → (report sys (c, true) s).1 ≡ with_events s (update_event c ∷ [])
      told_lem true = refl
      told_lem false = refl
  handle_parsed n s e (inr (untold, parsed)) =
      inr ((λ b t. untold t.members b t.payload t.result), rw (e, parsed) refl)

  handle_notification-cases : (n : Notification) (s : State sys) → HandleCase n s
  unfolding handle_notification
  handle_notification-cases n s = elim (Bool-cases (text_eq n.topic (text "mender-update"))) [
    | inl e ↦ handle_parsed n s e (parse_cases n.payload)
    | inr e ↦ inr (
      (λ b t. true-ne-false ((text_eq_iff n.topic (text "mender-update")).1 t.topic) e),
      rw e refl,
    )
  ]

  with_events-append :
      (s : State sys) (es fs : List Event)
      → with_events (with_events s es) fs ≡ with_events s (es ++ fs)
  with_events-append s es fs = ap (λ l. record s { events = l }) (append_assoc s.events es fs)

  with_events-nil : (s : State sys) → with_events s [] ≡ s
  with_events-nil s = ap (λ l. record s { events = l }) (append-nil s.events)

  module _ (unmarshal : Text → Returns Notification) where
    -- The clients are sent one event for each line of less than 4096 bytes that is a notification, of
    -- whatever version, with the result of an update, in the order of the lines; the other lines do
    -- nothing. Nothing else changes.
    pub ipc_notification_loop-Delivers :
        (lines : List Text) (s : State sys)
        → (events : List Event) × Delivers unmarshal lines events
          × ((ipc_notification_loop sys (read_notifications unmarshal lines) s).1
              ≡ record s { events = s.events ++ events })
    unfolding ipc_notification_loop read_notifications
    ipc_notification_loop-Delivers [] s = ([], ended, sym (with_events-nil s))
    ipc_notification_loop-Delivers (line ∷ lines) s = elim (Bool-cases (leb 4096 (length line))) [
      | inl long ↦
          let (es, d, e) = ipc_notification_loop-Delivers lines s in
          (es, silent (too_long (ground arith)) d, rw (read_notifications, long) e)
      | inr short ↦ elim (Option-cases (unmarshal line).1) [
        | inr (err, bad) ↦
            let (es, d, e) = ipc_notification_loop-Delivers lines s in
            (es, silent (malformed bad) d, rw (read_notifications, short, bad) e)
        | inl good ↦ elim (handle_notification-cases (unmarshal line).0 s) [
          | inl (b, tells, h) ↦
              let (es, d, e) =
                ipc_notification_loop-Delivers lines (with_events s (update_event b ∷ [])) in
              (
                update_event b ∷ es,
                told b (ground arith) good tells d,
                rw (read_notifications, short, good)
                    (ap (λ t. (ipc_notification_loop sys (read_notifications unmarshal lines) t).1)
                        h
                      ∙ e
                      ∙ with_events-append s (update_event b ∷ []) es),
              )
          | inr (untold, h) ↦
              let (es, d, e) = ipc_notification_loop-Delivers lines s in
              (
                es,
                silent (meaningless untold) d,
                rw (read_notifications, short, good)
                    (ap (λ t. (ipc_notification_loop sys (read_notifications unmarshal lines) t).1)
                        h
                      ∙ e),
              )
        ]
      ]
    ]
