-- ===== src/Supervisor/Restarts.antt =====
-- What the events of the log watchers lead to: restarts of units, by the handlers of
-- tools/bbbsupervisor/supervisor/eventhandling.go.
use mathlib.Core.List.{append_assoc, append-nil}
use bitbox_base.Base.{
  ◌⊎◌, inl, inr, subst, List, [], ◌∷◌, ◌++◌, All, All-append, sym, ◌≡◌, ◌∙◌, refl, ap, some, arith,
}
use bitbox_base.Base.Text.{Text, text}
use bitbox_base.Base.Int.{pos}
use bitbox_base.Prometheus.{Web}
use bitbox_base.Prometheus.Query.{QueryClient}
use bitbox_base.Supervisor.Logs.{Event, Trigger, parse_event}
use bitbox_base.Supervisor.Handling.{
  handle_electrs_fully_synced, handle_electrs_no_bitcoind_connectivity,
  handle_middleware_no_bitcoind_connectivity, incoming, handle_by_restart, restart_unit, Host,
  State, handle_event, event_handler,
}
use bitbox_base.Supervisor.Polling.{Daemon, polled_host}

module _ (web : Web) (daemon : Daemon web) (client : QueryClient) where
  abbrev Here : Host
  Here = polled_host web daemon client

  abbrev IsRestart : List Text → Type 0
  IsRestart c = (unit : Text) × (c ≡ text "/bin/systemctl" ∷ text "restart" ∷ unit ∷ [])

  -- No command but restarts of units was run since, and the state of the download is remembered as it
  -- was.
  abbrev pub OnlyRestarts : State Here → State Here → Type 0
  OnlyRestarts s t =
      (more : List (List Text)) × (t.calls ≡ s.calls ++ more)
      × All IsRestart more
      × (t.prometheus_last_state_ibd ≡ s.prometheus_last_state_ibd)

  pub OnlyRestarts-trans :
      (s t u : State Here) → OnlyRestarts s t → OnlyRestarts t u → OnlyRestarts s u
  OnlyRestarts-trans s t u (xs, e, rs, l) (ys, f, qs, k) = (
    xs ++ ys,
    f ∙ ap (λ c. c ++ ys) e ∙ append_assoc s.calls xs ys,
    All-append IsRestart xs ys rs qs,
    k ∙ l,
  )

  handle_by_restart-calls :
      (unit : Text) (event : Event web.floats.Float) (s : State Here)
      → let (r, t) = handle_by_restart Here unit event s in
        ((t.calls ≡ s.calls)
          ⊎ (t.calls ≡ s.calls ++ ((text "/bin/systemctl" ∷ text "restart" ∷ unit ∷ []) ∷ [])))
        × (t.prometheus_last_state_ibd ≡ s.prometheus_last_state_ibd)
  unfolding handle_by_restart restart_unit
  handle_by_restart-calls unit event s = ground arith

  handle_by_restart-OnlyRestarts :
      (unit : Text) (event : Event web.floats.Float) (s : State Here)
      → OnlyRestarts s (handle_by_restart Here unit event s).1
  handle_by_restart-OnlyRestarts unit event s =
      let (calls, last) = handle_by_restart-calls unit event s in
      elim calls [
        | inl same ↦ ([], same ∙ sym (append-nil s.calls), tt, last)
        | inr ran ↦ (_ ∷ [], ran, ((unit, refl), tt), last)
      ]

  abbrev logged : Text → Trigger → Event web.floats.Float
  logged unit t = record {
    unit = unit;
    trigger = t;
    measure = [];
    value = web.floats.from_int (pos 0);
  }

  parse_event-logged :
      (line unit : Text) (event : Event web.floats.Float)
      → parse_event (web.floats.from_int (pos 0)) line unit ≡ some event
      → (event ≡ logged unit 1) ⊎ ((event ≡ logged unit 2) ⊎ (event ≡ logged unit 3))
  unfolding parse_event
  parse_event-logged line unit event parsed = ground arith

  logged-OnlyRestarts :
      (unit : Text) (s : State Here)
      → OnlyRestarts s (event_handler Here (incoming (logged unit 1)) s)
        × OnlyRestarts s (event_handler Here (incoming (logged unit 2)) s)
        × OnlyRestarts s (event_handler Here (incoming (logged unit 3)) s)
  unfolding event_handler handle_event handle_electrs_fully_synced
      handle_electrs_no_bitcoind_connectivity handle_middleware_no_bitcoind_connectivity
  logged-OnlyRestarts unit s = (
    handle_by_restart-OnlyRestarts (text "electrs") (logged unit 1) s,
    handle_by_restart-OnlyRestarts (text "electrs") (logged unit 2) s,
    handle_by_restart-OnlyRestarts (text "bbbmiddleware") (logged unit 3) s,
  )

  -- The event of a log line restarts a unit, or its handler gives up.
  pub log-OnlyRestarts :
      (line unit : Text) (event : Event web.floats.Float) (s : State Here)
      → parse_event (web.floats.from_int (pos 0)) line unit ≡ some event
      → OnlyRestarts s (event_handler Here (incoming event) s)
  log-OnlyRestarts line unit event s parsed =
      let P : Event web.floats.Float → Type 0 =
        (λ e. OnlyRestarts s (event_handler Here (incoming e) s)) in
      let (synced, electrs, middleware) = logged-OnlyRestarts unit s in
      elim (parse_event-logged line unit event parsed) [
        | inl e ↦ subst P (sym e) synced
        | inr rest ↦ elim rest [
          | inl e ↦ subst P (sym e) electrs
          | inr e ↦ subst P (sym e) middleware
        ]
      ]
