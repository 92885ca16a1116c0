-- ===== src/Handlers/Pumps/Refines.antt =====
-- The steps of the goroutines of middleware/src/handlers/handlers.go, as critical sections.
use mathlib.Core.List.{append_assoc, append-nil}
use bitbox_base.Base.{
  ℕ, ◌&&◌, Option, none, some, List, [], ◌∷◌, ◌++◌, ◌≡◌, refl, ◌∙◌, ap, sym, subst, arith,
  Bool-cases, inl, inr, ◌⊎◌,
}
use bitbox_base.Rpcmessages.{Op}
use bitbox_base.Middleware.State.{Event}
use bitbox_base.Handlers
use bitbox_base.Handlers.{
  Handlers, broadcast, is_empty, listen_event, remove_client, add_client, flush_queue,
  queued_messages, listen, connect, flush, disconnect,
}
use bitbox_base.Handlers.Pumps.{
  Net, begin_event, Step, begins, flushes, sends, unlocks, connects, replies, writes, write_fails,
  closes, writer_removes, read_fails, reader_removes, Reach, here, next,
}

abbrev unsent : Option (List (ℕ × Op)) → List (ℕ × Op)
unsent none = []
unsent (some l) = l

-- The handlers, as if what the holder of the mutex has still to send were sent.
abbrev pub settled : Net → Handlers
settled s = record (s.handlers) { sent = s.handlers.sent ++ unsent s.pending }

-- A critical section, or nothing.
abbrev Follows : Handlers → Handlers → Type 0
Follows g h = Handlers.Step g h ⊎ (h ≡ g)

Step-none :
    (s : Net) (g : Handlers)
    → s.pending ≡ none
    → Handlers.Step s.handlers g
    → Handlers.Step (settled s) g
Step-none s g free step =
    subst (λ h. Handlers.Step h g)
      (ap (λ l. record (s.handlers) { sent = l })
        (sym (append-nil s.handlers.sent) ∙ ap (λ p. s.handlers.sent ++ unsent p) (sym free)))
      step

sent-free : (s : Net) → s.pending ≡ none → s.handlers.sent ++ unsent s.pending ≡ s.handlers.sent
sent-free s free = ap (λ p. s.handlers.sent ++ unsent p) free ∙ append-nil s.handlers.sent

begin_event-settled :
    (s : Net) (event : Event)
    → s.pending ≡ none
    → settled (begin_event event s) ≡ listen_event event s.handlers
unfolding listen_event
begin_event-settled s event free =
    elim (Bool-cases (is_empty s.handlers.clients_map && event.queue_if_no_client)) [
      | inl e ↦ rw e (
          ap
            (λ l. record (s.handlers) {
              sent = l;
              event_queue = s.handlers.event_queue ++ (event ∷ []);
            })
            (sent-free s free))
      | inr e ↦ rw e refl
    ]

Step-settled : {s t : Net} → Step s t → Follows (settled s) (settled t)
unfolding flush_queue remove_client add_client
Step-settled {s} (begins event free) = inl (
    subst (Handlers.Step (settled s)) (sym (begin_event-settled s event free))
      (Step-none s (listen_event event s.handlers) free (listen event s.handlers)))
Step-settled {s} (flushes free) = inl (Step-none s (flush_queue s.handlers) free (flush s.handlers))
Step-settled {s} (sends k op rest held wait) =
    inr (ground (arith, append_assoc s.handlers.sent ((k, op) ∷ []) rest))
Step-settled {s} (unlocks held) = inr (ground arith)
Step-settled {s} (connects free) = inl (connect (settled s))
Step-settled {s} (replies k wait) = inr refl
Step-settled {s} (writes k op w) = inr refl
Step-settled {s} (write_fails k op w) = inr refl
Step-settled {s} (closes k wait r) = inr refl
Step-settled {s} (writer_removes k free l) = inl (disconnect k (settled s))
Step-settled {s} (read_fails k r) = inr refl
Step-settled {s} (reader_removes k free l) = inl (disconnect k (settled s))

-- The messages of one critical section, to the clients that are registered now.
abbrev IsSection : Handlers → List (ℕ × Op) → Type 0
IsSection h messages =
    ((op : Op) × (messages ≡ broadcast h.clients_map op))
    ⊎ (messages ≡ queued_messages h.event_queue h.clients_map)

-- What the holder of the mutex has sent since its `Lock`, which is the end of `sent`, and what it has
-- still to send are the messages of one critical section.
abbrev pub IsConsistent : Handlers → Option (List (ℕ × Op)) → Type 0
IsConsistent h none = Unit {0}
IsConsistent h (some rest) =
    (before done : List (ℕ × Op)) × (h.sent ≡ before ++ done) × IsSection h (done ++ rest)

begin_event-IsConsistent :
    (s : Net) (event : Event)
    → s.pending ≡ none
    → IsConsistent (begin_event event s).handlers (begin_event event s).pending
begin_event-IsConsistent s event free =
    elim (Bool-cases (is_empty s.handlers.clients_map && event.queue_if_no_client)) [
      | inl e ↦
          let queued : Handlers = record (s.handlers) {
            event_queue = s.handlers.event_queue ++ (event ∷ []);
          } in
          rw e (subst (IsConsistent queued) (sym free) tt)
      | inr e ↦
          rw e (s.handlers.sent, [], sym (append-nil s.handlers.sent), inl (event.identifier, refl))
    ]

send-IsConsistent :
    (h : Handlers) (m : ℕ × Op) (rest : List (ℕ × Op))
    → IsConsistent h (some (m ∷ rest))
    → IsConsistent (record h { sent = h.sent ++ (m ∷ []) }) (some rest)
send-IsConsistent h m rest (before, done, sent, section) = (
  before,
  done ++ (m ∷ []),
  ap (λ l. l ++ (m ∷ [])) sent ∙ append_assoc before done (m ∷ []),
  subst (IsSection h) (sym (append_assoc done (m ∷ []) rest)) section,
)

Step-IsConsistent :
    {s t : Net} → Step s t → IsConsistent s.handlers s.pending → IsConsistent t.handlers t.pending
Step-IsConsistent {s} (begins event free) c = begin_event-IsConsistent s event free
Step-IsConsistent {s} (flushes free) c =
    (s.handlers.sent, [], sym (append-nil s.handlers.sent), inr refl)
Step-IsConsistent {s} (sends k op rest held wait) c =
    send-IsConsistent s.handlers (k, op) rest (subst (IsConsistent s.handlers) held c)
Step-IsConsistent {s} (unlocks held) c = tt
Step-IsConsistent {s} (connects free) c = subst (IsConsistent (add_client s.handlers)) (sym free) tt
Step-IsConsistent {s} (replies k wait) c = c
Step-IsConsistent {s} (writes k op w) c = c
Step-IsConsistent {s} (write_fails k op w) c = c
Step-IsConsistent {s} (closes k wait r) c = c
Step-IsConsistent {s} (writer_removes k free l) c =
    subst (IsConsistent (remove_client k s.handlers)) (sym free) tt
Step-IsConsistent {s} (read_fails k r) c = c
Step-IsConsistent {s} (reader_removes k free l) c =
    subst (IsConsistent (remove_client k s.handlers)) (sym free) tt

Follows-Reach : {f g h : Handlers} → Handlers.Reach f g → Follows g h → Handlers.Reach f h
Follows-Reach r (inl step) = Handlers.Reach.next r step
Follows-Reach {f} r (inr e) = subst (Handlers.Reach f) (sym e) r

-- From the start on, or from any state of which the second part holds, and in whatever order the
-- goroutines take their steps: the handlers are as after some sequence of whole critical sections, with
-- what the holder of the mutex has still to send counted as sent. And what the holder has sent since
-- its `Lock` and what it has still to send are together, at any moment, one event to every client that
-- is registered at that moment, or all queued events to every such client: no client connects or is
-- removed before the mutex is free again.
pub Reach-settled :
    {s t : Net}
    → IsConsistent s.handlers s.pending
    → Reach s t
    → Handlers.Reach (settled s) (settled t) × IsConsistent t.handlers t.pending
Reach-settled c here = (Handlers.Reach.here, c)
Reach-settled c (next r step) =
    let (settles, waits) = Reach-settled c r in
    (Follows-Reach settles (Step-settled step), Step-IsConsistent step waits)
