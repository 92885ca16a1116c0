-- ===== src/Handlers/Requeue.antt =====
-- What becomes of the queued events (middleware/src/handlers/handlers.go).
use mathlib.Core.List.{append-nil, append_assoc}
use bitbox_base.Base.{
  ℕ, ◌+◌, ◌≡◌, refl, ◌∙◌, ap, sym, subst, ◌≢◌, ◌⊎◌, inl, inr, ◌&&◌, Bool-cases, List, [], ◌∷◌, ◌++◌,
  arith, ◌==◌, if◌then◌else◌,
}
use bitbox_base.Rpcmessages.{Op}
use bitbox_base.Middleware.State.{Event}
use bitbox_base.Handlers.{
  Handlers, is_empty, remove_client, broadcast, listen_event, add_client, flush_queue,
  queued_messages, ws_handler, Step, listen, connect, flush, disconnect, Reach, here, next,
}
use bitbox_base.Handlers.Delivery.{Fresh, Distinct, IsValid, Step-IsValid}

-- `before` was queued at some time, and is still queued.
abbrev Extends : List Event → List Event → Type 0
Extends before after = (more : List Event) × (after ≡ before ++ more)

-- The queue is never emptied: what is queued once stays queued through every event, connection,
-- delivery and disconnection.
pub Step-Extends : {g h : Handlers} → Step g h → Extends g.event_queue h.event_queue
unfolding listen_event add_client flush_queue remove_client
Step-Extends (listen e h) = elim (Bool-cases (is_empty h.clients_map && e.queue_if_no_client)) [
  | inl queued ↦ rw queued (e ∷ [], refl)
  | inr sent ↦ rw sent ([], sym (append-nil h.event_queue))
]
Step-Extends (connect h) = ([], sym (append-nil h.event_queue))
Step-Extends (flush h) = ([], sym (append-nil h.event_queue))
Step-Extends (disconnect id h) = ([], sym (append-nil h.event_queue))

Extends-trans : (a b c : List Event) → Extends a b → Extends b c → Extends a c
Extends-trans a b c (m, e) (n, f) = (m ++ n, f ∙ (ap (λ x. x ++ n) e ∙ append_assoc a m n))

-- The queue is never emptied: what is queued stays queued, in its order, through every event,
-- connection, delivery and disconnection.
pub Reach-Extends : {g h : Handlers} → Reach g h → Extends g.event_queue h.event_queue
Reach-Extends {g} here = ([], sym (append-nil g.event_queue))
Reach-Extends (next r s) = Extends-trans _ _ _ (Reach-Extends r) (Step-Extends s)

-- What a client was sent, in order.
unfoldable pub received : ℕ → List (ℕ × Op) → List Op
received k [] = []
received k ((j, op) ∷ ms) = let rest = received k ms in if j == k then op ∷ rest else rest

abbrev pub identifiers : List Event → List Op
identifiers [] = []
identifiers (e ∷ es) = e.identifier ∷ identifiers es

abbrev pub IsClient : ℕ → List ℕ → Type 0
IsClient k [] = ⊥
IsClient k (j ∷ js) = (k ≡ j) ⊎ IsClient k js

received-append :
    (k : ℕ) (xs ys : List (ℕ × Op)) → received k (xs ++ ys) ≡ received k xs ++ received k ys
unfolding received
received-append k [] ys = refl
received-append k ((j, op) ∷ xs) ys = ground (arith, received-append k xs ys)

received-broadcast-Fresh :
    (k : ℕ) (ks : List ℕ) (op : Op) → Fresh k ks → received k (broadcast ks op) ≡ []
unfolding received broadcast
received-broadcast-Fresh k [] op h = refl
received-broadcast-Fresh k (j ∷ js) op h = ground (arith, received-broadcast-Fresh k js op h.1)

client-ne : (k j : ℕ) (js : List ℕ) → IsClient k js → Fresh j js → k ≢ j
client-ne k j [] m h = absurd m
client-ne k j (i ∷ js) (inl e) h = λ e'. h.0 (sym e ∙ e')
client-ne k j (i ∷ js) (inr m) h = client-ne k j js m h.1

received-broadcast :
    (k : ℕ) (ks : List ℕ) (op : Op)
    → IsClient k ks
    → Distinct ks
    → received k (broadcast ks op) ≡ op ∷ []
unfolding received broadcast
received-broadcast k [] op m d = absurd m
received-broadcast k (j ∷ js) op (inl same) d =
    ground (arith, received-broadcast-Fresh k js op (subst (λ x. Fresh x js) (sym same) d.0))
received-broadcast k (j ∷ js) op (inr m) d =
    ground (arith, received-broadcast k js op m d.1, client-ne k j js m d.0)

received-queued :
    (k : ℕ) (es : List Event) (ks : List ℕ)
    → IsClient k ks
    → Distinct ks
    → received k (queued_messages es ks) ≡ identifiers es
unfolding queued_messages
received-queued k [] ks m d = unfold received in refl
received-queued k (e ∷ es) ks m d = rw (
  received-append k (broadcast ks e.identifier) (queued_messages es ks),
  received-broadcast k ks e.identifier m d,
  received-queued k es ks m d,
)

-- Delivering the queue sends to every registered client exactly the queued events, in their order,
-- also to a client that was sent them before.
pub received-flush_queue :
    (k : ℕ) (h : Handlers)
    → IsClient k h.clients_map
    → Distinct h.clients_map
    → received k (flush_queue h).sent ≡ received k h.sent ++ identifiers h.event_queue
unfolding flush_queue
received-flush_queue k h m d = rw (
  received-append k h.sent (queued_messages h.event_queue h.clients_map),
  received-queued k h.event_queue h.clients_map m d,
)

IsClient-append : (k : ℕ) (ks : List ℕ) → IsClient k (ks ++ (k ∷ []))
IsClient-append k [] = inl refl
IsClient-append k (j ∷ js) = inr (IsClient-append k js)

IsClient-weaken : (k : ℕ) (ks js : List ℕ) → IsClient k ks → IsClient k (ks ++ js)
IsClient-weaken k [] js m = absurd m
IsClient-weaken k (i ∷ ks) js (inl e) = inl e
IsClient-weaken k (i ∷ ks) js (inr m) = inr (IsClient-weaken k ks js m)

-- A client that connects while events are queued is sent each of them, and is sent all of them a
-- second time when the next client connects: the queue is not emptied by a delivery.
pub received_twice :
    (h : Handlers)
    → IsValid h
    → received h.n_clients (ws_handler (ws_handler h)).sent
      ≡ received h.n_clients h.sent ++ (identifiers h.event_queue ++ identifiers h.event_queue)
unfolding ws_handler
received_twice h v =
    let n = h.n_clients in
    let valid = Step-IsValid (connect h) v in
    let first = IsClient-append n h.clients_map in
    let valid' =
      Step-IsValid (connect (ws_handler h)) (Step-IsValid (flush (add_client h)) valid) in
    let second = IsClient-weaken n (h.clients_map ++ (n ∷ [])) ((n + 1) ∷ []) first in
    received-flush_queue n (add_client (ws_handler h)) second valid'.distinct
    ∙ (ap (λ x. x ++ identifiers h.event_queue)
          (received-flush_queue n (add_client h) first valid.distinct)
        ∙ append_assoc (received n h.sent) _ _)
