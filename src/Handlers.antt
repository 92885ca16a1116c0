-- ===== src/Handlers.antt =====
-- The event queue and the clients of middleware/src/handlers/handlers.go. A client is the key of its
-- channel in `clientsMap`; `sent` records what was put on the channels, in order. The mutex makes
-- each of these operations one step.
pub mod Delivery
pub mod Requeue
pub mod Pumps
use bitbox_base.Base.{
  ℕ, suc, ◌+◌, Bool, true, false, ◌&&◌, List, [], ◌∷◌, ◌++◌, map, ◌==◌, if◌then◌else◌,
}
use bitbox_base.Rpcmessages.{Op}
use bitbox_base.Middleware.State.{Event}

pub record Handlers : Type 0 where
  pub event_queue : List Event
  pub n_clients : ℕ
  pub clients_map : List ℕ
  pub sent : List (ℕ × Op)

-- `NewHandlers`.
abbrev pub new_handlers : Handlers
new_handlers = record { event_queue = []; n_clients = 0; clients_map = []; sent = [] }

-- `for k := range clientsMap { clientsMap[k] <- identifier }`, in the order in which the clients
-- connected; the order of a Go map is random.
unfoldable pub broadcast : List ℕ → Op → List (ℕ × Op)
broadcast [] op = []
broadcast (k ∷ ks) op = (k, op) ∷ broadcast ks op

abbrev pub is_empty : List ℕ → Bool
is_empty [] = true
is_empty (k ∷ ks) = false

-- One round of `listenEvents`.
unfoldable pub listen_event : Event → Handlers → Handlers
unfolding broadcast
listen_event event h =
    if is_empty h.clients_map && event.queue_if_no_client
    then record h { event_queue = h.event_queue ++ (event ∷ []) }
    else record h { sent = h.sent ++ broadcast h.clients_map event.identifier }

-- `delete(clientsMap, clientID)`
unfoldable pub delete : ℕ → List ℕ → List ℕ
delete id [] = []
delete id (k ∷ ks) = let rest = delete id ks in if k == id then rest else k ∷ rest

unfoldable pub remove_client : ℕ → Handlers → Handlers
unfolding delete
remove_client id h = record h { clients_map = delete id h.clients_map }

-- The first critical section of `wsHandler`: the new client gets the next identifier.
unfoldable pub add_client : Handlers → Handlers
add_client h = record h {
  clients_map = h.clients_map ++ (h.n_clients ∷ []);
  n_clients = h.n_clients + 1;
}

-- Its second critical section: every queued event goes to every client.
unfoldable pub queued_messages : List Event → List ℕ → List (ℕ × Op)
unfolding broadcast
queued_messages [] ks = []
queued_messages (e ∷ es) ks = broadcast ks e.identifier ++ queued_messages es ks

unfoldable pub flush_queue : Handlers → Handlers
unfolding queued_messages
flush_queue h = record h { sent = h.sent ++ queued_messages h.event_queue h.clients_map }

-- `wsHandler` after the handshake, with nothing between its two critical sections.
unfoldable pub ws_handler : Handlers → Handlers
unfolding add_client flush_queue
ws_handler h = flush_queue (add_client h)

-- What can happen to the handlers, one critical section at a time.
pub data Step : Handlers → Handlers → Type 0 where
  listen : (event : Event) (h : Handlers) → Step h (listen_event event h)
  connect : (h : Handlers) → Step h (add_client h)
  flush : (h : Handlers) → Step h (flush_queue h)
  disconnect : (id : ℕ) (h : Handlers) → Step h (remove_client id h)

pub data Reach (g : Handlers) : Handlers → Type 0 where
  here : Reach g g
  next : {h k : Handlers} → Reach g h → Step h k → Reach g k
