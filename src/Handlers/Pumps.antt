-- ===== src/Handlers/Pumps.antt =====
-- The goroutines around the handlers' mutex: `listenEvents`, `removeClient` and `wsHandler` of
-- middleware/src/handlers/handlers.go with the read and write loops of
-- middleware/src/handlers/websocket.go. The channels hold no message, so a send waits for the write
-- loop; a goroutine that sends to clients holds the mutex meanwhile.
pub mod Deadlock
pub mod Progress
pub mod Refines
use bitbox_base.Base.{
  ℕ, ◌+◌, Bool, Option, none, some, List, [], ◌∷◌, ◌++◌, ◌≡◌, ◌&&◌, ◌==◌, if◌then◌else◌,
}
use bitbox_base.Rpcmessages.{Op, rpc_call}
use bitbox_base.Middleware.State.{Event}
use bitbox_base.Handlers.{
  Handlers, new_handlers, broadcast, is_empty, remove_client, add_client, queued_messages,
}

-- A write loop: in its `select`, in `WriteMessage`, at the mutex on its way out, or over. A client
-- that never connected has none.
pub data Writer : Type 0 where
  waiting : Writer
  writing : Op → Writer
  leaving : Writer
  gone : Writer

-- A read loop; when it is over, `closeChan` is closed.
pub data Reader : Type 0 where
  reading : Reader
  leaving : Reader
  gone : Reader

-- `pending` is `none` while the mutex is free, and else what its holder has still to send.
pub record Net : Type 0 where
  pub handlers : Handlers
  pub pending : Option (List (ℕ × Op))
  pub writers : ℕ → Writer
  pub readers : ℕ → Reader

abbrev pub new_net : Net
new_net = record {
  handlers = new_handlers;
  pending = none;
  writers = λ k. Writer.gone;
  readers = λ k. Reader.gone;
}

abbrev pub set_at : {A : Type 0} → ℕ → A → (ℕ → A) → ℕ → A
set_at k a f j = if j == k then a else f j

-- A round of `listenEvents` from its `Lock` to its first send.
abbrev pub begin_event : Event → Net → Net
begin_event event s =
    if is_empty s.handlers.clients_map && event.queue_if_no_client
    then record s {
      handlers = record (s.handlers) { event_queue = s.handlers.event_queue ++ (event ∷ []) };
    }
    else record s { pending = some (broadcast s.handlers.clients_map event.identifier) }

abbrev pub begin_flush : Net → Net
begin_flush s = record s {
  pending = some (queued_messages s.handlers.event_queue s.handlers.clients_map);
}

-- The write loop of the client takes the first message that is to be sent.
abbrev pub hand_over : ℕ → Op → List (ℕ × Op) → Net → Net
hand_over k op rest s = record s {
  handlers = record (s.handlers) { sent = s.handlers.sent ++ ((k, op) ∷ []) };
  pending = some rest;
  writers = set_at k (writing op) s.writers;
}

abbrev pub connect_client : Net → Net
connect_client s = record s {
  handlers = add_client s.handlers;
  writers = set_at s.handlers.n_clients waiting s.writers;
  readers = set_at s.handlers.n_clients reading s.readers;
}

-- One step of one goroutine.
pub data Step (s : Net) : Net → Type 0 where
  begins : (event : Event) → s.pending ≡ none → Step s (begin_event event s)
  flushes : s.pending ≡ none → Step s (begin_flush s)
  sends :
      (k : ℕ) (op : Op) (rest : List (ℕ × Op))
      → s.pending ≡ some ((k, op) ∷ rest)
      → s.writers k ≡ waiting
      → Step s (hand_over k op rest s)
  unlocks : s.pending ≡ some [] → Step s (record s { pending = none })
  connects : s.pending ≡ none → Step s (connect_client s)
  -- `rpcConn.Write` sends without the mutex.
  replies :
      (k : ℕ)
      → s.writers k ≡ waiting
      → Step s (record s { writers = set_at k (writing rpc_call) s.writers })
  writes :
      (k : ℕ) (op : Op)
      → s.writers k ≡ writing op
      → Step s (record s { writers = set_at k waiting s.writers })
  write_fails :
      (k : ℕ) (op : Op)
      → s.writers k ≡ writing op
      → Step s (record s { writers = set_at k Writer.leaving s.writers })
  -- The write loop finds `closeChan` closed.
  closes :
      (k : ℕ)
      → s.writers k ≡ waiting
      → s.readers k ≡ Reader.gone
      → Step s (record s { writers = set_at k Writer.leaving s.writers })
  writer_removes :
      (k : ℕ)
      → s.pending ≡ none
      → s.writers k ≡ Writer.leaving
      → Step s (record s {
        handlers = remove_client k s.handlers;
        writers = set_at k Writer.gone s.writers;
      })
  read_fails :
      (k : ℕ)
      → s.readers k ≡ reading
      → Step s (record s { readers = set_at k Reader.leaving s.readers })
  reader_removes :
      (k : ℕ)
      → s.pending ≡ none
      → s.readers k ≡ Reader.leaving
      → Step s (record s {
        handlers = remove_client k s.handlers;
        readers = set_at k Reader.gone s.readers;
      })

pub data Reach (s : Net) : Net → Type 0 where
  here : Reach s s
  next : {t u : Net} → Reach s t → Step t u → Reach s u
