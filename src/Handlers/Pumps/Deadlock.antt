-- ===== src/Handlers/Pumps/Deadlock.antt =====
-- The mutex of middleware/src/handlers/handlers.go and a write loop of
-- middleware/src/handlers/websocket.go that wait for each other.
use bitbox_base.Base.{ℕ, none, some, List, ◌∷◌, ◌≡◌, ◌⊎◌, arith}
use bitbox_base.Rpcmessages.{Op, rpc_call}
use bitbox_base.Middleware.State.{Event}
use bitbox_base.Handlers.{broadcast}
use bitbox_base.Handlers.Pumps.{
  Writer, waiting, writing, Net, set_at, begin_event, Step, begins, flushes, sends, unlocks,
  connects, replies, writes, write_fails, closes, writer_removes, read_fails, reader_removes, Reach,
  here, next,
}

-- The holder of the mutex is to send to a client whose write loop takes no message any more.
pub record IsStuck (k : ℕ) (op : Op) (rest : List (ℕ × Op)) (s : Net) : Type 0 where
  pub held : s.pending ≡ some ((k, op) ∷ rest)
  pub deaf : (s.writers k ≡ Writer.leaving) ⊎ (s.writers k ≡ Writer.gone)

Step-IsStuck :
    (k : ℕ) (op : Op) (rest : List (ℕ × Op)) {s t : Net}
    → Step s t
    → IsStuck k op rest s
    → IsStuck k op rest t
Step-IsStuck k op rest (begins event free) st = absurd (ground arith)
Step-IsStuck k op rest (flushes free) st = absurd (ground arith)
Step-IsStuck k op rest (sends j o r held wait) st = absurd (ground arith)
Step-IsStuck k op rest (unlocks e) st = absurd (ground arith)
Step-IsStuck k op rest (connects free) st = absurd (ground arith)
Step-IsStuck k op rest (replies j wait) st = ground arith
Step-IsStuck k op rest (writes j o w) st = ground arith
Step-IsStuck k op rest (write_fails j o w) st = ground arith
Step-IsStuck k op rest (closes j wait r) st = ground arith
Step-IsStuck k op rest (writer_removes j free l) st = absurd (ground arith)
Step-IsStuck k op rest (read_fails j r) st = record { held = st.held; deaf = st.deaf }
Step-IsStuck k op rest (reader_removes j free l) st = absurd (ground arith)

Reach-IsStuck :
    (k : ℕ) (op : Op) (rest : List (ℕ × Op)) {s t : Net}
    → Reach s t
    → IsStuck k op rest s
    → IsStuck k op rest t
Reach-IsStuck k op rest here st = st
Reach-IsStuck k op rest (next r step) st =
    Step-IsStuck k op rest step (Reach-IsStuck k op rest r st)

-- While the mutex is free and a client is registered whose write loop waits, the program can come to
-- a standstill, whatever the next event is: from some state that it can reach, `listenEvents` holds
-- the mutex for good, with the event still to be sent to that client.
pub Reach-IsStuck_forever :
    (s : Net) (k : ℕ) (ks : List ℕ) (event : Event)
    → s.pending ≡ none
    → s.handlers.clients_map ≡ k ∷ ks
    → s.writers k ≡ waiting
    → (t : Net) × Reach s t
      × ((u : Net) → Reach t u → u.pending ≡ some (broadcast (k ∷ ks) event.identifier))
unfolding broadcast
Reach-IsStuck_forever s k ks event free registered wait =
    let s1 : Net = record s { writers = set_at k (writing rpc_call) s.writers } in
    let s2 : Net = record s1 { writers = set_at k Writer.leaving s1.writers } in
    let t : Net = begin_event event s2 in
    let run : Reach s t =
      next (next (next here (replies k wait)) (write_fails k rpc_call (ground arith)))
        (begins event free) in
    let stuck : IsStuck k event.identifier (broadcast ks event.identifier) t = ground arith in
    (t, run, λ u r. (Reach-IsStuck k event.identifier (broadcast ks event.identifier) r stuck).held)
