-- ===== src/Tests/Clients.antt =====
-- Clients that connect while an event is queued.
use bitbox_base.Base.{◌≡◌, true, [], ◌∷◌, ◌++◌, arith}
use bitbox_base.Rpcmessages.{base_update_success}
use bitbox_base.Middleware.State.{Event}
use bitbox_base.Handlers.{
  Handlers, new_handlers, listen_event, ws_handler, Reach, here, next, listen,
}
use bitbox_base.Handlers.Requeue.{received, received_twice}

abbrev done_event : Event
done_event = record { identifier = base_update_success; queue_if_no_client = true }

-- One event is queued, and nobody is connected.
abbrev queued : Handlers
queued = listen_event done_event new_handlers

abbrev reach_queued : Reach new_handlers queued
reach_queued = next here (listen done_event new_handlers)

abbrev connected : Handlers
connected = record { event_queue = done_event ∷ []; n_clients = 1; clients_map = 0 ∷ []; sent = [] }

received_twice_example :
    received 1 (ws_handler (ws_handler connected)).sent
    ≡ received 1 [] ++ (base_update_success ∷ base_update_success ∷ [])
received_twice_example =
    received_twice connected (record { below = (omega arith, tt); distinct = (tt, tt) })
