-- ===== src/Tests/Pumps.antt =====
-- A client whose write fails.
use bitbox_base.Base.{◌≡◌, refl, true, none, some, [], ◌∷◌, ◌++◌}
use bitbox_base.Rpcmessages.{base_update_success}
use bitbox_base.Middleware.State.{Event}
use bitbox_base.Handlers
use bitbox_base.Handlers.{broadcast, add_client}
use bitbox_base.Handlers.Pumps.{
  Net, new_net, connect_client, begin_event, Reach, here, next, connects, begins,
}
use bitbox_base.Handlers.Pumps.Deadlock.{Reach-IsStuck_forever}
use bitbox_base.Handlers.Pumps.Progress.{Reach-unlocked}
use bitbox_base.Handlers.Pumps.Refines.{IsConsistent, settled, Reach-settled}

abbrev done_event : Event
done_event = record { identifier = base_update_success; queue_if_no_client = true }

abbrev connected : Net
connected = connect_client new_net

Reach-IsStuck_forever_example :
    (t : Net) × Reach connected t
    × ((u : Net) → Reach t u → u.pending ≡ some (broadcast (0 ∷ []) done_event.identifier))
unfolding add_client
Reach-IsStuck_forever_example = Reach-IsStuck_forever connected 0 [] done_event refl refl refl

abbrev sending : Net
sending = record connected { pending = some ((0, base_update_success) ∷ []) }

Reach-unlocked_example :
    (t : Net) × Reach sending t
    × (t.pending ≡ none)
    × (t.handlers.sent ≡ sending.handlers.sent ++ ((0, base_update_success) ∷ []))
unfolding add_client
Reach-unlocked_example = Reach-unlocked ((0, base_update_success) ∷ []) sending refl (tt, tt)

Reach-settled_example :
    Handlers.Reach (settled new_net) (settled (begin_event done_event connected))
    × IsConsistent
        (begin_event done_event connected).handlers
        (begin_event done_event connected).pending
Reach-settled_example = Reach-settled tt (next (next here (connects refl)) (begins done_event refl))
