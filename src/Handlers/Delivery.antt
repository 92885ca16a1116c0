-- ===== src/Handlers/Delivery.antt =====
-- Who is registered, and that client identifiers are never reused (middleware/src/handlers/handlers.go).
use bitbox_base.Base.{
  ℕ, ◌+◌, ◌<◌, ◌≡◌, ◌≢◌, inl, inr, List, [], ◌∷◌, ◌++◌, arith, All, All-append, Bool-cases, ◌==◌,
}
use bitbox_base.Middleware.State.{Event}
use bitbox_base.Handlers.{
  Handlers, new_handlers, listen_event, delete, remove_client, add_client, flush_queue, Step,
  listen, connect, flush, disconnect, Reach, here, next,
}

abbrev pub Fresh : ℕ → List ℕ → Type 0
Fresh k = All (λ j. j ≢ k)

abbrev pub Distinct : List ℕ → Type 0
Distinct [] = Unit {0}
Distinct (k ∷ ks) = Fresh k ks × Distinct ks

-- Every registered identifier was given out before, and no two clients share one.
pub record IsValid (h : Handlers) : Type 0 where
  pub below : All (λ k. k < h.n_clients) h.clients_map
  pub distinct : Distinct h.clients_map

new_handlers-IsValid : IsValid new_handlers
new_handlers-IsValid = record { below = tt; distinct = tt }

below_suc : (n : ℕ) (ks : List ℕ) → All (λ k. k < n) ks → All (λ k. k < n + 1) ks
below_suc n [] h = tt
below_suc n (k ∷ ks) h = (omega arith, below_suc n ks h.1)

Distinct-snoc :
    (n : ℕ) (ks : List ℕ) → All (λ k. k < n) ks → Distinct ks → Distinct (ks ++ (n ∷ []))
Distinct-snoc n [] b d = (tt, tt)
Distinct-snoc n (k ∷ ks) b d =
    (All-append (λ j. j ≢ k) ks (n ∷ []) d.0 (omega arith), Distinct-snoc n ks b.1 d.1)

delete-All : (P : ℕ → Type 0) (id : ℕ) (ks : List ℕ) → All P ks → All P (delete id ks)
unfolding delete
delete-All P id [] h = tt
delete-All P id (k ∷ ks) h = elim (Bool-cases (k == id)) [
  | inl same ↦ rw same (delete-All P id ks h.1)
  | inr other ↦ rw other (h.0, delete-All P id ks h.1)
]

delete-Distinct : (id : ℕ) (ks : List ℕ) → Distinct ks → Distinct (delete id ks)
unfolding delete
delete-Distinct id [] d = tt
delete-Distinct id (k ∷ ks) d = elim (Bool-cases (k == id)) [
  | inl same ↦ rw same (delete-Distinct id ks d.1)
  | inr other ↦ rw other (delete-All (λ j. j ≢ k) id ks d.0, delete-Distinct id ks d.1)
]

listen_event-clients :
    (e : Event) (h : Handlers)
    → ((listen_event e h).clients_map ≡ h.clients_map)
      × ((listen_event e h).n_clients ≡ h.n_clients)
unfolding listen_event
listen_event-clients e h = ground arith

pub Step-IsValid : {g h : Handlers} → Step g h → IsValid g → IsValid h
unfolding remove_client add_client flush_queue
Step-IsValid (listen e h) v =
    rw ((listen_event-clients e h).0, (listen_event-clients e h).1)
      (record { below = v.below; distinct = v.distinct })
Step-IsValid (connect h) v = record {
  below = All-append _ h.clients_map _ (below_suc h.n_clients h.clients_map v.below) (omega arith);
  distinct = Distinct-snoc h.n_clients h.clients_map v.below v.distinct;
}
Step-IsValid (flush h) v = record { below = v.below; distinct = v.distinct }
Step-IsValid (disconnect id h) v = record {
  below = delete-All _ id h.clients_map v.below;
  distinct = delete-Distinct id h.clients_map v.distinct;
}

-- Whatever events, connections, deliveries of the queue and disconnections happen, no two registered
-- clients share an identifier, and the next identifier is fresh.
pub Reach-IsValid : {h : Handlers} → Reach new_handlers h → IsValid h
Reach-IsValid here = new_handlers-IsValid
Reach-IsValid (next r s) = Step-IsValid s (Reach-IsValid r)
