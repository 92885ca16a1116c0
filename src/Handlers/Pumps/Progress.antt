-- ===== src/Handlers/Pumps/Progress.antt =====
-- How the holder of the mutex of middleware/src/handlers/handlers.go gets through.
use mathlib.Core.List.{append_assoc, append-nil}
use bitbox_base.Base.{
  ℕ, none, some, List, [], ◌∷◌, ◌++◌, ◌≡◌, refl, ◌∙◌, ap, sym, All, arith, ◌==◌, Bool-cases, inl,
  inr,
}
use bitbox_base.Rpcmessages.{Op}
use bitbox_base.Handlers.Pumps.{
  Writer, waiting, writing, Net, set_at, hand_over, sends, unlocks, writes, Reach, here, next,
}

-- The write loop has not ended.
abbrev pub IsAlive : Writer → Type 0
IsAlive waiting = Unit
IsAlive (writing op) = Unit
IsAlive Writer.leaving = ⊥
IsAlive Writer.gone = ⊥

abbrev pub AreAlive : (ℕ → Writer) → List (ℕ × Op) → Type 0
AreAlive f = All (λ (m : ℕ × Op). IsAlive (f (m.0)))

set_at-IsAlive :
    (k j : ℕ) (w : Writer) (f : ℕ → Writer) → IsAlive w → IsAlive (f j) → IsAlive (set_at k w f j)
set_at-IsAlive k j w f hw hf = elim (Bool-cases (j == k)) [ inl e ↦ rw e hw | inr e ↦ rw e hf ]

set_at-AreAlive :
    (k : ℕ) (w : Writer) (f : ℕ → Writer) (l : List (ℕ × Op))
    → IsAlive w
    → AreAlive f l
    → AreAlive (set_at k w f) l
set_at-AreAlive k w f [] hw h = tt
set_at-AreAlive k w f ((j, op) ∷ l) hw h =
    (set_at-IsAlive k j w f hw (h.0), set_at-AreAlive k w f l hw (h.1))

Reach-trans : {s t u : Net} → Reach s t → Reach t u → Reach s u
Reach-trans r here = r
Reach-trans r (next q step) = next (Reach-trans r q) step

-- To a write loop that has not ended, a message can be handed over.
hands_over :
    (s : Net) (k : ℕ) (op : Op) (rest : List (ℕ × Op)) (w : Writer)
    → s.writers k ≡ w
    → IsAlive w
    → s.pending ≡ some ((k, op) ∷ rest)
    → (t : Net) × Reach s t
      × (t.pending ≡ some rest)
      × (t.handlers.sent ≡ s.handlers.sent ++ ((k, op) ∷ []))
      × (AreAlive s.writers rest → AreAlive t.writers rest)
hands_over s k op rest waiting e alive held = (
  hand_over k op rest s,
  next here (sends k op rest held e),
  refl,
  refl,
  (λ a. set_at-AreAlive k (writing op) s.writers rest tt a),
)
hands_over s k op rest (writing o) e alive held =
    let u : Net = record s { writers = set_at k waiting s.writers } in
    (
      hand_over k op rest u,
      next (next here (writes k o e)) (sends k op rest held (ground arith)),
      refl,
      refl,
      (λ a.
          set_at-AreAlive k (writing op) u.writers rest tt
            (set_at-AreAlive k waiting s.writers rest tt a)),
    )
hands_over s k op rest Writer.leaving e alive held = absurd alive
hands_over s k op rest Writer.gone e alive held = absurd alive

-- If the write loop of no client that is still to be sent to has ended, the holder of the mutex can
-- send all its messages, in order, and release the mutex.
pub Reach-unlocked :
    (l : List (ℕ × Op)) (s : Net)
    → s.pending ≡ some l
    → AreAlive s.writers l
    → (t : Net) × Reach s t × (t.pending ≡ none) × (t.handlers.sent ≡ s.handlers.sent ++ l)
Reach-unlocked [] s held alive =
    (record s { pending = none }, next here (unlocks held), refl, sym (append-nil s.handlers.sent))
Reach-unlocked ((k, op) ∷ l) s held alive =
    let (t, r, p, sent, keeps) = hands_over s k op l (s.writers k) refl (alive.0) held in
    let (u, q, free, all) = Reach-unlocked l t p (keeps (alive.1)) in
    (
      u,
      Reach-trans r q,
      free,
      all ∙ ap (λ m. m ++ l) sent ∙ append_assoc s.handlers.sent ((k, op) ∷ []) l,
    )
