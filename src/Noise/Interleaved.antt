-- ===== src/Noise/Interleaved.antt =====
-- Connections that run at the same time over the one Noise configuration that they share
-- (middleware/src/noise/noise.go): whatever the order of their steps, when messages get through.
use bitbox_base.Base.{
  Bool, true, false, not, none, some, List, [], ◌∷◌, ◌++◌, ◌≡◌, refl, sym, ap, ◌∙◌, ◌⊎◌, inl, inr,
  arith, length, ◌==◌, subst, Bool-cases, true-ne-false, Any, Any-append_left, Any-append_right,
}
use bitbox_base.Base.Text.{Text}
use bitbox_base.System.{Returns}
use bitbox_base.Noise.{
  NoiseSystem, State, Result, ok, fail, panic, Seen, looked_up, asked, stored, ◌>>=◌,
}
use bitbox_base.Noise.Files.{contains_client_static_pubkey}
use bitbox_base.Noise.Handshake.{
  prepare, greet, answer_first, set_ciphers, finish_handshake, answer_third, conclude,
}
use bitbox_base.Noise.Session.{encrypt, decrypt}
use bitbox_base.Noise.Steps.{Same, prepare-Same, greet-Same, answer_first-Same}

-- The user has given this answer to a question.
abbrev pub Answers : Returns Bool → Seen → Type 0
Answers r (looked_up key known) = ⊥
Answers r (asked hash answer) = answer ≡ r
Answers r (stored key) = ⊥

-- A client was known, or the user has accepted it.
abbrev pub Opens : Seen → Type 0
Opens (looked_up key known) = known ≡ true
Opens (asked hash answer) = answer ≡ (true, none)
Opens (stored key) = ⊥

Opens-of_Answers : (xs : List Seen) → Any (Answers (true, none)) xs → Any Opens xs
Opens-of_Answers [] q = absurd q
Opens-of_Answers (asked hash r ∷ xs) (inl p) = inl p
Opens-of_Answers (looked_up key known ∷ xs) (inl p) = absurd p
Opens-of_Answers (stored key ∷ xs) (inl p) = absurd p
Opens-of_Answers (x ∷ xs) (inr q) = inr (Opens-of_Answers xs q)

known_of : (known : Bool) → not known ≡ false → known ≡ true
known_of true e = refl
known_of false e = cc

-- What the first part and the rest keep, the sequence keeps, also where the first part fails.
>>=-keeps :
    {S A B : Type 0} (m : S → Result A × S) (f : A → S → Result B × S) (s : S) (P : S → Type 0)
    → P (m s).1
    → ((a : A) → P (f a (m s).1).1)
    → P ((m >>= f) s).1
>>=-keeps {S} {A} {B} m f s P p q = go (m s).0 refl
  where
    go : (r : Result A) → (m s).0 ≡ r → P ((m >>= f) s).1
    go (ok a) e = rw (e, ◌>>=◌) (q a)
    go (fail err) e = rw (e, ◌>>=◌) p
    go panic e = rw (e, ◌>>=◌) p

module _ (sys : NoiseSystem) where
  -- A step of some connection: one of the parts of its handshake, with whatever it has received; the
  -- question to the user, whose answer is used in a later step; a message of the session; a change of
  -- the outside world. A part is one step, although it may write to the websocket.
  pub data Step (s : State sys) : State sys → Type 0 where
    prepares : Step s (prepare sys s).1
    greets : (ws : sys.Websocket) (request : Text) → Step s (greet sys ws request s).1
    answers_first :
        (ws : sys.Websocket) (h : sys.Handshake) (received : Text)
        → Step s (answer_first sys ws h received s).1
    answers_third :
        (ws : sys.Websocket) (h : sys.Handshake) (received : Text)
        → Step s (answer_third sys ws h received s).1
    asks :
        (r : Returns Bool)
        → Step s (record s { log = s.log ++ (asked s.config.channel_hash r ∷ []) })
    concludes : (r : Returns Bool) → Any (Answers r) s.log → Step s (conclude sys r s).1
    encrypts : (message : Text) → Step s (encrypt sys message s).1
    decrypts : (message : Text) → Step s (decrypt sys message s).1
    moves : (w : sys.World) → Step s (record s { world = w })

  -- The states that are reached from the start of the middleware.
  pub data Reach : State sys → Type 0 where
    starts : (s : State sys) → s.config.initialized ≡ false → Reach s
    steps : {s t : State sys} → Reach s → Step s t → Reach t

  -- The gate is open only after a client was known or accepted.
  abbrev IsGuarded : State sys → Type 0
  IsGuarded s =
      s.config.initialized ≡ true → s.config.pairing_verification_required ≡ false → Any Opens s.log

  abbrev SameGate : State sys → State sys → Type 0
  SameGate s t =
      (t.config.initialized ≡ s.config.initialized)
      × (t.config.pairing_verification_required ≡ s.config.pairing_verification_required)
      × (t.log ≡ s.log)

  SameGate-IsGuarded : (s t : State sys) → SameGate s t → IsGuarded s → IsGuarded t
  SameGate-IsGuarded s t (i, r, l) g a b = subst (Any Opens) (sym l) (g (sym i ∙ a) (sym r ∙ b))

  finish_handshake-cases :
      (ws : sys.Websocket) (h : sys.Handshake) (s : State sys)
      → let t = (finish_handshake sys ws h s).1 in
        SameGate s t
        ⊎ ((key : Text) × (known : Bool) × (t.log ≡ s.log ++ (looked_up key known ∷ []))
            × (t.config.pairing_verification_required ≡ not known))
  unfolding finish_handshake
  finish_handshake-cases ws h s = elim (Bool-cases (length (sys.peer_static h) == 32)) [
    | inl e ↦ inr (
      sys.peer_static h,
      (contains_client_static_pubkey sys s.config.data_dir (sys.peer_static h) s.world).0,
      ground arith,
      ground arith,
    )
    | inr e ↦ inl (ground arith, ground arith, ground arith)
  ]

  Same-IsGuarded : (s t : State sys) → Same sys s t → IsGuarded s → IsGuarded t
  Same-IsGuarded s t (c, l) =
      SameGate-IsGuarded s t
        (ap (λ d. d.initialized) c, ap (λ d. d.pairing_verification_required) c, l)

  finish_handshake-IsGuarded :
      (ws : sys.Websocket) (h : sys.Handshake) (s : State sys)
      → IsGuarded s
      → IsGuarded (finish_handshake sys ws h s).1
  finish_handshake-IsGuarded ws h s g = elim (finish_handshake-cases ws h s) [
    | inl same ↦ SameGate-IsGuarded s (finish_handshake sys ws h s).1 same g
    | inr found ↦
        let (key, known, log, required) = found in
        λ a b. subst (Any Opens) (sym log) (
          Any-append_right Opens s.log (looked_up key known ∷ [])
            (inl (known_of known (sym required ∙ b))))
  ]

  set_ciphers-SameGate :
      (h : sys.Handshake) (received : Text) (s : State sys)
      → SameGate s (set_ciphers sys h received s).1
  unfolding set_ciphers
  set_ciphers-SameGate h received s = ground arith

  answer_third-IsGuarded :
      (ws : sys.Websocket) (h : sys.Handshake) (received : Text) (s : State sys)
      → IsGuarded s
      → IsGuarded (answer_third sys ws h received s).1
  unfolding answer_third
  answer_third-IsGuarded ws h received s g =
      let t = (set_ciphers sys h received s).1 in
      >>=-keeps (set_ciphers sys h received) (finish_handshake sys ws) s IsGuarded
        (SameGate-IsGuarded s t (set_ciphers-SameGate h received s) g)
        λ h'.
          finish_handshake-IsGuarded ws h' t
            (SameGate-IsGuarded s t (set_ciphers-SameGate h received s) g)

  conclude-IsGuarded :
      (r : Returns Bool) (s : State sys)
      → Any (Answers r) s.log
      → IsGuarded s
      → IsGuarded (conclude sys r s).1
  unfolding conclude
  conclude-IsGuarded (accepted, some err) s q g = g
  conclude-IsGuarded (false, none) s q g = g
  conclude-IsGuarded (true, none) s q g =
      λ a b. Any-append_left Opens s.log _ (Opens-of_Answers s.log q)

  encrypt-SameGate : (message : Text) (s : State sys) → SameGate s (encrypt sys message s).1
  unfolding encrypt
  encrypt-SameGate message s = ground arith

  decrypt-SameGate : (message : Text) (s : State sys) → SameGate s (decrypt sys message s).1
  unfolding decrypt
  decrypt-SameGate message s = ground arith

  Step-IsGuarded : {s t : State sys} → Step s t → IsGuarded s → IsGuarded t
  Step-IsGuarded {s} prepares g = Same-IsGuarded s (prepare sys s).1 (prepare-Same sys s) g
  Step-IsGuarded {s} (greets ws request) g =
      Same-IsGuarded s (greet sys ws request s).1 (greet-Same sys ws request s) g
  Step-IsGuarded {s} (answers_first ws h received) g =
      Same-IsGuarded s (answer_first sys ws h received s).1 (answer_first-Same sys ws h received s)
        g
  Step-IsGuarded {s} (answers_third ws h received) g = answer_third-IsGuarded ws h received s g
  Step-IsGuarded {s} (asks r) g = λ a b. Any-append_left Opens s.log _ (g a b)
  Step-IsGuarded {s} (concludes r q) g = conclude-IsGuarded r s q g
  Step-IsGuarded {s} (encrypts message) g =
      SameGate-IsGuarded s (encrypt sys message s).1 (encrypt-SameGate message s) g
  Step-IsGuarded {s} (decrypts message) g =
      SameGate-IsGuarded s (decrypt sys message s).1 (decrypt-SameGate message s) g
  Step-IsGuarded {s} (moves w) g = g

  Reach-IsGuarded : {s : State sys} → Reach s → IsGuarded s
  Reach-IsGuarded (starts s i) = λ a b. absurd (true-ne-false a i)
  Reach-IsGuarded (steps r step) = Step-IsGuarded step (Reach-IsGuarded r)

  -- In whatever order the connections take their steps from the start on: a message of a client is
  -- decrypted only after a key that was looked up was known, or the user accepted a pairing. Whose
  -- key and whose pairing it was is not stated.
  pub decrypt-Opens :
      {s : State sys} (message plain : Text)
      → Reach s
      → (decrypt sys message s).0 ≡ ok plain
      → Any Opens s.log
  unfolding decrypt
  decrypt-Opens {s} message plain r e = Reach-IsGuarded r (ground arith) (ground arith)
