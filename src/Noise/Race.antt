-- ===== src/Noise/Race.antt =====
-- What another connection can do to the configuration that all connections share
-- (`Handlers.noiseConfig` in middleware/src/handlers/handlers.go): between two messages of a client,
-- and while the user is asked.
use mathlib.Core.List.{append_assoc}
use bitbox_base.Base.{Bool, true, false, none, some, [], ◌∷◌, ◌++◌, ◌≡◌, ◌≢◌, refl, arith}
use bitbox_base.Base.Text.{Text}
use bitbox_base.System.{GoError}
use bitbox_base.Noise.{NoiseSystem, NoiseRead, State, ok, panic, looked_up, asked, stored}
use bitbox_base.Noise.Handshake.{set_ciphers, finish_handshake, answer_third, conclude}
use bitbox_base.Noise.Session.{encrypt}
use bitbox_base.Noise.Steps.{answer_third-Handshaken}

module _ (sys : NoiseSystem) where
  -- The user is asked about the channel hash of one client in state `s`; before the answer, another
  -- client's third message is handled; then the answer arrives.
  abbrev pub overtaken : sys.Websocket → sys.Handshake → Text → State sys → State sys
  overtaken ws h message s =
      let (accepted, w) = sys.verify_pairing s.config.channel_hash s.world in
      let asked_state : State sys = record s {
        world = w;
        log = s.log ++ (asked s.config.channel_hash accepted ∷ []);
      } in
      (conclude sys accepted (answer_third sys ws h message asked_state).1).1

  -- What the other client's third message leaves behind.
  answer_third-client :
      (ws : sys.Websocket) (h : sys.Handshake) (message : Text) (s : State sys)
      → (answer_third sys ws h message s).0 ≡ ok tt
      → let other = sys.read_message h message in
        let t = (answer_third sys ws h message s).1 in
        (t.config.client_static_pubkey ≡ sys.peer_static other.handshake)
        × (t.config.receive_cipher ≡ other.receive)
  unfolding answer_third set_ciphers finish_handshake
  answer_third-client ws h message s done = ground arith

  -- The key of the other client is stored and the gate is open for its ciphers, after a question
  -- about the channel hash of the first client.
  pub record Mistaken (s t : State sys) (other : NoiseRead sys.Handshake sys.Cipher) : Type 0 where
    pub pubkey : t.config.client_static_pubkey ≡ sys.peer_static other.handshake
    pub open_gate : t.config.pairing_verification_required ≡ false
    pub initialized : t.config.initialized ≡ true
    pub cipher : t.config.receive_cipher ≡ other.receive
    pub known : Bool
    pub log :
        t.log
        ≡ s.log
          ++ (asked s.config.channel_hash (true, none)
              ∷ looked_up (sys.peer_static other.handshake) known
              ∷ stored (sys.peer_static other.handshake)
              ∷ [])

  overtaken_accepted :
      (ws : sys.Websocket) (h : sys.Handshake) (message : Text) (s : State sys) (w : sys.World)
      → let during : State sys = record s {
        world = w;
        log = s.log ++ (asked s.config.channel_hash (true, none) ∷ []);
      } in
        (answer_third sys ws h message during).0 ≡ ok tt
        → Mistaken s
            (conclude sys (true, none) (answer_third sys ws h message during).1).1
            (sys.read_message h message)
  unfolding conclude
  overtaken_accepted ws h message s w done =
      let during : State sys = record s {
        world = w;
        log = s.log ++ (asked s.config.channel_hash (true, none) ∷ []);
      } in
      let (pubkey, cipher) = answer_third-client ws h message during done in
      let i = answer_third-Handshaken sys ws h message during done in
      record {
        pubkey = pubkey;
        open_gate = refl;
        initialized = i.initialized;
        cipher = cipher;
        known = i.known;
        log = rw (i.log, pubkey) (simp append_assoc);
      }

  -- If the user accepts the channel hash of one client while another client completes its handshake,
  -- the key of the other client is stored, its messages are decrypted with the ciphers of its own
  -- handshake, and verification is not required any more, although nobody was asked about it.
  pub conclude_overtaken :
      (ws : sys.Websocket) (h : sys.Handshake) (message : Text) (s : State sys)
      → let (accepted, w) = sys.verify_pairing s.config.channel_hash s.world in
        let during : State sys = record s {
          world = w;
          log = s.log ++ (asked s.config.channel_hash accepted ∷ []);
        } in
        accepted ≡ (true, none)
        → (answer_third sys ws h message during).0 ≡ ok tt
        → Mistaken s (overtaken ws h message s) (sys.read_message h message)
  conclude_overtaken ws h message s accepted done =
      rw (accepted, overtaken)
        (overtaken_accepted ws h message s (sys.verify_pairing s.config.channel_hash s.world).1
          (rw accepted at done))

  -- A third message that the Noise library refuses leaves no cipher: the next message to a client
  -- that was connected before panics, in a goroutine that does not recover.
  pub encrypt-answer_third_nil :
      (ws : sys.Websocket) (h : sys.Handshake) (message plain : Text) (s : State sys)
      (err : GoError)
      → s.config.initialized ≡ true
      → (sys.read_message h message).error ≡ some err
      → (sys.read_message h message).send ≡ none
      → let (refused, t) = answer_third sys ws h message s in
        (refused ≢ ok tt) × ((encrypt sys plain t).0 ≡ panic)
  unfolding encrypt answer_third set_ciphers
  encrypt-answer_third_nil ws h message plain s err connected bad no_cipher = ground arith
