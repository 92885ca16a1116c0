-- ===== src/Noise/Gate.antt =====
-- Who gets through to the RPC server: the handshake of middleware/src/noise/noise.go with no other
-- connection in between, and the read loop of middleware/src/handlers/websocket.go after it.
use mathlib.Core.List.{append_assoc, append_cancel_left}
use bitbox_base.Base.{
  Bool, true, false, not, none, List, [], ◌∷◌, ◌++◌, ◌≡◌, ◌≢◌, refl, ◌∙◌, ap, sym, ◌⊎◌, inl, inr,
  arith, length,
}
use bitbox_base.Base.Text.{Text}
use bitbox_base.Noise.{NoiseSystem, State, ok, Seen, looked_up, asked, stored, ◌>>=◌, ◌>>◌}
use bitbox_base.Noise.Handshake.{
  prepare, exchange_first, exchange_third, await_request, initialize_noise,
}
use bitbox_base.Noise.Steps.{
  Same-trans, Handshaken, Handshaken-after, Requested, >>=-eq-ok, prepare-Same, exchange_first-Same,
  exchange_third-Handshaken, await_request-Requested,
}
use bitbox_base.Noise.Session.{decrypt, read_loop}

log-join : (a b c ys : List Seen) (x : Seen) → b ≡ a ++ (x ∷ []) → c ≡ b ++ ys → c ≡ a ++ (x ∷ ys)
log-join a b c ys x e f = f ∙ (ap (λ l. l ++ ys) e ∙ append_assoc a (x ∷ []) ys)

module _ (sys : NoiseSystem) where
  -- How a handshake that succeeds has gone: the client's key was looked up; then the user was not
  -- asked, has refused, or has accepted the channel hash of this handshake.
  pub record Introduced (s t : State sys) : Type 0 where
    pub known : Bool
    pub key_length : length t.config.client_static_pubkey ≡ 32
    pub initialized : t.config.initialized ≡ true
    pub found_out : List Seen
    pub log : t.log ≡ s.log ++ (looked_up t.config.client_static_pubkey known ∷ found_out)
    pub gate :
        ((found_out ≡ []) × (t.config.pairing_verification_required ≡ not known))
        ⊎ (((found_out ≡ asked t.config.channel_hash (false, none) ∷ [])
              × (t.config.pairing_verification_required ≡ not known))
            ⊎ ((found_out
                  ≡ asked t.config.channel_hash (true, none)
                    ∷ stored t.config.client_static_pubkey
                    ∷ [])
                × (t.config.pairing_verification_required ≡ false)))

  Introduced-after : (s t u : State sys) → Handshaken sys s t → Requested sys t u → Introduced s u
  Introduced-after s t u h (client, inl (log, required)) = record {
    known = h.known;
    key_length = ground arith;
    initialized = ground arith;
    found_out = [];
    log = ground arith;
    gate = inl (refl, ground arith);
  }
  Introduced-after s t u h (client, inr (inl (log, required))) = record {
    known = h.known;
    key_length = ground arith;
    initialized = ground arith;
    found_out = asked u.config.channel_hash (false, none) ∷ [];
    log = ground (arith, log-join s.log t.log u.log _ _ h.log log);
    gate = inr (inl (refl, ground arith));
  }
  Introduced-after s t u h (client, inr (inr (log, required))) = record {
    known = h.known;
    key_length = ground arith;
    initialized = ground arith;
    found_out =
        asked u.config.channel_hash (true, none) ∷ stored u.config.client_static_pubkey ∷ [];
    log = ground (arith, log-join s.log t.log u.log _ _ h.log log);
    gate = inr (inr (refl, ground arith));
  }

  -- If no other connection changes the shared configuration during it, a handshake that succeeds has
  -- looked up a client key of 32 bytes, and found out nothing more, or that the user refuses, or that
  -- the user accepts the channel hash of this handshake, whereupon this key is stored. Verification
  -- stays required exactly if the key was not known and the user has not accepted.
  pub initialize_noise_sound :
      (ws : sys.Websocket) (s : State sys)
      → (initialize_noise sys ws s).0 ≡ ok tt
      → Introduced s (initialize_noise sys ws s).1
  unfolding initialize_noise
  initialize_noise_sound ws s done =
      let a = (prepare sys s).1 in
      >>=-eq-ok (prepare sys)
        (λ h. exchange_first sys ws h >>= λ h'. exchange_third sys ws h' >> await_request sys ws) s
        (Introduced s) done
        λ h _ done_a.
          let b = (exchange_first sys ws h a).1 in
          >>=-eq-ok (exchange_first sys ws h)
            (λ h'. exchange_third sys ws h' >> await_request sys ws) a (Introduced s) done_a
            λ h' _ done_b.
              let c = (exchange_third sys ws h' b).1 in
              >>=-eq-ok (exchange_third sys ws h') (λ _. await_request sys ws) b (Introduced s)
                done_b
                λ _ third done_c.
                  Introduced-after s c (await_request sys ws c).1
                    (Handshaken-after sys s b c
                      (Same-trans sys s a b (prepare-Same sys s) (exchange_first-Same sys ws h a))
                      (exchange_third-Handshaken sys ws h' b third))
                    (await_request-Requested sys ws c done_c)

  -- Nothing that a client sends is passed on while verification is required.
  read_loop-required :
      (messages : List Text) (t : State sys)
      → t.config.initialized ≡ true
      → t.config.pairing_verification_required ≡ true
      → (read_loop sys messages t).0 ≡ []
  unfolding read_loop decrypt
  read_loop-required [] t i r = refl
  read_loop-required ([] ∷ messages) t i r = read_loop-required messages t i r
  read_loop-required ((c ∷ message) ∷ messages) t i r = ground arith

  required-unaccepted :
      (known : Bool) (found more : List Seen) (required : Bool) (key hash : Text)
      → ((found ≡ []) × (required ≡ not known))
        ⊎ (((found ≡ asked hash (false, none) ∷ []) × (required ≡ not known))
            ⊎ ((found ≡ asked hash (true, none) ∷ stored key ∷ []) × (required ≡ false)))
      → ◌≡◌ {A = List Seen} (looked_up key known ∷ found) (looked_up key false ∷ more)
      → more ≢ asked hash (true, none) ∷ stored key ∷ []
      → required ≡ true
  required-unaccepted known found more required key hash gate same unaccepted = ground arith

  -- If no other connection changes the shared configuration during the handshake and the session, a
  -- client whose key is not in the file and whose pairing the user does not accept gets nothing
  -- through to the RPC server, whatever it sends after a handshake that succeeds.
  pub read_loop-unverified :
      (ws : sys.Websocket) (s : State sys) (messages : List Text)
      → (initialize_noise sys ws s).0 ≡ ok tt
      → let t = (initialize_noise sys ws s).1 in
        (more : List Seen)
        → t.log ≡ s.log ++ (looked_up t.config.client_static_pubkey false ∷ more)
        → ((rest : List Seen) → more ≢ asked t.config.channel_hash (true, none) ∷ rest)
        → (read_loop sys messages t).0 ≡ []
  read_loop-unverified ws s messages done more log unaccepted =
      let t = (initialize_noise sys ws s).1 in
      let i = initialize_noise_sound ws s done in
      let same = append_cancel_left s.log _ _ (sym i.log ∙ log) in
      read_loop-required messages t i.initialized (
        required-unaccepted i.known i.found_out more t.config.pairing_verification_required
          t.config.client_static_pubkey t.config.channel_hash i.gate same
          (unaccepted (stored t.config.client_static_pubkey ∷ [])))
