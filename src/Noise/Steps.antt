-- ===== src/Noise/Steps.antt =====
-- What each part of the handshake of middleware/src/noise/noise.go leaves behind.
use mathlib.Core.List.{append_assoc}
use bitbox_base.Base.{
  Bool, true, false, not, none, some, [], ◌∷◌, ◌++◌, ◌≡◌, refl, ◌∙◌, ◌⊎◌, inl, inr, arith, ◌==◌,
  length,
}
use bitbox_base.Base.Text.{Text, text}
use bitbox_base.System.{Returns}
use bitbox_base.Noise.{
  NoiseSystem, State, Result, ok, fail, panic, looked_up, asked, stored, ◌>>=◌, ◌>>◌, outside,
}
use bitbox_base.Noise.Handshake.{
  prepare, greet, answer_first, set_ciphers, finish_handshake, answer_third, conclude,
  check_verification, read, verify_if_asked, await_request, handle_request, exchange_first,
  exchange_third,
}
use bitbox_base.Noise.Files.{contains_client_static_pubkey}

-- A sequence that ends well is a step that ends well, and then the rest.
pub >>=-eq-ok :
    {S A B : Type 0} (m : S → Result A × S) (f : A → S → Result B × S) (s : S) {b : B}
    (P : S → Type 0)
    → ((m >>= f) s).0 ≡ ok b
    → ((a : A) → (m s).0 ≡ ok a → (f a (m s).1).0 ≡ ok b → P (f a (m s).1).1)
    → P ((m >>= f) s).1
>>=-eq-ok {S} {A} {B} m f s {b} P h step = go (m s).0 refl
  where
    go : (r : Result A) → (m s).0 ≡ r → P ((m >>= f) s).1
    go (ok a) e = rw (e, ◌>>=◌) (step a e (rw (e, ◌>>=◌) at h))
    go (fail err) e = ground arith
    go panic e = ground arith

module _ (sys : NoiseSystem) where
  -- Nothing happens to the configuration, and nothing is found out about a client.
  abbrev pub Same : State sys → State sys → Type 0
  Same s t = (t.config ≡ s.config) × (t.log ≡ s.log)

  pub Same-trans : (s t u : State sys) → Same s t → Same t u → Same s u
  Same-trans s t u (a, b) (c, d) = (c ∙ a, d ∙ b)

  pub prepare-Same : (s : State sys) → Same s (prepare sys s).1
  unfolding prepare
  prepare-Same s = ground arith

  read-Same :
      (message : Text) (ws : sys.Websocket) (s : State sys) → Same s (read sys message ws s).1
  unfolding read
  read-Same message ws s = ground arith

  pub greet-Same :
      (ws : sys.Websocket) (request : Text) (s : State sys) → Same s (greet sys ws request s).1
  unfolding greet
  greet-Same ws request s = ground arith

  pub answer_first-Same :
      (ws : sys.Websocket) (h : sys.Handshake) (received : Text) (s : State sys)
      → Same s (answer_first sys ws h received s).1
  unfolding answer_first
  answer_first-Same ws h received s = ground arith

  -- The client that a finished handshake has left in the configuration.
  pub record Handshaken (s t : State sys) : Type 0 where
    pub known : Bool
    pub key_length : length t.config.client_static_pubkey ≡ 32
    pub log : t.log ≡ s.log ++ (looked_up t.config.client_static_pubkey known ∷ [])
    pub required : t.config.pairing_verification_required ≡ not known
    pub initialized : t.config.initialized ≡ true

  finish_handshake-Handshaken :
      (ws : sys.Websocket) (h : sys.Handshake) (s : State sys)
      → (finish_handshake sys ws h s).0 ≡ ok tt
      → Handshaken s (finish_handshake sys ws h s).1
  unfolding finish_handshake
  finish_handshake-Handshaken ws h s done = record {
    known = (contains_client_static_pubkey sys s.config.data_dir (sys.peer_static h) s.world).0;
    key_length = ground arith;
    log = ground arith;
    required = ground arith;
    initialized = ground arith;
  }

  -- What a verification finds out, and whether it opens the gate.
  abbrev pub Verified : State sys → State sys → Type 0
  Verified s t =
      ((t.log ≡ s.log ++ (asked s.config.channel_hash (false, none) ∷ []))
        × (t.config.pairing_verification_required ≡ s.config.pairing_verification_required))
      ⊎ ((t.log
            ≡ s.log
              ++ (asked s.config.channel_hash (true, none)
                  ∷ stored s.config.client_static_pubkey
                  ∷ []))
          × (t.config.pairing_verification_required ≡ false))

  abbrev pub SameClient : State sys → State sys → Type 0
  SameClient s t =
      (t.config.client_static_pubkey ≡ s.config.client_static_pubkey)
      × (t.config.channel_hash ≡ s.config.channel_hash)
      × (t.config.initialized ≡ s.config.initialized)

  -- `conclude` on an answer that the log of `s` does not hold yet.
  abbrev answered : Returns Bool → sys.World → State sys → State sys
  answered r w s = record s { world = w; log = s.log ++ (asked s.config.channel_hash r ∷ []) }

  conclude-Verified :
      (r : Returns Bool) (w : sys.World) (s : State sys) (m : Text)
      → (conclude sys r (answered r w s)).0 ≡ ok m
      → let t = (conclude sys r (answered r w s)).1 in SameClient s t × Verified s t
  unfolding conclude
  conclude-Verified (accepted, some err) w s m done = cc
  conclude-Verified (false, none) w s m done = ((refl, refl, refl), inl (refl, refl))
  conclude-Verified (true, none) w s m done =
      ((refl, refl, refl), inr (append_assoc s.log _ _, refl))

  check_verification-Verified :
      (s : State sys) (m : Text)
      → (check_verification sys s).0 ≡ ok m
      → SameClient s (check_verification sys s).1 × Verified s (check_verification sys s).1
  unfolding check_verification
  check_verification-Verified s m done =
      let (r, w) = sys.verify_pairing s.config.channel_hash s.world in
      conclude-Verified r w s m done

  -- What follows on the verification request: nothing, or a verification.
  abbrev pub Requested : State sys → State sys → Type 0
  Requested s t =
      SameClient s t
      × (((t.log ≡ s.log)
            × (t.config.pairing_verification_required ≡ s.config.pairing_verification_required))
          ⊎ Verified s t)

  verify_if_asked-Requested :
      (ws : sys.Websocket) (wanted : Bool) (s : State sys)
      → (verify_if_asked sys ws wanted s).0 ≡ ok tt
      → Requested s (verify_if_asked sys ws wanted s).1
  verify_if_asked-Requested ws false s done = ((refl, refl, refl), inl (refl, refl))
  verify_if_asked-Requested ws true s done =
      >>=-eq-ok (check_verification sys)
        (λ message. outside sys (sys.ws_write ws message) >> λ t. (ok tt, t)) s (Requested s) done
        λ m e _.
          let (client, verified) = check_verification-Verified s m e in (client, inr verified)

  handle_request-Requested :
      (ws : sys.Websocket) (request : Text) (s : State sys)
      → (handle_request sys ws request s).0 ≡ ok tt
      → Requested s (handle_request sys ws request s).1
  unfolding handle_request
  handle_request-Requested ws [] s done = cc
  handle_request-Requested ws (c ∷ request) s done = verify_if_asked-Requested ws (c == b'v') s done

  Requested-after : (s t u : State sys) → Same s t → Requested t u → Requested s u
  Requested-after s t u (c, l) h = ground arith

  pub await_request-Requested :
      (ws : sys.Websocket) (s : State sys)
      → (await_request sys ws s).0 ≡ ok tt
      → Requested s (await_request sys ws s).1
  unfolding await_request
  await_request-Requested ws s done =
      let get = read sys (text "websocket failed to read verification request") ws in
      >>=-eq-ok get (handle_request sys ws) s (Requested s) done λ request _ done'.
        Requested-after s (get s).1 (handle_request sys ws request (get s).1).1 (read-Same _ ws s)
          (handle_request-Requested ws request (get s).1 done')

  pub Handshaken-after : (s t u : State sys) → Same s t → Handshaken t u → Handshaken s u
  Handshaken-after s t u (c, l) h = record {
    known = h.known;
    key_length = h.key_length;
    log = ground arith;
    required = h.required;
    initialized = h.initialized;
  }

  set_ciphers-log :
      (h : sys.Handshake) (received : Text) (s : State sys)
      → (set_ciphers sys h received s).1.log ≡ s.log
  unfolding set_ciphers
  set_ciphers-log h received s = ground arith

  pub answer_third-Handshaken :
      (ws : sys.Websocket) (h : sys.Handshake) (received : Text) (s : State sys)
      → (answer_third sys ws h received s).0 ≡ ok tt
      → Handshaken s (answer_third sys ws h received s).1
  unfolding answer_third
  answer_third-Handshaken ws h received s done =
      >>=-eq-ok (set_ciphers sys h received) (finish_handshake sys ws) s (Handshaken s) done
        λ h' _ done'.
          let t = (set_ciphers sys h received s).1 in
          let f = finish_handshake-Handshaken ws h' t done' in
          record {
            known = f.known;
            key_length = f.key_length;
            log = ground (arith, set_ciphers-log h received s);
            required = f.required;
            initialized = f.initialized;
          }

  pub exchange_third-Handshaken :
      (ws : sys.Websocket) (h : sys.Handshake) (s : State sys)
      → (exchange_third sys ws h s).0 ≡ ok tt
      → Handshaken s (exchange_third sys ws h s).1
  unfolding exchange_third
  exchange_third-Handshaken ws h s done =
      let get = read sys (text "websocket failed to read third noise handshake message") ws in
      >>=-eq-ok get (answer_third sys ws h) s (Handshaken s) done λ third _ done'.
        Handshaken-after s (get s).1 (answer_third sys ws h third (get s).1).1 (read-Same _ ws s)
          (answer_third-Handshaken ws h third (get s).1 done')

  pub exchange_first-Same :
      (ws : sys.Websocket) (h : sys.Handshake) (s : State sys)
      → Same s (exchange_first sys ws h s).1
  unfolding exchange_first read greet answer_first
  exchange_first-Same ws h s = ground arith
