-- ===== src/Noise/Handshake.antt =====
-- `InitializeNoise` and `CheckVerification` of middleware/src/noise/noise.go. Between two messages
-- of the client, and while the user is asked, other connections run: each part from one such wait to
-- the next is a function of its own.
use bitbox_base.Base.{
  Bool, true, false, not, Option, none, some, [], ◌∷◌, ◌==◌, length, if◌then◌else◌,
}
use bitbox_base.Base.Text.{Text, text, text_eq}
use bitbox_base.System.{Returns}
use bitbox_base.Noise.{
  DhKey, NoiseSystem, N, ok, fail, panic, done, stop, outside, checked, check, config, set_config,
  note, looked_up, asked, stored, ◌>>=◌, ◌>>◌,
}
use bitbox_base.Noise.Files.{
  contains_client_static_pubkey, add_client_static_pubkey, get_middleware_noise_static_keypair,
  set_middleware_noise_static_keypair,
}

abbrev pub response_success : Text
response_success = 0 ∷ []

abbrev pub response_failure : Text
response_failure = 1 ∷ []

abbrev pub response_needs_pairing : Text
response_needs_pairing = 1 ∷ []

module _ (sys : NoiseSystem) where
  -- A key pair that cannot be stored is used all the same.
  abbrev key_of : Option DhKey → N sys DhKey
  key_of (some key) = done sys key
  key_of none = do
    generated ← outside sys sys.generate_keypair
    key ← checked sys (text "failed to generate a new noise keypair") generated
    c ← config sys
    outside sys (set_middleware_noise_static_keypair sys c.data_dir key)
    done sys key

  -- Up to the first message.
  unfoldable pub prepare : N sys sys.Handshake
  prepare = do
    c ← config sys
    saved ← outside sys (get_middleware_noise_static_keypair sys c.data_dir)
    key ← key_of saved
    handshake ← outside sys (sys.new_handshake key)
    checked sys
        (text
          "failed to generate a new noise handshake state for the wallet app communication with the BitBoxBase")
        handshake

  unfoldable pub write : Text → sys.Websocket → Text → N sys (Unit {0})
  write message ws contents = do
    sent ← outside sys (sys.ws_write ws contents)
    check sys message sent

  unfoldable pub greet : sys.Websocket → Text → N sys (Unit {0})
  unfolding text_eq write
  greet ws request =
      if text_eq request (text "h")
      then write (text "websocket failed to write the noise handshake request response") ws
          response_success
      else stop sys (text "initial response bytes did not match what we were expecting")

  -- The first message of the handshake is read, and the second is written.
  unfoldable pub answer_first : sys.Websocket → sys.Handshake → Text → N sys sys.Handshake
  unfolding write
  answer_first ws handshake received = do
    let first = sys.read_message handshake received
    check sys (text "noise failed to read first noise handshake message") first.error
    made ← outside sys (sys.write_message first.handshake)
    message ← checked sys (text "noise failed to write second noise handshake message") made.0
    write (text "websocket failed to write second noise handshake message") ws message
    done sys made.1

  -- The third message sets the ciphers, also when it is refused.
  unfoldable pub set_ciphers : sys.Handshake → Text → N sys sys.Handshake
  set_ciphers handshake received = do
    let third = sys.read_message handshake received
    set_config sys (λ c. record c { send_cipher = third.send; receive_cipher = third.receive })
    check sys (text "noise failed to read the third noise handshake message") third.error
    done sys third.handshake

  unfoldable pub finish_handshake : sys.Websocket → sys.Handshake → N sys (Unit {0})
  unfolding write
  finish_handshake ws handshake = do
    set_config sys (λ c. record c { client_static_pubkey = sys.peer_static handshake })
    (if length (sys.peer_static handshake) == 32
        then done sys tt
        else stop sys (text "expected 32 byte remote static pubkey"))
    c ← config sys
    known ← outside sys (contains_client_static_pubkey sys c.data_dir c.client_static_pubkey)
    note sys (looked_up c.client_static_pubkey known)
    set_config sys (λ c. record c { pairing_verification_required = not known })
    write (text "websocket failed to write second noise handshake message") ws
        (if not known then response_needs_pairing else response_success)
    set_config sys
        (λ c. record c { channel_hash = sys.channel_binding handshake; initialized = true })

  unfoldable pub answer_third : sys.Websocket → sys.Handshake → Text → N sys (Unit {0})
  unfolding set_ciphers finish_handshake
  answer_third ws handshake received = do
    handshake' ← set_ciphers handshake received
    finish_handshake ws handshake'

  -- The test `responseBytes[0] == opICanHasPairinVerificashun`: an empty message has no first byte.
  abbrev pub asks_verification : Text → N sys Bool
  asks_verification [] s = (panic, s)
  asks_verification (c ∷ message) s = (ok (c == b'v'), s)

  -- `CheckVerification` after the user's answer.
  unfoldable pub conclude : Returns Bool → N sys Text
  conclude (accepted, some err) s = (fail err, s)
  conclude (false, none) s = (ok response_failure, s)
  conclude (true, none) s = accept s
    where
      accept : N sys Text
      accept = do
        c ← config sys
        note sys (stored c.client_static_pubkey)
        outside sys (add_client_static_pubkey sys c.data_dir c.client_static_pubkey)
        set_config sys (λ c. record c { pairing_verification_required = false })
        done sys response_success

  unfoldable pub check_verification : N sys Text
  unfolding conclude
  check_verification = do
    c ← config sys
    accepted ← outside sys (sys.verify_pairing c.channel_hash)
    note sys (asked c.channel_hash accepted)
    conclude accepted

  unfoldable pub read : Text → sys.Websocket → N sys Text
  read message ws = do received ← outside sys (sys.ws_read ws); checked sys message received

  -- A failure to write the answer of the user is only logged.
  abbrev pub verify_if_asked : sys.Websocket → Bool → N sys (Unit {0})
  verify_if_asked ws false = done sys tt
  verify_if_asked ws true = do
    message ← check_verification
    outside sys (sys.ws_write ws message)
    done sys tt

  unfoldable pub handle_request : sys.Websocket → Text → N sys (Unit {0})
  unfolding check_verification
  handle_request ws request = do wanted ← asks_verification request; verify_if_asked ws wanted

  -- From the verification request on.
  unfoldable pub await_request : sys.Websocket → N sys (Unit {0})
  unfolding handle_request read
  await_request ws = do
    request ← read (text "websocket failed to read verification request") ws
    handle_request ws request

  -- The client's first two messages.
  unfoldable pub exchange_first : sys.Websocket → sys.Handshake → N sys sys.Handshake
  unfolding read greet answer_first
  exchange_first ws handshake = do
    request ← read (text "websocket failed to read noise handshake request") ws
    greet ws request
    first ← read (text "websocket failed to read first noise handshake message") ws
    answer_first ws handshake first

  -- Its third message.
  unfoldable pub exchange_third : sys.Websocket → sys.Handshake → N sys (Unit {0})
  unfolding read answer_third
  exchange_third ws handshake = do
    third ← read (text "websocket failed to read third noise handshake message") ws
    answer_third ws handshake third

  -- The handshake with no other connection in between; Noise/Interleaved has the single steps.
  unfoldable pub initialize_noise : sys.Websocket → N sys (Unit {0})
  unfolding prepare exchange_first exchange_third await_request
  initialize_noise ws = do
    handshake ← prepare
    handshake' ← exchange_first ws handshake
    exchange_third ws handshake'
    await_request ws
