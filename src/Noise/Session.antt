-- ===== src/Noise/Session.antt =====
-- What a connection does after its handshake: `Encrypt` and `Decrypt` of middleware/src/noise/noise.go
-- and the loops of middleware/src/handlers/websocket.go.
use bitbox_base.Base.{Option, none, some, List, [], ◌∷◌, if◌then◌else◌}
use bitbox_base.Base.Text.{Text, text}
use bitbox_base.System.{Returns}
use bitbox_base.Noise.{NoiseSystem, State, N, Result, ok, fail, panic, stop}

module _ (sys : NoiseSystem) where
  -- `sendCipher.Encrypt`: a nil cipher panics.
  abbrev encrypt_with : Option sys.Cipher → Text → N sys Text
  encrypt_with none message s = (panic, s)
  encrypt_with (some cipher) message s =
      let (sealed, cipher') = sys.encrypt cipher message in
      (ok sealed, record s { config = record (s.config) { send_cipher = some cipher' } })

  unfoldable pub encrypt : Text → N sys Text
  encrypt message s =
      if s.config.initialized
      then encrypt_with s.config.send_cipher
          (if s.config.pairing_verification_required
            then text "Error: encrypted connection not verified"
            else message)
          s
      else (ok (text "Error: noise session not initialized"), s)

  abbrev opened : Returns Text → Result Text
  opened (message, none) = ok message
  opened (message, some err) = fail err

  abbrev decrypt_with : Option sys.Cipher → Text → N sys Text
  decrypt_with none message s = (panic, s)
  decrypt_with (some cipher) message s =
      let (plain, cipher') = sys.decrypt cipher message in
      (opened plain, record s { config = record (s.config) { receive_cipher = some cipher' } })

  unfoldable pub decrypt : Text → N sys Text
  decrypt message s =
      if s.config.initialized
      then (if s.config.pairing_verification_required
          then stop sys (text "pairing verification has not been done with this client") s
          else decrypt_with s.config.receive_cipher message s)
      else stop sys (text "noise not initialized") s

  -- The read loop over the messages that a client sends until its connection closes: what it passes
  -- on to the RPC server. The loop ends where a message cannot be decrypted.
  unfoldable pub read_loop : List Text → State sys → List Text × State sys
  unfolding decrypt
  read_loop [] s = ([], s)
  read_loop ([] ∷ messages) s = read_loop messages s
  read_loop ((c ∷ message) ∷ messages) s =
      let (plain, t) = decrypt (c ∷ message) s in
      let (later, u) = read_loop messages t in
      elim plain [ ok m ↦ (m ∷ later, u) | fail err ↦ ([], t) | panic ↦ ([], t) ]
