-- ===== src/Noise.antt =====
-- The pairing of a client with the middleware: middleware/src/noise/noise.go. `NoiseSystem` is what
-- the code calls and does not implement: the Noise library, the websocket, the user who compares the
-- channel hash, the file system and JSON. The log of a state records what was found out about a
-- client; no code reads it.
pub mod Files
pub mod Handshake
pub mod Session
pub mod Known
pub mod Steps
pub mod Gate
pub mod Race
pub mod Interleaved
use bitbox_base.Base.{Bool, false, Option, none, some, List, [], ◌∷◌, ◌++◌, Action}
use bitbox_base.Base.Text.{Text}
use bitbox_base.System.{GoError, Returns}

-- `noise.DHKey`, and `noiseKeypair` in the file.
pub record DhKey : Type 0 where
  pub private : Text
  pub public : Text

-- `configuration`, the contents of base.json.
pub record ConfigFile : Type 0 where
  pub middleware_keypair : Option DhKey
  pub client_pubkeys : List Text

-- What `handshake.ReadMessage` leaves and returns: the handshake state, the two ciphers (nil before
-- the last message and after an error) and the error.
pub record NoiseRead (Handshake Cipher : Type 0) : Type 0 where
  pub handshake : Handshake
  pub send : Option Cipher
  pub receive : Option Cipher
  pub error : Option GoError

pub record NoiseSystem : Type 1 where
  pub World : Type 0
  pub Handshake : Type 0
  pub Cipher : Type 0
  pub Websocket : Type 0
  -- `os.Stat(path)` with `IsDir`, `ioutil.ReadFile`, `os.MkdirAll`, `ioutil.WriteFile`,
  -- `filepath.Join`.
  pub stat_is_dir : Text → Action World (Returns Bool)
  pub read_file : Text → Action World (Returns Text)
  pub mkdir_all : Text → Action World (Option GoError)
  pub write_file : Text → Text → Action World (Option GoError)
  pub join_path : Text → Text → Text
  pub marshal : ConfigFile → Returns Text
  pub unmarshal : Text → Returns ConfigFile
  pub generate_keypair : Action World (Returns DhKey)
  pub new_handshake : DhKey → Action World (Returns Handshake)
  pub read_message : Handshake → Text → NoiseRead Handshake Cipher
  pub write_message : Handshake → Action World (Returns Text × Handshake)
  pub peer_static : Handshake → Text
  pub channel_binding : Handshake → Text
  -- Both advance the nonce of the cipher.
  pub encrypt : Cipher → Text → Text × Cipher
  pub decrypt : Cipher → Text → Returns Text × Cipher
  -- The method `VerifyAppMiddlewarePairing` of the middleware.
  pub verify_pairing : Text → Action World (Returns Bool)
  pub ws_read : Websocket → Action World (Returns Text)
  pub ws_write : Websocket → Text → Action World (Option GoError)

-- `errors.New(message)`
abbrev pub new_error : Text → GoError
new_error message = record { is_not_exist = false; message = message }

-- How a function ends: with a value, with an error, or in a panic.
pub data Result (A : Type 0) : Type 0 where
  ok : A → Result A
  fail : GoError → Result A
  panic : Result A

-- The list of known clients was searched for a key; the user was asked about a channel hash; a key
-- was given to `addClientStaticPubkey`.
pub data Seen : Type 0 where
  looked_up : Text → Bool → Seen
  asked : Text → Returns Bool → Seen
  stored : Text → Seen

module _ (sys : NoiseSystem) where
  -- `NoiseConfig`: one value, which all connections share.
  pub record NoiseConfig : Type 0 where
    pub client_static_pubkey : Text
    pub channel_hash : Text
    pub send_cipher : Option sys.Cipher
    pub receive_cipher : Option sys.Cipher
    pub pairing_verification_required : Bool
    pub initialized : Bool
    pub data_dir : Text

  pub record State : Type 0 where
    pub config : NoiseConfig
    pub world : sys.World
    pub log : List Seen

  abbrev pub N : Type 0 → Type 0
  N A = State → Result A × State

  abbrev pub done : {A : Type 0} → A → N A
  done a s = (ok a, s)

  abbrev pub stop : {A : Type 0} → Text → N A
  stop message s = (fail (new_error message), s)

  -- A call of the outside world, with the result as it is.
  abbrev pub outside : {A : Type 0} → Action sys.World A → N A
  outside f s = let (a, w) = f s.world in (ok a, record s { world = w })

  abbrev pub checked : {A : Type 0} → Text → Returns A → N A
  checked message (a, none) = done a
  checked message (a, some err) = stop message

  abbrev pub check : Text → Option GoError → N (Unit {0})
  check message none = done tt
  check message (some err) = stop message

  abbrev pub config : N NoiseConfig
  config s = (ok s.config, s)

  abbrev pub set_config : (NoiseConfig → NoiseConfig) → N (Unit {0})
  set_config f s = (ok tt, record s { config = f s.config })

  abbrev pub note : Seen → N (Unit {0})
  note x s = (ok tt, record s { log = s.log ++ (x ∷ []) })

infixl 5 ◌>>=◌ ◌>>◌
abbrev pub ◌>>=◌ : {S A B : Type 0} → (S → Result A × S) → (A → S → Result B × S) → S → Result B × S
◌>>=◌ m f s =
    let (r, t) = m s in elim r [ ok a ↦ f a t | fail err ↦ (fail err, t) | panic ↦ (panic, t) ]

abbrev pub ◌>>◌ : {S A B : Type 0} → (S → Result A × S) → (S → Result B × S) → S → Result B × S
m >> k = m >>= λ _. k
