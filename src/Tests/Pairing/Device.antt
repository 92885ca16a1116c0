-- ===== src/Tests/Pairing/Device.antt =====
-- A device to pair with: files in a table, JSON as texts with their lengths, a handshake in which the
-- client's first byte stands for its key, and a cipher that puts that byte in front.
use bitbox_base.Tests.Codec.{encode_texts, decode_texts, decode-encode_texts}
use Prim.Native.Nat.{ℕ, zero, suc}
use bitbox_base.Base.{
  Bool, false, Option, none, some, List, [], ◌∷◌, ◌++◌, ◌≡◌, refl, ap, sym, ◌∙◌, Action, ◌==◌,
  if◌then◌else◌,
}
use bitbox_base.Base.Text.{Text, text}
use bitbox_base.Base.Dict.{lookup, insert, lookup-insert_self}
use bitbox_base.System.{GoError, Returns}
use bitbox_base.Noise.{DhKey, ConfigFile, NoiseRead, NoiseSystem, State}
use bitbox_base.Noise.Files.{empty_config}
use bitbox_base.Noise.Known.{LawfulFiles}

encode_file : Option DhKey → List Text → Text
encode_file none keys = 0 ∷ encode_texts keys
encode_file (some key) keys = 1 ∷ encode_texts (key.private ∷ key.public ∷ keys)

unfoldable pub encode : ConfigFile → Text
unfolding encode_texts encode_file
encode c = encode_file c.middleware_keypair c.client_pubkeys

abbrev invalid : GoError
invalid = record { is_not_exist = false; message = text "invalid" }

decoded : ℕ → List Text → Returns ConfigFile
decoded zero ([] ∷ keys) = (record { middleware_keypair = none; client_pubkeys = keys }, none)
decoded (suc n) ([] ∷ private ∷ public ∷ keys) = (
  record {
    middleware_keypair = some (record { private = private; public = public });
    client_pubkeys = keys;
  },
  none,
)
decoded _ _ = (empty_config, some invalid)

unfoldable pub decode : Text → Returns ConfigFile
unfolding decoded decode_texts
decode [] = (empty_config, some invalid)
decode (flag ∷ s) = decoded flag (decode_texts zero s)

decode-encode_file :
    (o : Option DhKey) (keys : List Text)
    → decode (encode_file o keys) ≡ (record { middleware_keypair = o; client_pubkeys = keys }, none)
unfolding decode encode_file
decode-encode_file none keys = rw (decode-encode_texts [] keys)
decode-encode_file (some key) keys = rw (decode-encode_texts [] (key.private ∷ key.public ∷ keys))

decode-encode : (c : ConfigFile) → decode (encode c) ≡ (c, none)
unfolding encode
decode-encode c = decode-encode_file c.middleware_keypair c.client_pubkeys

pub record DeviceWorld : Type 0 where
  pub files : List (Text × Text)
  pub inbox : List Text
  pub user_accepts : Bool

file_of : Option Text → Returns Text
file_of none = ([], some invalid)
file_of (some t) = (t, none)

stat_of : Option Text → Returns Bool
stat_of none = (false, some invalid)
stat_of (some t) = (false, none)

unfoldable pub device_stat : Text → Action DeviceWorld (Returns Bool)
unfolding lookup stat_of
device_stat p w = (stat_of (lookup p w.files), w)

unfoldable pub device_read : Text → Action DeviceWorld (Returns Text)
unfolding lookup file_of
device_read p w = (file_of (lookup p w.files), w)

unfoldable pub device_write : Text → Text → Action DeviceWorld (Option GoError)
unfolding insert
device_write p t w = (none, record w { files = insert p t w.files })

abbrev pub key32 : ℕ → Text
key32 c =
    c ∷ c ∷ c ∷ c ∷ c ∷ c ∷ c ∷ c ∷ c ∷ c ∷ c ∷ c ∷ c ∷ c ∷ c ∷ c ∷ c ∷ c ∷ c ∷ c ∷ c ∷ c ∷ c ∷ c
    ∷ c ∷ c ∷ c ∷ c ∷ c ∷ c ∷ c ∷ c ∷ []

unfoldable pub device_read_message : Text → Text → NoiseRead Text ℕ
device_read_message handshake [] = record {
  handshake = handshake;
  send = none;
  receive = none;
  error = some invalid;
}
device_read_message handshake (c ∷ message) = record {
  handshake = key32 c;
  send = some c;
  receive = some c;
  error = none;
}

unfoldable pub device_decrypt : ℕ → Text → Returns Text × ℕ
device_decrypt c [] = (([], some invalid), c)
device_decrypt c (d ∷ message) = if c == d then ((message, none), c) else (([], some invalid), c)

take_message : List Text → DeviceWorld → Returns Text × DeviceWorld
take_message [] w = (([], some invalid), w)
take_message (m ∷ ms) w = ((m, none), record w { inbox = ms })

unfoldable pub device_ws_read : ℕ → Action DeviceWorld (Returns Text)
unfolding take_message
device_ws_read ws w = take_message w.inbox w

abbrev pub device : NoiseSystem
device = record {
  World = DeviceWorld;
  Handshake = Text;
  Cipher = ℕ;
  Websocket = ℕ;
  stat_is_dir = device_stat;
  read_file = device_read;
  mkdir_all = λ d w. (none, w);
  write_file = device_write;
  join_path = λ d name. d ++ (b'/' ∷ name);
  marshal = λ c. (encode c, none);
  unmarshal = decode;
  generate_keypair = λ w. ((record { private = 5 ∷ []; public = 6 ∷ [] }, none), w);
  new_handshake = λ key w. (([], none), w);
  read_message = device_read_message;
  write_message = λ h w. (((0 ∷ [], none), h), w);
  peer_static = λ h. h;
  channel_binding = λ h. h;
  encrypt = λ c m. (c ∷ m, c);
  decrypt = device_decrypt;
  verify_pairing = λ hash w. ((w.user_accepts, none), w);
  ws_read = device_ws_read;
  ws_write = λ ws m w. (none, w);
}

pub device-LawfulFiles : LawfulFiles device
unfolding device_stat device_read device_write
device-LawfulFiles = record {
  stat_reads = λ p w. refl;
  file_reads = λ p w. refl;
  stat_written = λ p t w h. rw (lookup-insert_self p t w.files);
  read_written = λ p t w h. rw (lookup-insert_self p t w.files);
  unmarshal_marshal = λ c t e. ap decode (sym (ap (λ (r : Returns Text). r.0) e)) ∙ decode-encode c;
}

abbrev pub new_device : List Text → Bool → State device
new_device inbox accepts = record {
  config = record {
    client_static_pubkey = [];
    channel_hash = [];
    send_cipher = none;
    receive_cipher = none;
    pairing_verification_required = false;
    initialized = false;
    data_dir = text ".base";
  };
  world = record { files = []; inbox = inbox; user_accepts = accepts };
  log = [];
}
