-- ===== src/Noise/Files.antt =====
-- The configuration file base.json with the middleware's key pair and the clients that were paired:
-- `File`, `readConfig`, `storeConfig` and the functions over them in middleware/src/noise/noise.go.
use bitbox_base.Base.{
  Bool, false, not, ◌||◌, Option, none, some, List, [], ◌∷◌, ◌++◌, Action, if◌then◌else◌,
}
use bitbox_base.Base.Text.{Text, text, text_eq}
use bitbox_base.System.{GoError, Returns}
use bitbox_base.Noise.{DhKey, ConfigFile, NoiseSystem}

abbrev pub config_filename : Text
config_filename = text "base.json"

-- `File`
pub record File : Type 0 where
  pub dir : Text
  pub name : Text

abbrev pub config_file : Text → File
config_file data_dir = record { dir = data_dir; name = config_filename }

abbrev pub empty_config : ConfigFile
empty_config = record { middleware_keypair = none; client_pubkeys = [] }

-- `bytes.Equal` with one key of the list.
unfoldable pub contains_key : List Text → Text → Bool
unfolding text_eq
contains_key [] key = false
contains_key (k ∷ ks) key = text_eq k key || contains_key ks key

-- The JSON value of a file that could be read.
abbrev parsed_config : Returns ConfigFile → ConfigFile
parsed_config (conf, none) = conf
parsed_config (conf, some err) = empty_config

module _ (sys : NoiseSystem) where
  abbrev pub path : File → Text
  path f = sys.join_path f.dir f.name

  abbrev is_file : Returns Bool → Bool
  is_file (is_dir, none) = not is_dir
  is_file (is_dir, some err) = false

  unfoldable pub exists : File → Action sys.World Bool
  exists f w = let (info, w') = sys.stat_is_dir (path f) w in (is_file info, w')

  abbrev unmarshal_read : Returns Text → Returns ConfigFile
  unmarshal_read (contents, none) = sys.unmarshal contents
  unmarshal_read (contents, some err) = (empty_config, some err)

  unfoldable pub read_json : File → Action sys.World (Returns ConfigFile)
  read_json f w = let (contents, w') = sys.read_file (path f) w in (unmarshal_read contents, w')

  abbrev write_after : File → Text → Option GoError → Action sys.World (Option GoError)
  write_after f contents (some err) w = (some err, w)
  write_after f contents none w = sys.write_file (path f) contents w

  unfoldable pub write : File → Text → Action sys.World (Option GoError)
  write f contents w = let (made, w') = sys.mkdir_all f.dir w in write_after f contents made w'

  abbrev write_marshalled : File → Returns Text → Action sys.World (Option GoError)
  write_marshalled f (contents, some err) w = (some err, w)
  write_marshalled f (contents, none) w = write f contents w

  unfoldable pub write_json : File → ConfigFile → Action sys.World (Option GoError)
  unfolding write
  write_json f conf = write_marshalled f (sys.marshal conf)

  unfoldable pub read_config : Text → Action sys.World ConfigFile
  unfolding exists read_json
  read_config data_dir w =
      let (found, w') = exists (config_file data_dir) w in
      let (conf, v) = read_json (config_file data_dir) w' in
      if found then (parsed_config conf, v) else (empty_config, w')

  unfoldable pub store_config : Text → ConfigFile → Action sys.World (Option GoError)
  unfolding write_json
  store_config data_dir conf = write_json (config_file data_dir) conf

  unfoldable pub contains_client_static_pubkey : Text → Text → Action sys.World Bool
  unfolding read_config contains_key
  contains_client_static_pubkey data_dir key w =
      let (conf, w') = read_config data_dir w in (contains_key conf.client_pubkeys key, w')

  unfoldable pub add_client_static_pubkey : Text → Text → Action sys.World (Option GoError)
  unfolding contains_client_static_pubkey read_config store_config
  add_client_static_pubkey data_dir key w =
      let (known, w') = contains_client_static_pubkey data_dir key w in
      let (conf, v) = read_config data_dir w' in
      let added =
        store_config data_dir (record conf { client_pubkeys = conf.client_pubkeys ++ (key ∷ []) })
          v in
      if known then (none, w') else added

  unfoldable pub get_middleware_noise_static_keypair : Text → Action sys.World (Option DhKey)
  unfolding read_config
  get_middleware_noise_static_keypair data_dir w =
      let (conf, w') = read_config data_dir w in (conf.middleware_keypair, w')

  unfoldable pub set_middleware_noise_static_keypair :
      Text → DhKey → Action sys.World (Option GoError)
  unfolding read_config store_config
  set_middleware_noise_static_keypair data_dir key w =
      let (conf, w') = read_config data_dir w in
      store_config data_dir (record conf { middleware_keypair = some key }) w'
