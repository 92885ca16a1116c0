-- ===== src/Noise/Known.antt =====
-- The file of known clients (middleware/src/noise/noise.go) over a file system that keeps what is
-- written.
use bitbox_base.Base.{
  true, false, none, List, [], ◌∷◌, ◌++◌, ◌≡◌, refl, arith, Bool-cases, Option-cases, inl, inr,
  if◌then◌else◌,
}
use bitbox_base.Base.Text.{Text, text_eq_self}
use bitbox_base.Noise.{NoiseSystem, ConfigFile}
use bitbox_base.Noise.Files.{
  exists, read_json, write, write_json, read_config, store_config, contains_key,
  contains_client_static_pubkey, add_client_static_pubkey, config_file, path,
}

contains_key-append :
    (ks : List Text) (k key : Text)
    → contains_key ks k ≡ true
    → contains_key (ks ++ (key ∷ [])) k ≡ true
unfolding contains_key
contains_key-append [] k key h = cc
contains_key-append (j ∷ ks) k key h = ground (arith, contains_key-append ks k key)

contains_key_last : (ks : List Text) (key : Text) → contains_key (ks ++ (key ∷ [])) key ≡ true
unfolding contains_key
contains_key_last [] key = rw (text_eq_self key) refl
contains_key_last (j ∷ ks) key = ground (arith, contains_key_last ks key)

module _ (sys : NoiseSystem) where
  -- Looking at a file changes nothing, a file that was written is a file with what was written, and
  -- JSON reads back what it wrote.
  pub record LawfulFiles : Type 0 where
    pub stat_reads : (p : Text) (w : sys.World) → (sys.stat_is_dir p w).1 ≡ w
    pub file_reads : (p : Text) (w : sys.World) → (sys.read_file p w).1 ≡ w
    pub stat_written :
        (p t : Text) (w : sys.World)
        → (sys.write_file p t w).0 ≡ none
        → (sys.stat_is_dir p (sys.write_file p t w).1).0 ≡ (false, none)
    pub read_written :
        (p t : Text) (w : sys.World)
        → (sys.write_file p t w).0 ≡ none
        → (sys.read_file p (sys.write_file p t w).1).0 ≡ (t, none)
    pub unmarshal_marshal :
        (c : ConfigFile) (t : Text) → sys.marshal c ≡ (t, none) → sys.unmarshal t ≡ (c, none)

  read_config-world : LawfulFiles → (d : Text) (w : sys.World) → (read_config sys d w).1 ≡ w
  unfolding read_config exists read_json
  read_config-world files d w = ground (
    arith,
    files.stat_reads (path sys (config_file d)) w,
    files.file_reads (path sys (config_file d)) w,
  )

  read_config_written :
      LawfulFiles
      → (d t : Text) (c : ConfigFile) (w : sys.World) → sys.unmarshal t ≡ (c, none)
      → (sys.write_file (path sys (config_file d)) t w).0 ≡ none
      → (read_config sys d (sys.write_file (path sys (config_file d)) t w).1).0 ≡ c
  unfolding read_config exists read_json
  read_config_written files d t c w parsed written =
      let p = path sys (config_file d) in
      ground (
        arith,
        files.stat_written p t w written,
        files.read_written p t w written,
        files.stat_reads p (sys.write_file p t w).1,
      )

  read_config-write :
      LawfulFiles
      → (d t : Text) (c : ConfigFile) (w : sys.World) → sys.unmarshal t ≡ (c, none)
      → (write sys (config_file d) t w).0 ≡ none
      → (read_config sys d (write sys (config_file d) t w).1).0 ≡ c
  unfolding write
  read_config-write files d t c w parsed written =
      let (made, w') = sys.mkdir_all d w in
      elim (Option-cases made) [
        | inl fine ↦ rw fine (read_config_written files d t c w' parsed (rw fine at written))
        | inr (err, bad) ↦ ground arith
      ]

  -- What is stored without an error is read.
  read_config-store_config :
      LawfulFiles
      → (d : Text) (c : ConfigFile) (w : sys.World) → (store_config sys d c w).0 ≡ none
      → (read_config sys d (store_config sys d c w).1).0 ≡ c
  unfolding store_config write_json
  read_config-store_config files d c w stored = elim (Option-cases (sys.marshal c).1) [
    | inl fine ↦ rw fine (
        read_config-write files d (sys.marshal c).0 c w
          (files.unmarshal_marshal c (sys.marshal c).0 (ground arith)) (rw fine at stored))
    | inr (err, bad) ↦ ground arith
  ]

  add_client_eq :
      LawfulFiles
      → (d key : Text) (w : sys.World)
      → let c = (read_config sys d w).0 in
        add_client_static_pubkey sys d key w ≡ (
          if contains_key c.client_pubkeys key
          then (none, w)
          else store_config sys d (record c { client_pubkeys = c.client_pubkeys ++ (key ∷ []) }) w)
  unfolding add_client_static_pubkey contains_client_static_pubkey
  add_client_eq files d key w = rw (read_config-world files d w, read_config-world files d w)

  -- Storing the key of an accepted client without an error makes it known to every later connection,
  -- keeps the clients that were known and the middleware's key pair, and does not add a key that is
  -- there.
  pub add_client_static_pubkey_known :
      LawfulFiles
      → (d key : Text) (w : sys.World) → (add_client_static_pubkey sys d key w).0 ≡ none
      → let c = (read_config sys d w).0 in
        let w' = (add_client_static_pubkey sys d key w).1 in
        let c' = (read_config sys d w').0 in
        ((contains_client_static_pubkey sys d key w').0 ≡ true)
        × (c'.middleware_keypair ≡ c.middleware_keypair)
        × (c'.client_pubkeys ≡ (
            if contains_key c.client_pubkeys key
            then c.client_pubkeys
            else c.client_pubkeys ++ (key ∷ [])))
  unfolding contains_client_static_pubkey
  add_client_static_pubkey_known files d key w added =
      let conf = (read_config sys d w).0 in
      elim (Bool-cases (contains_key conf.client_pubkeys key)) [
        | inl known ↦ rw (add_client_eq files d key w, known) (known, refl, refl)
        | inr new ↦
            let conf' : ConfigFile = record conf {
              client_pubkeys = conf.client_pubkeys ++ (key ∷ []);
            } in
            let stored = rw (add_client_eq files d key w, new) at added in
            rw (add_client_eq files d key w, new, read_config-store_config files d conf' w stored)
              (contains_key_last conf.client_pubkeys key, refl, refl)
      ]
