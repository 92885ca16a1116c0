-- ===== src/Tests/Pairing.antt =====
-- Pairing with a client.
mod Device
use bitbox_base.Base.{
  ◌≡◌, refl, ◌≢◌, Bool, true, false, none, some, [], ◌∷◌, ◌++◌, List, arith, Any, inl, inr,
  if◌then◌else◌,
}
use bitbox_base.Base.Text.{Text, text, text_eq}
use bitbox_base.Base.Dict.{lookup, insert}
use bitbox_base.Noise.{State, ok, panic, looked_up, asked}
use bitbox_base.Noise.Files.{
  add_client_static_pubkey, contains_client_static_pubkey, read_config, contains_key,
  get_middleware_noise_static_keypair, set_middleware_noise_static_keypair,
}
use bitbox_base.Noise.Known.{add_client_static_pubkey_known}
use bitbox_base.Noise.Handshake.{initialize_noise, answer_third, conclude}
use bitbox_base.Noise.Session.{encrypt, decrypt, read_loop}
use bitbox_base.Noise.Gate.{Introduced, initialize_noise_sound, read_loop-unverified}
use bitbox_base.Noise.Race.{Mistaken, overtaken, conclude_overtaken, encrypt-answer_third_nil}
use bitbox_base.Noise.Interleaved.{
  Opens, Reach, starts, steps, answers_third, asks, concludes, decrypt-Opens,
}
use Device.{
  device, new_device, device_stat, device_read, device_write, device_read_message, device_decrypt,
  device_ws_read, key32, device-LawfulFiles, encode, decode, DeviceWorld,
}

-- A greeting, two handshake messages that begin with the byte 7, and the request to be verified.
abbrev first_client : Bool → State device
first_client accepts = new_device (text "h" ∷ (7 ∷ []) ∷ (7 ∷ []) ∷ text "v" ∷ []) accepts

initialize_noise_sound_example :
    Introduced device (first_client true) (initialize_noise device 1 (first_client true)).1
unfolding initialize_noise device_stat device_read device_write device_read_message device_ws_read
    text encode decode get_middleware_noise_static_keypair set_middleware_noise_static_keypair
    contains_client_static_pubkey
initialize_noise_sound_example = initialize_noise_sound device 1 (first_client true) refl

read_loop-unverified_example :
    (read_loop device ((7 ∷ 1 ∷ []) ∷ []) (initialize_noise device 1 (first_client false)).1).0 ≡ []
unfolding initialize_noise device_stat device_read device_write device_read_message device_ws_read
    text encode decode get_middleware_noise_static_keypair set_middleware_noise_static_keypair
    contains_client_static_pubkey
read_loop-unverified_example =
    read_loop-unverified device 1 (first_client false) ((7 ∷ 1 ∷ []) ∷ []) refl
      (asked (key32 7) (false, none) ∷ []) refl (λ rest e. cc)

add_client_static_pubkey_known_example :
    let w : DeviceWorld = record { files = []; inbox = []; user_accepts = true } in
    let c = (read_config device (text "d") w).0 in
    let w' = (add_client_static_pubkey device (text "d") (key32 7) w).1 in
    let c' = (read_config device (text "d") w').0 in
    ((contains_client_static_pubkey device (text "d") (key32 7) w').0 ≡ true)
    × (c'.middleware_keypair ≡ c.middleware_keypair)
    × (c'.client_pubkeys ≡ (
        if contains_key c.client_pubkeys (key32 7)
        then c.client_pubkeys
        else c.client_pubkeys ++ (key32 7 ∷ [])))
unfolding add_client_static_pubkey device_stat device_read device_write
add_client_static_pubkey_known_example =
    add_client_static_pubkey_known device device-LawfulFiles (text "d") (key32 7)
      (record { files = []; inbox = []; user_accepts = true }) refl

-- The user is asked about client 7 while client 9 finishes its handshake.
abbrev asking : State device
asking = (initialize_noise device 1 (first_client false)).1

abbrev asking_accepted : State device
asking_accepted = record asking { world = record (asking.world) { user_accepts = true } }

conclude_overtaken_example :
    Mistaken device asking_accepted
      (overtaken device 2 [] (9 ∷ []) asking_accepted)
      (device.read_message [] (9 ∷ []))
unfolding initialize_noise answer_third device_stat device_read device_write device_read_message
    device_ws_read text encode decode get_middleware_noise_static_keypair
    set_middleware_noise_static_keypair contains_client_static_pubkey
conclude_overtaken_example = conclude_overtaken device 2 [] (9 ∷ []) asking_accepted refl refl

encrypt-answer_third_nil_example :
    let (refused, t) = answer_third device 2 [] [] asking_accepted in
    (refused ≢ ok tt) × ((encrypt device (text "event") t).0 ≡ panic)
unfolding initialize_noise device_stat device_read device_write device_read_message device_ws_read
    text encode decode get_middleware_noise_static_keypair set_middleware_noise_static_keypair
    contains_client_static_pubkey
encrypt-answer_third_nil_example =
    encrypt-answer_third_nil device 2 [] [] (text "event") asking_accepted _ refl refl refl

-- Client 7 finishes its handshake, and the user accepts it.
abbrev shaken : State device
shaken = (answer_third device 1 [] (7 ∷ []) (new_device [] true)).1

abbrev asked_about : State device
asked_about = record shaken {
  log = shaken.log ++ (asked shaken.config.channel_hash (true, none) ∷ []);
}

abbrev accepted : State device
accepted = (conclude device (true, none) asked_about).1

accepted-Reach : Reach device accepted
unfolding answer_third conclude device_stat device_read device_write device_read_message text encode
    decode contains_client_static_pubkey
accepted-Reach =
    steps
      (steps (steps (starts (new_device [] true) refl) (answers_third 1 [] (7 ∷ [])))
        (asks (true, none)))
      (concludes (true, none) (inr (inl refl)))

decrypt-Opens_example : Any Opens accepted.log
unfolding answer_third conclude decrypt device_stat device_read device_write device_read_message
    device_decrypt text encode decode contains_client_static_pubkey
decrypt-Opens_example = decrypt-Opens device (7 ∷ 1 ∷ []) (1 ∷ []) accepted-Reach refl
