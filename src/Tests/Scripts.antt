-- ===== src/Tests/Scripts.antt =====
-- Commands that the middleware runs: the flashdrive, and a hostname.
use bitbox_base.Base.{◌≡◌, refl, true, none, some, List, [], ◌∷◌, ◌++◌, ◌↔◌}
use bitbox_base.Base.Text.{Text, text, split, trim_suffix}
use bitbox_base.Rpcmessages.Codes.{code_text, error_flashdrive_check_none}
use bitbox_base.Rpcmessages.{not_in_progress, SetHostnameArgs}
use bitbox_base.Middleware.State.{State, run}
use bitbox_base.Middleware.Scripts.{
  output_lines, run_bbb_config_script, run_bbb_cmd_script, script_response,
}
use bitbox_base.Middleware.Flashdrive.{mount_flashdrive, mount_named, on_flashdrive}
use bitbox_base.Middleware.Flashdrive.Unmount.{on_flashdrive_mounted}
use bitbox_base.Middleware.Hostname.{panics, is_hostname, set_hostname, set_hsm_config}
use bitbox_base.Middleware.Hostname.Grammar.{IsHostname, is_hostname_iff}
use bitbox_base.Middleware.Hostname.Panic.{set_hostname-panics}
use bitbox_base.System.Keys.{key_text, base_hostname, query_text, base_system_info}
use bitbox_base.Tests.Demo.{demo, demo_state, demo_world, demo_output, demo_get, exit_error, idle}

-- The check of the flashdrive fails.
abbrev no_drive : State demo
no_drive = demo_state not_in_progress (
    demo_world
      ((text "flashdrive check", (code_text error_flashdrive_check_none, some exit_error)) ∷ []))

-- The check names a flashdrive.
abbrev one_drive : State demo
one_drive =
    demo_state not_in_progress
      (demo_world ((text "flashdrive check", (text "/dev/sda\n", none)) ∷ []))

abbrev cmd : List Text → List Text
cmd args = args

abbrev backup : List Text
backup = text "backup" ∷ text "sysconfig" ∷ []

on_flashdrive_mounted_example :
    (on_flashdrive demo backup [] one_drive).1.calls
    ≡ (mount_flashdrive demo one_drive).1.calls
      ++ (run (text "/opt/bbb-cmd.sh") backup
          ∷ run (text "/opt/bbb-cmd.sh") (text "flashdrive" ∷ text "unmount" ∷ [])
          ∷ [])
unfolding demo_output mount_flashdrive mount_named run_bbb_cmd_script script_response output_lines
    split trim_suffix text
on_flashdrive_mounted_example = (on_flashdrive_mounted demo backup [] one_drive refl).0

is_hostname_iff_example : (is_hostname (text "my-base2") ≡ true) ↔ IsHostname (text "my-base2")
is_hostname_iff_example = is_hostname_iff (text "my-base2")

abbrev hostname_args : SetHostnameArgs
hostname_args = record { hostname = text "my-base2"; token = text "t" }

-- Prometheus answers a text that is no address.
set_hostname-panics_example :
    let command = text "set" ∷ text "hostname" ∷ hostname_args.hostname ∷ [] in
    let (result, t) = run_bbb_config_script demo command idle in
    let (host, w) = demo.redis.get_string (key_text base_hostname) t.world in
    let (ip, _) =
      demo.prometheus.get_metric_string (query_text base_system_info) (text "base_ipaddress") w in
    ((set_hostname demo hostname_args idle).0 ≡ panics) ↔ (
      (is_hostname hostname_args.hostname ≡ true)
      × (result.1 ≡ none)
      × (idle.has_hsm_firmware ≡ true)
      × (host.1 ≡ none)
      × (ip.1 ≡ none)
      × (demo.parse_ip4 ip.0 ≡ none)
      × ((set_hostname demo hostname_args idle).1.calls
          ≡ idle.calls ++ (run idle.config.bbb_config_script command ∷ [])))
set_hostname-panics_example = set_hostname-panics demo hostname_args idle

set_hostname_panics : (set_hostname demo hostname_args idle).0 ≡ panics
unfolding demo_output demo_get is_hostname set_hostname set_hsm_config run_bbb_config_script text
set_hostname_panics = refl
