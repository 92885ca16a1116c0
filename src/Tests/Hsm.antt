-- ===== src/Tests/Hsm.antt =====
-- An HSM that needs some queries to boot, and a clock and counters of its ports.
use bitbox_base.Base.{
  ℕ, ◌+◌, ◌-◌, ◌*◌, ◌≤◌, ◌<◌, Bool, true, false, none, some, ◌≡◌, refl, inl, arith, ltb,
  if◌then◌else◌,
}
use bitbox_base.Base.Text.{text}
use bitbox_base.Hsm.{
  Api, Hsm, wait_for_firmware, new_hsm, get_firmware, get_bootloader, open_serial, is_firmware,
  firmware_rounds, bootloader_rounds, interact_with_bootloader, pair_firmware,
}
use bitbox_base.Hsm.Boots.{BootsFirmware, wait_for_firmware-boots}
use bitbox_base.Hsm.Paired.{IsPaired, wait_for_firmware-IsPaired}
use bitbox_base.Hsm.Duration.{Clock, wait_for_firmware-round_time}
use bitbox_base.Hsm.Ports.{PortCount, interact_with_bootloader-Leaks}

-- The queries until the firmware is there, the ports that were opened and closed, and the time in
-- milliseconds.
record Device : Type 0 where
  needed : ℕ
  ports_opened : ℕ
  ports_closed : ℕ
  time : ℕ

-- Every call takes a millisecond, a query 200 and a pause 1000. The firmware reboots into the bootloader,
-- which then answers.
abbrev booting_api : Api
booting_api = record {
  World = Device;
  Error = Bool;
  Port = Unit {0};
  Framed = Unit {0};
  Firmware = Unit {0};
  Bootloader = Unit {0};
  Status = Unit {0};
  with_stack = λ e. e;
  new_error = λ t. false;
  is_eof = λ e. false;
  is_endpoint_unavailable = λ e. e;
  open_port = λ name baud timeout w.
      (inl tt, record w { ports_opened = w.ports_opened + 1; time = w.time + 1 });
  new_communication = λ p c. tt;
  new_firmware = λ c. tt;
  init = λ d w. (none, record w { time = w.time + 1 });
  status = λ d w. tt;
  same_status = λ a b. true;
  status_unpaired = tt;
  status_require_app_upgrade = tt;
  status_pairing_failed = tt;
  unexpected_status = λ s. false;
  channel_hash_verify = λ d ok w. record w { time = w.time + 1 };
  upgrade_firmware = λ d w. (none, record w { needed = 2; time = w.time + 1 });
  close_firmware = λ d w. record w { ports_closed = w.ports_closed + 1; time = w.time + 1 };
  new_bootloader = λ a b c f. tt;
  versions = λ b w. (
    if ltb 0 w.needed then none else some true,
    record w { needed = w.needed - 1; time = w.time + 200 },
  );
  reboot = λ b w. (none, record w { time = w.time + 1 });
  close_bootloader = λ b w. record w { ports_closed = w.ports_closed + 1; time = w.time + 1 };
  sleep = λ s w. record w { time = w.time + 1000 };
}

abbrev hsm_port : Hsm
unfolding text
hsm_port = new_hsm (text "/dev/ttyS0")

abbrev fresh : ℕ → Device
fresh n = record { needed = n; ports_opened = 0; ports_closed = 0; time = 0 }

ltb_booting : (n : ℕ) → 0 < n → ltb 0 n ≡ true
ltb_booting n less = ground arith

abbrev boots : BootsFirmware booting_api
boots = record {
  needed = λ w. w.needed;
  opens = λ name baud timeout w. (tt, refl, omega arith);
  booting = λ b w less. (inl (rw (ltb_booting w.needed less) refl), omega arith);
  booted = λ b w booted_w. (true, rw booted_w refl, refl, rw booted_w refl);
  reboots = λ b w. (refl, omega arith);
  closes = λ b w. omega arith;
  sleeps = λ s w. omega arith;
  initializes = λ d w there. (refl, refl);
}

abbrev clock : Clock booting_api
clock = record {
  now = λ w. w.time;
  open_time = 1;
  query_time = 200;
  reboot_time = 1;
  close_time = 1;
  init_time = 1;
  verify_time = 1;
  sleep_time = 1000;
  opens = λ name baud timeout w. omega arith;
  queries = λ b w. omega arith;
  reboots = λ b w. omega arith;
  closes = λ b w. omega arith;
  inits = λ d w. omega arith;
  verifies = λ d ok w. omega arith;
  sleeps = λ w. omega arith;
}

abbrev ports : PortCount booting_api
ports = record {
  ports_opened = λ w. w.ports_opened;
  ports_closed = λ w. w.ports_closed;
  opens = λ name baud timeout w. (refl, refl);
  closes_firmware = λ d w. (refl, refl);
  closes_bootloader = λ b w. (refl, refl);
  queries = λ b w. (refl, refl);
  inits = λ d w. (refl, refl);
  verifies = λ d ok w. (refl, refl);
  upgrades = λ d w. (refl, refl);
  sleeps = λ w. (refl, refl);
}

-- Two queries find the bootloader, which reboots twice, and the third the firmware.
two_reboots :
    wait_for_firmware booting_api hsm_port (fresh 2)
    ≡ (inl tt, record { needed = 0; ports_opened = 6; ports_closed = 2; time = 1612 })
unfolding firmware_rounds is_firmware get_bootloader get_firmware open_serial pair_firmware
two_reboots = refl

-- One port is left open by each query.
bootloader_found :
    interact_with_bootloader booting_api hsm_port (λ b w. w) (fresh 1)
    ≡ (none, record { needed = 0; ports_opened = 2; ports_closed = 1; time = 203 })
unfolding interact_with_bootloader bootloader_rounds is_firmware get_bootloader get_firmware
    open_serial pair_firmware
bootloader_found = refl

wait_for_firmware-boots_example :
    (d : Unit {0}) × ((wait_for_firmware booting_api hsm_port (fresh 2)).0 ≡ inl d)
wait_for_firmware-boots_example =
    wait_for_firmware-boots booting_api hsm_port boots (fresh 2) (omega arith)

wait_for_firmware-IsPaired_example :
    IsPaired booting_api tt (record { needed = 0; ports_opened = 6; ports_closed = 2; time = 1612 })
wait_for_firmware-IsPaired_example =
    wait_for_firmware-IsPaired booting_api hsm_port (fresh 2)
      (record { needed = 0; ports_opened = 6; ports_closed = 2; time = 1612 }) tt two_reboots

wait_for_firmware-round_time_example :
    (wait_for_firmware booting_api hsm_port (fresh 40)).1.time ≤ 0 + (30 * 1204 + 3)
wait_for_firmware-round_time_example =
    wait_for_firmware-round_time booting_api hsm_port clock (fresh 40)

bootloader_ok : (interact_with_bootloader booting_api hsm_port (λ b w. w) (fresh 1)).0 ≡ none
unfolding interact_with_bootloader bootloader_rounds is_firmware get_bootloader get_firmware
    open_serial pair_firmware
bootloader_ok = refl

interact_with_bootloader-Leaks_example :
    0 + (interact_with_bootloader booting_api hsm_port (λ b w. w) (fresh 1)).1.ports_closed + 1
    ≤ (interact_with_bootloader booting_api hsm_port (λ b w. w) (fresh 1)).1.ports_opened + 0
interact_with_bootloader-Leaks_example =
    interact_with_bootloader-Leaks booting_api hsm_port ports (λ b w. w) (λ b v. (refl, refl))
      (fresh 1) bootloader_ok
