-- ===== src/Tests/Main.antt =====
-- Runs of the device, of its light, of its console and of the entries in flash.
use wifi_sniffer.Prelude.{
  ℕ, zero, suc, ◌<◌, ◌≡◌, refl, ◌↔◌, Bool, true, false, none, some, [], ◌∷◌, length, arith,
  replicate, if◌then◌else◌,
}
use wifi_sniffer.Prelude.Int.{pos, negsuc}
use wifi_sniffer.Prelude.Results.{Err, Outcome, done, aborted, fault, is_not_found}
use wifi_sniffer.Nvs.Api.{NvsType, Store, number, Got, got, failed}
use wifi_sniffer.Nvs.Memory.{memory_nvs, Memory}
use wifi_sniffer.Nvs.Entries.{EntryApi, nvs_list_values, EndsWith, nvs_list_values_ends}
use wifi_sniffer.Sniffer.State.{queue_full, capture_started, is_up, filter_changed}
use wifi_sniffer.Sniffer.Steps.{boot-IsSniffer}
use wifi_sniffer.Wifi.Driver.{Interface, left_ssid}
use wifi_sniffer.Wifi.Status.{mode_sta}
use wifi_sniffer.Wifi.Modes.StaticIp.{accepting}
use wifi_sniffer.Led.Gpio
use text.Mathlib.Text.{◌==◌}
use wifi_sniffer.Led.Gpio.{gpio_lib, Pin}
use wifi_sniffer.Led.Laws.{accepts, gpio_light}
use wifi_sniffer.Console.{}
use wifi_sniffer.Main.{Device, Board, setup, on_wifi_lib_event_handler}
use wifi_sniffer.Main.Run.{power_on, run_event, sniffer_event, started, happens}
use wifi_sniffer.Main.Safe.{Safe}
use wifi_sniffer.Main.Laws.{Runs-Safe}
use wifi_sniffer.Wifi.Settings.{wifi_nvs_get_mode}
use wifi_sniffer.Nvs.Array.{nvs_get_array, nvs_set_array}
use wifi_sniffer.Sniffer.Settings.{
  addr_filter_to_string, set_filter_mac, get_filter_mac, get_filter_rssi, set_filter_rssi,
}
use wifi_sniffer.Main.Events.{
  on_events, Lit, ticks_of_all, on_events_lem, on_wifi_lib_event_handler_left,
}
use wifi_sniffer.Sniffer.State.{Kernel}
use wifi_sniffer.Prelude.Bytes.{Bytes}
use wifi_sniffer.Capture.{record_of}
use wifi_sniffer.Sniffer.Filter.{pkt_mgmt}
use wifi_sniffer.Sniffer.Filter.Laws.{Any, Matches, ends}
use wifi_sniffer.Sniffer.Display.{sniffer_to_packet_data, in_20, mac_text, filter_packet}
use wifi_sniffer.Sniffer.Display.Laws.{sniffer_to_packet_data-record_of, filter_packet_decides}
use wifi_sniffer.Tests.{kernel, beacon_pkt, listening, own_filter-IsFilter, station_filter-IsFilter}
use wifi_sniffer.Tests.Flash.{defaults}
use wifi_sniffer.Tests.Wifi.{driver, lab}

-- A flash whose iterator goes through three entries.
abbrev three_entries : EntryApi memory_nvs
three_entries = record {
  Iterator = ℕ;
  entry_find = λ partition ns type f. got 3;
  entry_next = λ it. elim it as (λ _. Got ℕ) [ zero ↦ failed Err.nvs_not_found | suc n ↦ got n ];
}

abbrev factory : Memory
factory = record { exists = λ _. false; value_at = λ _ _. none }

fewer : (it it' : ℕ) → three_entries.entry_next it ≡ got it' → it' < it
fewer zero it' e = absurd (ground arith)
fewer (suc n) it' e = ground arith

nvs_list_values_ends_example :
    (e : Err) × (nvs_list_values three_entries 4 "nvs" "sniffer" NvsType.str factory
      ≡ some (if is_not_found e then 0 else 1))
    × EndsWith three_entries e 3
nvs_list_values_ends_example =
    nvs_list_values_ends three_entries (λ it. it) fewer 4 "nvs" "sniffer" NvsType.str factory 3 refl
      (omega arith)

abbrev dark : Pin
dark = record { led_pin = 2; calls = [] }

abbrev board : Board
board = record {
  driver = driver;
  air = record {
    mode = got mode_sta;
    ap_ssid = got lab.ssid;
    sta_ssid = got lab.ssid;
    joined = failed (Err.other 1);
    channel = got 6;
    wifi_stopped = λ _. false;
  };
  defaults = defaults;
  ipaddr_addr = length;
  console_answer = λ _. Err.esp_ok;
  button_answer = Err.esp_ok;
  liligo = true;
  led_pin = 2;
  ms_to_ticks = λ ms. ms;
  queue_size = 100;
  junk_ssid = lab;
  junk_cfg = record {
    mac = replicate 6 0;
    wifi_lib_mode = pos 0;
    ip = 0;
    ssid_name = replicate 32 0;
    channel = 0;
  };
}

-- A flash where the mode is that of no connection.
abbrev settings : Store memory_nvs
settings = record {
  flash = record {
    exists = λ _. true;
    value_at = λ ns key. if key == "mode" then some (number NvsType.i32 (pos 0)) else none;
  };
  open_handles = 0;
}

abbrev off : Device memory_nvs (gpio_lib accepts)
off = power_on (gpio_lib accepts) settings dark

on_events_lem_example :
    (l : Pin) × (on_events
        (gpio_lib accepts)
        board
        (is_up ∷ filter_changed ∷ capture_started ∷ queue_full ∷ [])
        off
      ≡ done tt (record off { light = l }))
    × Lit gpio_light
        (ticks_of_all board (is_up ∷ filter_changed ∷ capture_started ∷ queue_full ∷ []))
        dark
        l
unfolding gpio_light
on_events_lem_example =
    on_events_lem (gpio_lib accepts) board gpio_light
      (is_up ∷ filter_changed ∷ capture_started ∷ queue_full ∷ []) off (boot-IsSniffer settings)
      refl

abbrev on_air : Device memory_nvs (gpio_lib accepts)
on_air = record off {
  wifi = record (off.wifi) { net_if = some (record { interface = Interface.sta; number = 0 }) };
}

on_wifi_lib_event_handler_left_example :
    on_wifi_lib_event_handler
      (gpio_lib accepts)
      (record board { driver = accepting driver })
      left_ssid
      on_air
    ≡ fault
on_wifi_lib_event_handler_left_example =
    on_wifi_lib_event_handler_left (gpio_lib accepts) board driver left_ssid
      (record { interface = Interface.sta; number = 0 }) lab.ssid (Err.other 1) 6 on_air refl refl
      refl refl refl

abbrev kernels : ℕ → Kernel
kernels _ = kernel

abbrev set_up : Outcome (Device memory_nvs (gpio_lib accepts)) (Unit {0})
set_up = setup (gpio_lib accepts) board kernels off

abbrev device :
    Outcome (Device memory_nvs (gpio_lib accepts)) (Unit {0}) → Device memory_nvs (gpio_lib accepts)
device (done a t) = t
device (aborted e t) = t
device fault = off

set_up_lem : setup (gpio_lib accepts) board kernels off ≡ done tt (device set_up)
unfolding setup Gpio.led_init wifi_nvs_get_mode addr_filter_to_string set_filter_mac get_filter_mac
    nvs_get_array nvs_set_array get_filter_rssi set_filter_rssi
set_up_lem = refl

abbrev after_blink : Outcome (Device memory_nvs (gpio_lib accepts)) (Unit {0})
after_blink = run_event (gpio_lib accepts) board (sniffer_event is_up) (device set_up)

after_blink_lem :
    run_event (gpio_lib accepts) board (sniffer_event is_up) (device set_up)
    ≡ done tt (device after_blink)
unfolding run_event Gpio.led_set
after_blink_lem = refl

Runs-Safe_example : Safe (device after_blink)
Runs-Safe_example =
    Runs-Safe (gpio_lib accepts) board (λ _ _. refl) (device after_blink)
      (happens (sniffer_event is_up) (started settings dark kernels set_up_lem) tt after_blink_lem)

-- A beacon of another station, with fragment 1 and sequence 2.
abbrev told_frame : Bytes
told_frame =
    0x80 ∷ 0 ∷ 0 ∷ 0 ∷ 255 ∷ 255 ∷ 255 ∷ 255 ∷ 255 ∷ 255 ∷ 2 ∷ 4 ∷ 6 ∷ 8 ∷ 10 ∷ 12 ∷ 2 ∷ 4 ∷ 6 ∷ 8
    ∷ 10 ∷ 12 ∷ 33 ∷ 0 ∷ []

sniffer_to_packet_data-record_of_example :
    sniffer_to_packet_data (0 ∷ 0 ∷ []) (record_of 30 beacon_pkt.rx_ctrl told_frame)
    ≡ some (record {
      sq = record { frag = 1; seq = 2 };
      ta = in_20 (mac_text (2 ∷ 4 ∷ 6 ∷ 8 ∷ 10 ∷ 12 ∷ [])) (0 ∷ 0 ∷ []);
      addr3 = in_20 (mac_text (2 ∷ 4 ∷ 6 ∷ 8 ∷ 10 ∷ 12 ∷ [])) (0 ∷ 0 ∷ []);
      rssi = negsuc 39;
      fctl = pos 0x80;
      channel = 6;
    })
sniffer_to_packet_data-record_of_example =
    sniffer_to_packet_data-record_of 30 beacon_pkt.rx_ctrl (0 ∷ 0 ∷ []) [] 0x80 0 0 0 255 255 255
      255 255 255 2 4 6 8 10 12 2 4 6 8 10 12 1 2 (omega arith) (omega arith)

filter_packet_decides_example :
    (b : Bool) × (filter_packet kernel told_frame listening ≡ done b listening)
    × ((b ≡ true)
        ↔ (¬ (Any (Matches told_frame listening.addr_own_mac) (ends pkt_mgmt 0)))
          × Matches told_frame listening.addr3_filter 16
          × Matches told_frame listening.addr2_filter 10)
filter_packet_decides_example =
    filter_packet_decides kernel told_frame listening refl (omega arith) own_filter-IsFilter
      station_filter-IsFilter (record { octets = refl; fits = omega arith })
