-- ===== src/Tests/Wifi.antt =====
-- Runs of the Wi-Fi connection, over a driver that accepts every call.
use wifi_sniffer.Prelude.{
  ◌≡◌, refl, inl, Bool, true, false, none, some, [], ◌∷◌, ◌++◌, arith, length, replicate,
}
use wifi_sniffer.Prelude.Int.{pos}
use wifi_sniffer.Prelude.Bytes.{Bytes}
use wifi_sniffer.Prelude.Results.{undefined, ◌>>◌, Err, Outcome, done, aborted, fault}
use wifi_sniffer.Prelude.Triples.{Ends}
use wifi_sniffer.Nvs.Api.{Store}
use wifi_sniffer.Nvs.Memory.{memory_nvs, empty_store}
use wifi_sniffer.Nvs.Text.{nvs_get_string, nvs_set_string}
use wifi_sniffer.Nvs.Num.{nvs_set_num32i}
use wifi_sniffer.Wifi.Settings.{
  IpInfo, DnsServers, SsidCfg, is_valid_ip_info, wifi_nvs_get_mode, wifi_nvs_set_mode,
  wifi_nvs_get_ap_ssid_pw, wifi_nvs_set_ap_channel, wifi_nvs_set_ap_ssid, wifi_nvs_set_ap_ssid_pw,
}
use wifi_sniffer.Wifi.Address.{wifi_nvs_set_static_ip_info}
use wifi_sniffer.Wifi.Modes.StaticIp.{accepting, wifi_conf_set_static_ip_lem}
use wifi_sniffer.Wifi.Driver.{
  got_ip, ip_text, Interface, Driver, Netif, WifiLib, called, Call, ap_start, sta_start,
  sta_connected, sta_got_ip,
}
use wifi_sniffer.Wifi.Events.{ap_start_bit, wifi_events}
use wifi_sniffer.Wifi.Events.Posts.{announced, Follows, wifi_events_lem}
use wifi_sniffer.Wifi.Connection.{wifi_soft_ap, wait_bit, mac_suffix}
use wifi_sniffer.Wifi.Connection.Laws.{
  configured, ap_named, wifi_soft_ap_lem, wifi_soft_ap_overflow,
}
use wifi_sniffer.Wifi.Connection.Single.{At, Single}
use wifi_sniffer.Wifi.Connection.Waits.{wait_bit_again}
use wifi_sniffer.Wifi.Modes.{wifi_ap, wifi_conf_set_static_ip, steps, to_ap, to_sta, on_wifi, on_ip}
use wifi_sniffer.Wifi.Modes.Laws.{steps-Single}
use wifi_sniffer.Wifi.Modes.Returns.{saved_settings, wifi_ap_returns}
use wifi_sniffer.Wifi.Console.{text_or, console_wifi_exec_set_ap}
use wifi_sniffer.Wifi.Console.Laws.{console_wifi_exec_set_ap_long}
use wifi_sniffer.Tests.Flash.{defaults, with_namespace, after_store}

abbrev mac : Bytes
mac = 2 ∷ 4 ∷ 6 ∷ 0x8a ∷ 10 ∷ 0xff ∷ []

abbrev pub driver : Driver
driver = record {
  answer = λ _ _. Err.esp_ok;
  mac = λ _. mac;
  netif_mac = λ _ _. mac;
  ip_info = λ _ _. record { ip = 0; netmask = 0; gw = 0 };
  arrive = λ _. ap_start ∷ sta_start ∷ [];
  already_stopped = λ _. false;
}

-- After `wifi_init`.
abbrev fresh : WifiLib memory_nvs
fresh = record {
  store = empty_store;
  event_loop_handle = true;
  handler_registered = true;
  posted = [];
  bits = record {
    ap_start = false;
    sta_connected = false;
    sta_disconnected = false;
    sta_start = false;
    ap_stop = false;
    sta_stop = false;
  };
  net_if = none;
  retry_num = 0;
  next_netif = 0;
  calls = [];
}

abbrev pub lab : SsidCfg
lab = record {
  ssid = b'l' ∷ b'a' ∷ b'b' ∷ replicate 29 0;
  ssid_sz = 3;
  password = replicate 8 b'p' ++ replicate 56 0;
  pass_sz = 8;
}

abbrev crowded : SsidCfg
crowded = record lab { ssid = replicate 31 b'x' ++ (0 ∷ []); ssid_sz = 31 }

abbrev no_address : IpInfo
no_address = record { ip = 4294967295; netmask = 0; gw = 0 }

abbrev no_dns : DnsServers
no_dns = record { primary_dns = 4294967295; secondery_dns = 4294967295 }

abbrev is_done : {S A : Type 0} → Outcome S A → Bool
is_done (done a t) = true
is_done (aborted e t) = false
is_done fault = false

steps-Single_example :
    Ends
      (λ _. At Single)
      (steps driver defaults length
        (to_ap lab 6 no_address no_dns ∷ to_sta lab ∷ on_wifi sta_connected ∷ on_ip sta_got_ip ∷ [])
        fresh)
steps-Single_example =
    steps-Single driver defaults length
      (to_ap lab 6 no_address no_dns ∷ to_sta lab ∷ on_wifi sta_connected ∷ on_ip sta_got_ip ∷ [])
      fresh (inl (refl, refl))

wifi_soft_ap_lem_example :
    wifi_soft_ap driver lab 6 fresh
    ≡ done
        (record { interface = Interface.ap; number = 0 })
        (record fresh {
          next_netif = 1;
          calls =
              Call.create_default_wifi Interface.ap 0
              ∷ configured Interface.ap
                  (ap_named lab 6
                    ((b'l' ∷ b'a' ∷ b'b' ∷ []) ++ mac_suffix 0x8a 10 0xff)
                    (replicate 8 b'p' ++ replicate 56 0))
                  (Call.get_mac ∷ []);
        })
wifi_soft_ap_lem_example =
    wifi_soft_ap_lem driver (λ _ _. refl) lab 6 (b'l' ∷ b'a' ∷ b'b' ∷ [])
      (replicate 8 b'p' ++ replicate 56 0) 2 4 6 0x8a 10 0xff fresh refl refl refl (omega arith)

wifi_soft_ap_overflow_example : wifi_soft_ap driver crowded 6 fresh ≡ fault
wifi_soft_ap_overflow_example =
    wifi_soft_ap_overflow driver crowded 6 (replicate 31 b'x') 2 4 6 0x8a 10 0xff fresh refl refl
      refl (omega arith)

wifi_events_lem_example :
    (t : WifiLib memory_nvs) × (wifi_events driver (sta_start ∷ sta_connected ∷ ap_start ∷ []) fresh
      ≡ done tt t)
    × Follows fresh (announced (sta_start ∷ sta_connected ∷ ap_start ∷ [])) true t
wifi_events_lem_example =
    wifi_events_lem driver (λ _ _. refl) (sta_start ∷ sta_connected ∷ ap_start ∷ []) fresh refl

abbrev waited : Outcome (WifiLib memory_nvs) Bool → WifiLib memory_nvs
waited (done a t) = t
waited (aborted e t) = t
waited fault = fresh

abbrev started : WifiLib memory_nvs
started = waited (wait_bit driver ap_start_bit fresh)

started_lem : wait_bit driver ap_start_bit fresh ≡ done true started
unfolding wait_bit
started_lem = refl

wait_bit_again_example :
    wait_bit driver ap_start_bit (called Call.stop started) ≡ done true (called Call.stop started)
wait_bit_again_example =
    wait_bit_again driver ap_start_bit fresh started (called Call.stop started) started_lem refl

console_wifi_exec_set_ap_long_example :
    console_wifi_exec_set_ap driver defaults length lab
      (some (replicate 32 b'x' ++ (0 ∷ [])))
      none
      none
      fresh
    ≡ (text_or driver defaults length none 64 (wifi_nvs_get_ap_ssid_pw memory_nvs defaults)
          >> undefined)
        fresh
console_wifi_exec_set_ap_long_example =
    console_wifi_exec_set_ap_long driver defaults length lab (replicate 32 b'x' ++ (0 ∷ []))
      (replicate 32 b'x') none none fresh refl refl (omega arith)

-- With the namespace in flash, an access point comes up to its end.
abbrev with_flash : WifiLib memory_nvs
with_flash = record fresh { store = with_namespace }

access_point_up : is_done (wifi_ap driver defaults length lab 6 no_address no_dns with_flash) ≡ true
unfolding wifi_ap wifi_nvs_set_mode nvs_set_string wifi_nvs_set_ap_channel nvs_set_num32i
    wifi_nvs_set_ap_ssid nvs_get_string wifi_nvs_set_ap_ssid_pw is_valid_ip_info
access_point_up = refl

abbrev access_point : Netif
access_point = record { interface = Interface.ap; number = 0 }

abbrev address : IpInfo
address = record { ip = 0x0102a8c0; netmask = 0x00ffffff; gw = 0x0102a8c0 }

abbrev mode_read : Store memory_nvs
mode_read = after_store (wifi_nvs_get_mode memory_nvs defaults with_namespace)

abbrev address_saved : Store memory_nvs
address_saved = after_store (
    wifi_nvs_set_static_ip_info memory_nvs defaults length (ip_text address.ip)
      (ip_text address.netmask) (ip_text address.gw) mode_read)

address_is_valid : is_valid_ip_info address ≡ true
unfolding is_valid_ip_info
address_is_valid = refl

mode_read_lem : wifi_nvs_get_mode memory_nvs defaults with_namespace ≡ done (pos 2) mode_read
unfolding wifi_nvs_get_mode nvs_set_string
mode_read_lem = refl

address_saved_lem :
    wifi_nvs_set_static_ip_info memory_nvs defaults length
      (ip_text address.ip)
      (ip_text address.netmask)
      (ip_text address.gw)
      mode_read
    ≡ done tt address_saved
unfolding wifi_nvs_set_static_ip_info ip_text nvs_get_string wifi_nvs_get_mode nvs_set_string
address_saved_lem = refl

wifi_conf_set_static_ip_lem_example :
    wifi_conf_set_static_ip
      (accepting driver)
      defaults
      length
      address
      (record with_flash { net_if = some access_point })
    ≡ done tt (record with_flash {
      net_if = some access_point;
      store = address_saved;
      posted = got_ip ∷ [];
      calls =
          Call.post_to got_ip
          ∷ Call.dhcps_start 0
          ∷ Call.set_ip_info 0 address
          ∷ Call.dhcps_stop 0
          ∷ Call.dhcpc_stop 0
          ∷ [];
    })
wifi_conf_set_static_ip_lem_example =
    wifi_conf_set_static_ip_lem driver defaults length access_point address
      (record with_flash { net_if = some access_point }) mode_read address_saved refl refl
      address_is_valid mode_read_lem address_saved_lem

-- The settings that the access point saves.
abbrev settings_saved : Store memory_nvs
settings_saved = after_store (saved_settings driver defaults length lab 6 with_namespace)

settings_saved_lem :
    saved_settings driver defaults length lab 6 with_namespace ≡ done tt settings_saved
unfolding wifi_nvs_set_mode nvs_set_string wifi_nvs_set_ap_channel nvs_set_num32i
    wifi_nvs_set_ap_ssid nvs_get_string wifi_nvs_set_ap_ssid_pw
settings_saved_lem = refl

no_address_invalid : is_valid_ip_info no_address ≡ false
unfolding is_valid_ip_info
no_address_invalid = refl

wifi_ap_returns_example :
    (t : WifiLib memory_nvs) × (wifi_ap
        (accepting driver)
        defaults
        length
        lab
        6
        no_address
        no_dns
        with_flash
      ≡ done tt t)
    × (t.net_if ≡ some access_point)
    × (t.bits.ap_start ≡ true)
wifi_ap_returns_example =
    wifi_ap_returns driver defaults length lab 6 no_address no_dns (b'l' ∷ b'a' ∷ b'b' ∷ [])
      (replicate 8 b'p' ++ replicate 56 0) 2 4 6 0x8a 10 0xff with_flash settings_saved refl
      (λ _. refl) (λ _. refl) refl (omega arith) refl no_address_invalid settings_saved_lem
