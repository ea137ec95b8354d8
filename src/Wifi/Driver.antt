-- ===== src/Wifi/Driver.antt =====
-- Esp32Sniffer/components/wifi_lib/wifi_lib.c: its state, and what it asks of ESP-IDF. The answers of the
-- Wi-Fi driver, of esp_netif and of the event loop are a parameter.
use wifi_sniffer.Prelude.{ℕ, ◌+◌, ◌/◌, ◌%◌, Bool, Option, List, [], ◌∷◌, ◌++◌, ltb, if◌then◌else◌}
use wifi_sniffer.Prelude.Bytes.{Bytes}
use wifi_sniffer.Prelude.Results.{
  Err, Outcome, done, aborted, fault, Exec, pure, error_check, modify, gets, ◌>>=◌, ◌>>◌,
}
use wifi_sniffer.Nvs.Api.{NvsApi, Store}
use wifi_sniffer.Wifi.Settings.{IpInfo}

-- `wifi_lib_event_types_t`
pub data LibEvent : Type 0 where
  got_ip joined_ssid left_ssid has_ssid : LibEvent

-- The `WIFI_EVENT_` and `IP_EVENT_` numbers that the handlers name, and the rest.
pub data WifiEvent : Type 0 where
  sta_start sta_stop ap_start ap_stop ap_staconnected ap_stadisconnected : WifiEvent
  sta_connected sta_disconnected sta_beacon_timeout : WifiEvent
  other_wifi : ℕ → WifiEvent

pub data IpEvent : Type 0 where
  sta_got_ip ap_staipassigned sta_lost_ip : IpEvent
  other_ip : ℕ → IpEvent

-- WIFI_IF_AP with WIFI_MODE_AP, and WIFI_IF_STA with WIFI_MODE_STA.
pub data Interface : Type 0 where
  ap sta : Interface

-- The members of `wifi_config_t` that the source sets from its arguments.
pub data WifiConf : Type 0 where
  ap_conf :
      (ssid : Bytes)
      → (ssid_len : ℕ) → (password : Bytes) → (channel : ℕ) → (is_open : Bool) → WifiConf
  sta_conf : (ssid : Bytes) → (password : Bytes) → WifiConf

pub data DnsType : Type 0 where
  dns_main dns_backup : DnsType

-- A call of ESP-IDF, with its arguments. An `esp_netif_t` is numbered in the order of creation.
pub data Call : Type 0 where
  loop_create netif_init loop_create_default group_create register_wifi register_ip : Call
  init set_ps set_storage start stop connect set_country get_mac get_max_tx_power : Call
  register_handler : Call
  post_to : LibEvent → Call
  set_mode : Interface → Call
  set_config : Interface → WifiConf → Call
  set_default_config : Interface → Call
  create_default_wifi : Interface → ℕ → Call
  destroy_default_wifi : ℕ → Call
  dhcpc_stop dhcps_stop dhcps_start get_ip_info netif_get_mac : ℕ → Call
  set_ip_info : ℕ → IpInfo → Call
  set_dns_info : ℕ → DnsType → ℕ → Call

-- What ESP-IDF answers, given the calls before, latest first: the error of a call, the octets of the
-- access point's address, an interface's address, and the events that arrive during a wait.
-- `already_stopped` tells ESP_ERR_ESP_NETIF_DHCP_ALREADY_STOPPED from the other codes.
pub record Driver : Type 0 where
  pub answer : List Call → Call → Err
  pub mac : List Call → Bytes
  pub netif_mac : List Call → ℕ → Bytes
  pub ip_info : List Call → ℕ → IpInfo
  pub arrive : List Call → List WifiEvent
  pub already_stopped : Err → Bool

-- The bits of `s_wifi_event_group`.
pub record Bits : Type 0 where
  pub ap_start : Bool
  pub sta_connected : Bool
  pub sta_disconnected : Bool
  pub sta_start : Bool
  pub ap_stop : Bool
  pub sta_stop : Bool

-- An `esp_netif_t *`
pub record Netif : Type 0 where
  pub interface : Interface
  pub number : ℕ

-- The static variables of wifi_lib.c, with the flash; `posted` are the events that the loop took, oldest
-- first, and `calls` those of ESP-IDF, latest first.
pub record WifiLib (N : NvsApi) : Type 0 where
  pub store : Store N
  pub event_loop_handle : Bool
  pub handler_registered : Bool
  pub posted : List LibEvent
  pub bits : Bits
  pub net_if : Option Netif
  pub retry_num : ℕ
  pub next_netif : ℕ
  pub calls : List Call

module _ {N : NvsApi} where
  abbrev pub on_flash : {A : Type 0} → Exec (Store N) A → Exec (WifiLib N) A
  on_flash {A} m s = elim (m s.store) as (λ _. Outcome (WifiLib N) A) [
    | done a t ↦ done a (record s { store = t })
    | aborted e t ↦ aborted e (record s { store = t })
    | fault ↦ fault
  ]

  abbrev pub called : Call → WifiLib N → WifiLib N
  called c s = record s { calls = c ∷ s.calls }

  abbrev pub call : Call → Exec (WifiLib N) (Unit {0})
  call c = modify (called c)

  -- A call whose error is the caller's to look at.
  abbrev pub ask : Driver → Call → Exec (WifiLib N) Err
  ask d c = gets (λ s. d.answer s.calls c) >>= λ e. call c >> pure e

  -- ESP_ERROR_CHECK(call)
  abbrev pub must : Driver → Call → Exec (WifiLib N) (Unit {0})
  must d c = ask d c >>= error_check

-- `snprintf` of an octet by "%d", and of an address by IPSTR and IP2STR, which is shorter than ADDRESS_SZ.
abbrev decimal : ℕ → Bytes
decimal n =
    if ltb n 10
    then (b'0' + n) ∷ []
    else if ltb n 100
    then (b'0' + n / 10) ∷ (b'0' + n % 10) ∷ []
    else (b'0' + n / 100) ∷ (b'0' + n / 10 % 10) ∷ (b'0' + n % 10) ∷ []

unfoldable pub ip_text : ℕ → Bytes
ip_text a =
    decimal (a % 256)
    ++ (b'.' ∷ [])
    ++ decimal (a / 256 % 256)
    ++ (b'.' ∷ [])
    ++ decimal (a / 65536 % 256)
    ++ (b'.' ∷ [])
    ++ decimal (a / 16777216 % 256)
