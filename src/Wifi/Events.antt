-- ===== src/Wifi/Events.antt =====
-- Esp32Sniffer/components/wifi_lib/wifi_lib.c: the event loop of the library, and what it does on the
-- events of the Wi-Fi driver and of the interfaces.
pub mod Laws
pub mod Posts
use wifi_sniffer.Prelude.{ℕ, Bool, true, false, List, [], ◌∷◌, ◌++◌, if◌then◌else◌}
use wifi_sniffer.Prelude.Results.{Err, Exec, pure, error_check, modify, gets, ◌>>=◌, ◌>>◌}
use wifi_sniffer.Nvs.Api.{NvsApi}
use wifi_sniffer.Wifi.Driver.{
  LibEvent, got_ip, joined_ssid, left_ssid, has_ssid, WifiEvent, sta_start, sta_stop, ap_start,
  ap_stop, ap_staconnected, ap_stadisconnected, sta_connected, sta_disconnected, sta_beacon_timeout,
  other_wifi, IpEvent, sta_got_ip, ap_staipassigned, sta_lost_ip, other_ip, Call, Driver, Bits,
  WifiLib, ask, must,
}

-- `WIFI_EVENT_AP_START_BIT` and the others
pub data EventBit : Type 0 where
  ap_start_bit sta_connected_bit sta_disconnected_bit : EventBit
  sta_start_bit ap_stop_bit sta_stop_bit : EventBit

abbrev pub has_bit : EventBit → Bits → Bool
has_bit ap_start_bit b = b.ap_start
has_bit sta_connected_bit b = b.sta_connected
has_bit sta_disconnected_bit b = b.sta_disconnected
has_bit sta_start_bit b = b.sta_start
has_bit ap_stop_bit b = b.ap_stop
has_bit sta_stop_bit b = b.sta_stop

abbrev pub set_bit : EventBit → Bits → Bits
set_bit ap_start_bit b = record b { ap_start = true }
set_bit sta_connected_bit b = record b { sta_connected = true }
set_bit sta_disconnected_bit b = record b { sta_disconnected = true }
set_bit sta_start_bit b = record b { sta_start = true }
set_bit ap_stop_bit b = record b { ap_stop = true }
set_bit sta_stop_bit b = record b { sta_stop = true }

module _ {N : NvsApi} (d : Driver) where
  -- After a timeout the event is lost and a message is logged.
  unfoldable posted_with : LibEvent → Err → Exec (WifiLib N) (Unit {0})
  posted_with e Err.esp_ok = modify (λ s. record s { posted = s.posted ++ (e ∷ []) })
  posted_with e Err.timeout = pure tt
  posted_with e err = error_check err

  unfoldable pub wifi_lib_post_event : LibEvent → Exec (WifiLib N) (Unit {0})
  unfolding posted_with
  wifi_lib_post_event e = do
    handle ← gets (λ s. s.event_loop_handle)
    if handle then (ask d (Call.post_to e) >>= posted_with e) else pure tt

  unfoldable pub wifi_lib_start_event_loop : Exec (WifiLib N) (Unit {0})
  wifi_lib_start_event_loop = do
    must d Call.loop_create
    modify (λ s. record s { event_loop_handle = true })

  unfoldable pub wifi_lib_register_event_handler : Exec (WifiLib N) (Unit {0})
  wifi_lib_register_event_handler = do
    handle ← gets (λ s. s.event_loop_handle)
    if handle
        then (must d Call.register_handler >> modify (λ s. record s { handler_registered = true }))
        else pure tt

  -- xEventGroupSetBits
  abbrev pub set_event_bit : EventBit → Exec (WifiLib N) (Unit {0})
  set_event_bit bit = modify (λ s. record s { bits = set_bit bit s.bits })

  unfoldable pub ip_event_handler : IpEvent → Exec (WifiLib N) (Unit {0})
  unfolding wifi_lib_post_event
  ip_event_handler sta_got_ip = do
    modify (λ s. record s { retry_num = 0 })
    wifi_lib_post_event got_ip
    must d Call.get_max_tx_power
  ip_event_handler ap_staipassigned = must d Call.get_max_tx_power
  ip_event_handler sta_lost_ip = pure tt
  ip_event_handler (other_ip _) = pure tt

  unfoldable pub wifi_event_handler : WifiEvent → Exec (WifiLib N) (Unit {0})
  unfolding wifi_lib_post_event
  wifi_event_handler sta_start = set_event_bit sta_start_bit
  wifi_event_handler sta_stop = set_event_bit sta_stop_bit
  wifi_event_handler ap_start = do set_event_bit ap_start_bit; wifi_lib_post_event has_ssid
  wifi_event_handler ap_stop = set_event_bit ap_stop_bit
  wifi_event_handler ap_staconnected = pure tt
  wifi_event_handler ap_stadisconnected = wifi_lib_post_event left_ssid
  wifi_event_handler sta_connected = do
    set_event_bit sta_connected_bit
    wifi_lib_post_event joined_ssid
  wifi_event_handler sta_disconnected = do
    set_event_bit sta_disconnected_bit
    wifi_lib_post_event left_ssid
  wifi_event_handler sta_beacon_timeout = pure tt
  wifi_event_handler (other_wifi _) = pure tt

  -- Events in the order of their arrival.
  unfoldable pub wifi_events : List WifiEvent → Exec (WifiLib N) (Unit {0})
  unfolding wifi_event_handler
  wifi_events [] = pure tt
  wifi_events (e ∷ es) = wifi_event_handler e >> wifi_events es
