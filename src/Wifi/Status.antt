-- ===== src/Wifi/Status.antt =====
-- Esp32Sniffer/components/wifi_lib/wifi_lib.c: what the library tells of its connection. What esp_wifi
-- answers to the queries is a parameter.
pub mod Laws
use wifi_sniffer.Prelude.{ℕ, Bool, Option, none, some, replicate, if◌then◌else◌}
use wifi_sniffer.Prelude.Int.{ℤ, pos}
use wifi_sniffer.Prelude.Bytes.{Bytes, memcpy}
use wifi_sniffer.Prelude.Results.{
  Err, done, aborted, Exec, pure, checked, error_check, gets, ◌>>=◌, ◌>>◌,
}
use wifi_sniffer.Nvs.Api.{NvsApi, Got, got, failed}
use wifi_sniffer.Wifi.Settings.{ssid_size}
use wifi_sniffer.Wifi.Driver.{Call, Driver, Netif, WifiLib, must}

-- `wifi_mode_t`: WIFI_MODE_AP, WIFI_MODE_STA, and the modes that the source has no case for.
pub data WifiMode : Type 0 where
  mode_ap mode_sta : WifiMode
  mode_other : ℕ → WifiMode

-- esp_wifi_get_mode; the names that esp_wifi_get_config has for WIFI_IF_AP and WIFI_IF_STA;
-- esp_wifi_sta_get_ap_info, the name of the access point that was joined; esp_wifi_get_channel.
-- `wifi_stopped` tells ESP_ERR_WIFI_STOP_STATE from the other codes.
pub record Air : Type 0 where
  pub mode : Got WifiMode
  pub ap_ssid : Got Bytes
  pub sta_ssid : Got Bytes
  pub joined : Got Bytes
  pub channel : Got ℕ
  pub wifi_stopped : Err → Bool

-- `wifi_lib_cfg_t`. WIFI_LIB_MODE_NONE is 0, WIFI_LIB_MODE_STA is 1 and WIFI_LIB_MODE_AP is 2.
pub record WifiLibCfg : Type 0 where
  pub mac : Bytes
  pub wifi_lib_mode : ℤ
  pub ip : ℕ
  pub ssid_name : Bytes
  pub channel : ℕ

module _ {N : NvsApi} (d : Driver) (air : Air) where
  -- ESP_ERROR_CHECK of a query.
  abbrev pub must_get : {A : Type 0} → Got A → Exec (WifiLib N) A
  must_get (got a) s = done a s
  must_get (failed e) s = aborted e s

  -- A name of 32 spaces if there is no access point to tell of.
  abbrev joined_name : Got Bytes → Exec (WifiLib N) Bytes
  joined_name (failed e) = pure (replicate ssid_size 32)
  joined_name (got ssid) = checked (memcpy (replicate ssid_size 0) ssid ssid_size)

  -- The mode and the name that the driver's mode stands for; for other modes the variable stays unset.
  unfoldable mode_and_name : WifiMode → WifiLibCfg → Exec (WifiLib N) WifiLibCfg
  mode_and_name mode_ap cfg = do
    conf ← must_get air.ap_ssid
    ssid_name ← checked (memcpy (replicate ssid_size 0) conf ssid_size)
    pure (record cfg { wifi_lib_mode = pos 2; ssid_name = ssid_name })
  mode_and_name mode_sta cfg = do
    conf ← must_get air.sta_ssid
    ssid_name ← joined_name air.joined
    pure (record cfg { wifi_lib_mode = pos 1; ssid_name = ssid_name })
  mode_and_name (mode_other _) cfg = pure cfg

  -- The local variable is 0 unless the driver writes it.
  abbrev current_channel : Got ℕ → Exec (WifiLib N) ℕ
  current_channel (got c) s = done c s
  current_channel (failed e) s = if air.wifi_stopped e then done 0 s else aborted e s

  unfoldable address_of : Netif → WifiLibCfg → Exec (WifiLib N) WifiLibCfg
  address_of netif cfg = do
    channel ← current_channel air.channel
    i ← gets (λ s. d.ip_info s.calls netif.number)
    must d (Call.get_ip_info netif.number)
    m ← gets (λ s. d.netif_mac s.calls netif.number)
    must d (Call.netif_get_mac netif.number)
    pure (record cfg { channel = channel; ip = i.ip; mac = m })

  -- `junk` is what stands in memory where the local variable is put.
  unfoldable pub wifi_lib_get_config : WifiLibCfg → Option Netif → Exec (WifiLib N) WifiLibCfg
  unfolding mode_and_name address_of
  wifi_lib_get_config junk none = pure (record junk { wifi_lib_mode = pos 0 })
  wifi_lib_get_config junk (some netif) = do
    mode ← must_get air.mode
    cfg ← mode_and_name mode junk
    address_of netif cfg

  unfoldable pub wifi_lib_get_curr_config : WifiLibCfg → Exec (WifiLib N) WifiLibCfg
  unfolding wifi_lib_get_config
  wifi_lib_get_curr_config junk = gets (λ s. s.net_if) >>= λ netif. wifi_lib_get_config junk netif
