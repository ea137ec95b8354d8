-- ===== src/Wifi/Connection.antt =====
-- Esp32Sniffer/components/wifi_lib/wifi_lib.c: the access point and the station, one network interface at a
-- time. What the driver does is a parameter; a wait runs the handler of the events that arrive meanwhile.
pub mod Laws
pub mod Single
pub mod Waits
use wifi_sniffer.Prelude.{
  ℕ, suc, ◌-◌, ◌+◌, ◌/◌, ◌%◌, ◌^◌, Bool, true, false, not, Option, none, some, List, [], ◌∷◌, ◌++◌,
  ◌==◌, ltb, leb, length, replicate, take, if◌then◌else◌,
}
use wifi_sniffer.Prelude.Int.{ℤ, pos, eq_ℤ}
use wifi_sniffer.Prelude.Bytes.{Bytes, memcpy}
use wifi_sniffer.Prelude.Partial.{◌>>=?◌}
use wifi_sniffer.Prelude.Text.{text_at}
use wifi_sniffer.Prelude.Results.{
  Err, is_ok, Exec, pure, checked, error_check, modify, gets, ◌>>=◌, ◌>>◌,
}
use wifi_sniffer.Nvs.Api.{NvsApi, Store}
use wifi_sniffer.Wifi.Settings.{
  Defaults, IpInfo, DnsServers, SsidCfg, ssid_size, ssid_pass_size, is_valid_ip, is_valid_ip_info,
  wifi_nvs_get_mode, wifi_nvs_set_mode, wifi_nvs_set_ap_channel, wifi_nvs_set_ap_ssid,
  wifi_nvs_set_ap_ssid_pw, wifi_nvs_get_ap_channel, wifi_nvs_get_ssid_ap_cfg,
  wifi_nvs_get_ssid_sta_cfg,
}
use wifi_sniffer.Wifi.Address.{
  wifi_nvs_set_static_ip_info, wifi_nvs_get_static_ip_info, wifi_nvs_get_dns_servers,
}
use wifi_sniffer.Wifi.Driver.{
  Interface, WifiConf, ap_conf, sta_conf, DnsType, dns_main, dns_backup, got_ip, Call, Driver, Bits,
  Netif, WifiLib, on_flash, call, ask, must, ip_text,
}
use wifi_sniffer.Wifi.Events.{
  EventBit, ap_start_bit, sta_start_bit, has_bit, wifi_lib_post_event, wifi_events,
  wifi_lib_start_event_loop, wifi_lib_register_event_handler,
}

-- "%02X"
abbrev upper_digit : ℕ → ℕ
upper_digit n = if ltb n 10 then b'0' + n else b'A' + (n - 10)

abbrev pub upper_hex : ℕ → Bytes
upper_hex x = upper_digit (x / 16 % 16) ∷ upper_digit (x % 16) ∷ []

-- The text that "%s_%02X_%02X_%02X" stands for, with the last three octets of the address.
abbrev pub mac_suffix : ℕ → ℕ → ℕ → Bytes
mac_suffix a b c = (b'_' ∷ upper_hex a) ++ (b'_' ∷ upper_hex b) ++ (b'_' ∷ upper_hex c)

abbrev pub ssid_text : Bytes → Bytes → Bytes
ssid_text prefix (_ ∷ _ ∷ _ ∷ a ∷ b ∷ c ∷ _) = prefix ++ mac_suffix a b c
ssid_text prefix _ = prefix

-- `snprintf` into an array of `room` characters: as much of the text as fits, a zero, and what was there.
abbrev pub snprintf : ℕ → Bytes → Bytes
snprintf room text = let t = take (room - 1) text in t ++ replicate (room - length t) 0

module _ {N : NvsApi} (d : Driver) where
  unfoldable pub wifi_set_dns_server : ℕ → ℕ → DnsType → Exec (WifiLib N) (Unit {0})
  wifi_set_dns_server netif addr type =
      if is_valid_ip addr then must d (Call.set_dns_info netif type addr) else pure tt

  abbrev pub set_net_if : Option Netif → Exec (WifiLib N) (Unit {0})
  set_net_if n = modify (λ s. record s { net_if = n })

  unfoldable pub destroy : Option Netif → Exec (WifiLib N) (Unit {0})
  destroy none = pure tt
  destroy (some n) = do call (Call.destroy_default_wifi n.number); set_net_if none

  unfoldable pub destroy_net_if : Exec (WifiLib N) (Unit {0})
  unfolding destroy
  destroy_net_if = gets (λ s. s.net_if) >>= destroy

  -- The array, and the length that the text would have had in an array that is large enough.
  unfoldable named_by : Bytes → Bytes → Exec (WifiLib N) (Bytes × ℕ)
  named_by mac ssid_prefix = do
    prefix ← checked (text_at ssid_prefix)
    let text = ssid_text prefix mac
    pure {A = Bytes × ℕ} (snprintf ssid_size text, length text)

  unfoldable pub wifi_generate_ssid : Bytes → Exec (WifiLib N) (Bytes × ℕ)
  unfolding named_by
  wifi_generate_ssid ssid_prefix = do
    mac ← gets (λ s. d.mac s.calls)
    must d Call.get_mac
    named_by mac ssid_prefix

  -- The default configuration is tried where the other was refused.
  unfoldable set_conf_or : Interface → Err → Exec (WifiLib N) (Unit {0})
  set_conf_or interface e =
      if is_ok e then pure tt else ask d (Call.set_default_config interface) >> pure tt

  unfoldable pub wifi_set_conf : Interface → WifiConf → Exec (WifiLib N) Err
  unfolding set_conf_or
  wifi_set_conf interface conf = do
    must d Call.set_country
    must d (Call.set_mode interface)
    e ← ask d (Call.set_config interface conf)
    set_conf_or interface e
    pure e

  -- esp_netif_create_default_wifi_ap and esp_netif_create_default_wifi_sta
  unfoldable create_default_wifi : Interface → Exec (WifiLib N) Netif
  create_default_wifi interface = do
    n ← gets (λ s. s.next_netif)
    call (Call.create_default_wifi interface n)
    modify (λ s. record s { next_netif = suc n })
    pure (record { interface = interface; number = n })

  unfoldable soft_ap_with : SsidCfg → ℕ → ℕ → Bytes → Bytes → Exec (WifiLib N) Netif
  unfolding wifi_set_conf create_default_wifi
  soft_ap_with ssid_cfg channel sz ssid password = do
    e ←
        wifi_set_conf Interface.ap
          (ap_conf ssid (sz % 256) password channel (ssid_cfg.pass_sz == 0))
    create_default_wifi Interface.ap

  unfoldable soft_ap_named : SsidCfg → ℕ → Bytes × ℕ → Exec (WifiLib N) Netif
  unfolding soft_ap_with
  soft_ap_named ssid_cfg channel gen = do
    ssid ← checked (memcpy (replicate ssid_size 0) gen.0 gen.1)
    password ← checked (memcpy (replicate ssid_pass_size 0) ssid_cfg.password ssid_cfg.pass_sz)
    soft_ap_with ssid_cfg channel gen.1 ssid password

  unfoldable pub wifi_soft_ap : SsidCfg → ℕ → Exec (WifiLib N) Netif
  unfolding wifi_generate_ssid soft_ap_named
  wifi_soft_ap ssid_cfg channel =
      wifi_generate_ssid ssid_cfg.ssid >>= soft_ap_named ssid_cfg channel

  unfoldable pub wifi_set_sta : SsidCfg → Exec (WifiLib N) Netif
  unfolding wifi_set_conf create_default_wifi
  wifi_set_sta ssid_cfg = do
    ssid ← checked (memcpy (replicate ssid_size 0) ssid_cfg.ssid ssid_cfg.ssid_sz)
    password ← checked (memcpy (replicate ssid_pass_size 0) ssid_cfg.password ssid_cfg.pass_sz)
    e ← wifi_set_conf Interface.sta (sta_conf ssid password)
    create_default_wifi Interface.sta

  -- xEventGroupWaitBits with portMAX_DELAY, which does not clear the bit: nothing is waited for if it is
  -- set already.
  unfoldable pub wait_bit : EventBit → Exec (WifiLib N) Bool
  unfolding wifi_events
  wait_bit bit = do
    now ← gets (λ s. has_bit bit s.bits)
    events ← gets (λ s. d.arrive s.calls)
    if now then pure tt else wifi_events d events
    gets (λ s. has_bit bit s.bits)

  abbrev pub get_ip_of : Option Netif → Exec (WifiLib N) (Option ℕ)
  get_ip_of none = pure none
  get_ip_of (some n) = do
    i ← gets (λ s. d.ip_info s.calls n.number)
    must d (Call.get_ip_info n.number)
    pure (some i.ip)

  -- `wifi_get_ip` into an array of `sz` characters that holds `msg`.
  unfoldable pub wifi_get_ip : Bytes → ℕ → Exec (WifiLib N) Bytes
  unfolding ip_text
  wifi_get_ip msg sz = do
    netif ← gets (λ s. s.net_if)
    ip ← get_ip_of netif
    pure (elim ip [ none ↦ msg | some a ↦ snprintf sz (ip_text a) ])

  abbrev pub get_mac_of : Option Netif → Bytes → Exec (WifiLib N) Bytes
  get_mac_of none mac = pure mac
  get_mac_of (some n) mac = do
    m ← gets (λ s. d.netif_mac s.calls n.number)
    must d (Call.netif_get_mac n.number)
    pure m

  -- The array stays as it was if there is no interface.
  unfoldable pub wifi_get_mac : Bytes → Exec (WifiLib N) Bytes
  wifi_get_mac mac = gets (λ s. s.net_if) >>= λ netif. get_mac_of netif mac
