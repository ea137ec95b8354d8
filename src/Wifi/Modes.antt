-- ===== src/Wifi/Modes.antt =====
-- Esp32Sniffer/components/wifi_lib/wifi_lib.c: access point, station and static address, and the start of
-- the library. A value of `SsidCfg` named `junk` is what stands in memory where a local variable is put.
pub mod Keeping
pub mod Laws
pub mod StaticIp
pub mod Start
pub mod Returns
use wifi_sniffer.Prelude.{
  ℕ, Bool, true, false, ◌&&◌, Option, none, some, List, [], replicate, if◌then◌else◌, ◌^◌, ◌-◌, ◌∷◌,
}
use wifi_sniffer.Prelude.Int.{ℤ, pos, eq_ℤ}
use wifi_sniffer.Prelude.Bytes.{Bytes}
use wifi_sniffer.Prelude.Results.{Err, Exec, pure, error_check, modify, gets, ◌>>=◌, ◌>>◌}
use wifi_sniffer.Nvs.Api.{NvsApi}
use wifi_sniffer.Wifi.Settings.{
  Defaults, IpInfo, DnsServers, SsidCfg, is_valid_ip_info, wifi_nvs_get_mode, wifi_nvs_set_mode,
  wifi_nvs_set_ap_channel, wifi_nvs_set_ap_ssid, wifi_nvs_set_ap_ssid_pw, wifi_nvs_get_ap_channel,
  wifi_nvs_get_ssid_ap_cfg, wifi_nvs_get_ssid_sta_cfg,
}
use wifi_sniffer.Wifi.Address.{
  wifi_nvs_set_static_ip_info, wifi_nvs_get_static_ip_info, wifi_nvs_get_dns_servers,
}
use wifi_sniffer.Wifi.Driver.{
  WifiEvent, IpEvent, dns_main, dns_backup, got_ip, Call, Driver, Netif, WifiLib, on_flash, ask,
  must, ip_text,
}
use wifi_sniffer.Wifi.Events.{
  ap_start_bit, sta_start_bit, wifi_lib_post_event, wifi_lib_start_event_loop,
  wifi_lib_register_event_handler, wifi_event_handler, ip_event_handler,
}
use wifi_sniffer.Wifi.Connection.{
  wifi_set_dns_server, set_net_if, destroy_net_if, wifi_soft_ap, wifi_set_sta, wait_bit,
  wifi_get_ip,
}

module _ {N : NvsApi} (d : Driver) (D : Defaults) (ipaddr_addr : Bytes → ℕ) where
  -- A DHCP client that is stopped already is no error.
  abbrev client_stopped : Err → Exec (WifiLib N) (Unit {0})
  client_stopped e = if d.already_stopped e then pure tt else error_check e

  unfoldable announce_ip : ℕ → DnsServers → Exec (WifiLib N) (Unit {0})
  unfolding wifi_lib_post_event wifi_set_dns_server
  announce_ip n dns = do
    wifi_lib_post_event d got_ip
    wifi_set_dns_server d n dns.primary_dns dns_main
    wifi_set_dns_server d n dns.secondery_dns dns_backup

  unfoldable serve_at : ℕ → IpInfo → DnsServers → Exec (WifiLib N) (Unit {0})
  unfolding ip_text announce_ip
  serve_at n ip dns = do
    must d (Call.dhcps_stop n)
    must d (Call.set_ip_info n ip)
    must d (Call.dhcps_start n)
    on_flash (
        wifi_nvs_set_static_ip_info N D ipaddr_addr (ip_text ip.ip) (ip_text ip.netmask)
          (ip_text ip.gw))
    announce_ip n dns

  unfoldable pub set_static_ip : ℕ → IpInfo → DnsServers → Exec (WifiLib N) (Unit {0})
  unfolding serve_at
  set_static_ip n ip dns = do e ← ask d (Call.dhcpc_stop n); client_stopped e; serve_at n ip dns

  unfoldable pub conf_static_ip : Option Netif → IpInfo → DnsServers → Exec (WifiLib N) (Unit {0})
  unfolding set_static_ip
  conf_static_ip none ip dns = pure tt
  conf_static_ip (some n) ip dns = do
    mode ← on_flash (wifi_nvs_get_mode N D)
    if eq_ℤ mode (pos 2) && is_valid_ip_info ip then set_static_ip n.number ip dns else pure tt

  unfoldable pub wifi_conf_static_ip : IpInfo → DnsServers → Exec (WifiLib N) (Unit {0})
  unfolding conf_static_ip
  wifi_conf_static_ip ip dns = gets (λ s. s.net_if) >>= λ netif. conf_static_ip netif ip dns

  unfoldable pub wifi_conf_set_static_ip : IpInfo → Exec (WifiLib N) (Unit {0})
  unfolding wifi_conf_static_ip
  wifi_conf_set_static_ip ip =
      wifi_conf_static_ip ip (record { primary_dns = 2 ^ 32 - 1; secondery_dns = 2 ^ 32 - 1 })

  unfoldable pub ap_started : IpInfo → DnsServers → Bool → Exec (WifiLib N) (Unit {0})
  unfolding wifi_conf_static_ip wifi_get_ip
  ap_started ip dns false = pure tt
  ap_started ip dns true = do
    wifi_conf_static_ip ip dns
    msg ← wifi_get_ip d (replicate 50 0) 50
    must d Call.get_max_tx_power

  unfoldable pub save_ap : SsidCfg → ℕ → Exec (WifiLib N) (Unit {0})
  save_ap ssid_cfg channel = do
    mode ← on_flash (wifi_nvs_set_mode N D (pos 2))
    on_flash (wifi_nvs_set_ap_channel N D channel)
    on_flash (wifi_nvs_set_ap_ssid N D ssid_cfg.ssid ssid_cfg.ssid_sz)
    on_flash (wifi_nvs_set_ap_ssid_pw N D ssid_cfg.password ssid_cfg.pass_sz)

  unfoldable pub wifi_ap : SsidCfg → ℕ → IpInfo → DnsServers → Exec (WifiLib N) (Unit {0})
  unfolding destroy_net_if wifi_soft_ap save_ap wait_bit ap_started
  wifi_ap ssid_cfg channel ip dns = do
    must d Call.stop
    destroy_net_if d
    netif ← wifi_soft_ap d ssid_cfg channel
    set_net_if d (some netif)
    must d Call.start
    save_ap ssid_cfg channel
    started ← wait_bit d ap_start_bit
    ap_started ip dns started

  unfoldable sta_started : ℕ → Bool → Exec (WifiLib N) (Unit {0})
  sta_started n false = pure tt
  sta_started n true = do
    must d (Call.dhcps_stop n)
    must d Call.connect
    mode ← on_flash (wifi_nvs_set_mode N D (pos 1))
    pure tt

  unfoldable pub wifi_sta : SsidCfg → Exec (WifiLib N) (Unit {0})
  unfolding destroy_net_if wifi_set_sta wait_bit sta_started
  wifi_sta ssid_cfg = do
    must d Call.stop
    destroy_net_if d
    netif ← wifi_set_sta d ssid_cfg
    set_net_if d (some netif)
    must d Call.start
    started ← wait_bit d sta_start_bit
    sta_started netif.number started

  unfoldable set_mode_ap : SsidCfg → Exec (WifiLib N) (Unit {0})
  unfolding wifi_ap
  set_mode_ap junk = do
    ssid_cfg ← on_flash (wifi_nvs_get_ssid_ap_cfg N D junk)
    channel ← on_flash (wifi_nvs_get_ap_channel N D)
    ip ← on_flash (wifi_nvs_get_static_ip_info N D ipaddr_addr)
    dns ← on_flash (wifi_nvs_get_dns_servers N D ipaddr_addr)
    wifi_ap ssid_cfg channel ip dns

  unfoldable set_mode_sta : SsidCfg → Exec (WifiLib N) (Unit {0})
  unfolding wifi_sta
  set_mode_sta junk =
      on_flash (wifi_nvs_get_ssid_sta_cfg N D junk) >>= λ ssid_cfg. wifi_sta ssid_cfg

  -- WIFI_LIB_MODE_AP, WIFI_LIB_MODE_STA, and the numbers for which only a message is logged.
  unfoldable pub wifi_set_mode : SsidCfg → ℤ → Exec (WifiLib N) (Unit {0})
  unfolding set_mode_ap set_mode_sta wifi_get_ip
  wifi_set_mode junk mode = do
    if eq_ℤ mode (pos 2)
        then set_mode_ap junk
        else if eq_ℤ mode (pos 1)
        then set_mode_sta junk
        else pure tt
    msg ← wifi_get_ip d (replicate 50 0) 50
    pure tt

  unfoldable pub wifi_init : Exec (WifiLib N) (Unit {0})
  unfolding wifi_lib_start_event_loop wifi_lib_register_event_handler
  wifi_init = do
    wifi_lib_start_event_loop d
    wifi_lib_register_event_handler d
    must d Call.netif_init
    must d Call.loop_create_default
    modify (λ s. record s { calls = Call.group_create ∷ s.calls })
    must d Call.register_wifi
    must d Call.register_ip
    must d Call.init
    must d Call.set_ps
    must d Call.set_storage

  -- Esp32Sniffer/main/main.c
  unfoldable pub config_wifi_init : SsidCfg → Exec (WifiLib N) (Unit {0})
  unfolding wifi_init wifi_set_mode
  config_wifi_init junk = do
    wifi_init
    mode ← on_flash (wifi_nvs_get_mode N D)
    wifi_set_mode junk mode

-- What changes the state after the start: what the commands and `setup` call, and the two handlers.
pub data Step : Type 0 where
  to_mode : SsidCfg → ℤ → Step
  to_ap : SsidCfg → ℕ → IpInfo → DnsServers → Step
  to_sta : SsidCfg → Step
  to_static_ip : IpInfo → Step
  on_wifi : WifiEvent → Step
  on_ip : IpEvent → Step

module _ {N : NvsApi} (d : Driver) (D : Defaults) (ipaddr_addr : Bytes → ℕ) where
  unfoldable pub step : Step → Exec (WifiLib N) (Unit {0})
  unfolding wifi_set_mode wifi_ap wifi_sta wifi_conf_set_static_ip wifi_event_handler
      ip_event_handler
  step (to_mode junk mode) = wifi_set_mode d D ipaddr_addr junk mode
  step (to_ap cfg channel ip dns) = wifi_ap d D ipaddr_addr cfg channel ip dns
  step (to_sta cfg) = wifi_sta d D ipaddr_addr cfg
  step (to_static_ip ip) = wifi_conf_set_static_ip d D ipaddr_addr ip
  step (on_wifi e) = wifi_event_handler d e
  step (on_ip e) = ip_event_handler d e

  -- Steps in the order in which they happen.
  unfoldable pub steps : List Step → Exec (WifiLib N) (Unit {0})
  unfolding step
  steps [] = pure tt
  steps (x ∷ xs) = step x >> steps xs
