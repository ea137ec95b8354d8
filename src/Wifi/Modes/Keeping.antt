-- ===== src/Wifi/Modes/Keeping.antt =====
-- The parts of `wifi_ap`, `wifi_sta` and the static address that leave the interfaces and the mode alone.
use wifi_sniffer.Prelude.{ℕ, refl, ◌&&◌, Bool, true, false, Option, none, some, replicate}
use wifi_sniffer.Prelude.Int.{pos, eq_ℤ}
use wifi_sniffer.Prelude.Bytes.{Bytes}
use wifi_sniffer.Prelude.Keeps.{
  Keeps, Keeps-bind, Keeps-pure, Keeps-gets, Keeps-error_check, Keeps-if,
}
use wifi_sniffer.Prelude.Triples.{}
use wifi_sniffer.Nvs.Api.{NvsApi}
use wifi_sniffer.Wifi.Settings.{
  Defaults, IpInfo, DnsServers, SsidCfg, is_valid_ip, is_valid_ip_info, wifi_nvs_get_mode,
  wifi_nvs_set_mode, wifi_nvs_set_ap_channel, wifi_nvs_set_ap_ssid, wifi_nvs_set_ap_ssid_pw,
}
use wifi_sniffer.Wifi.Address.{wifi_nvs_set_static_ip_info}
use wifi_sniffer.Wifi.Driver.{
  DnsType, dns_main, dns_backup, got_ip, Call, Driver, Netif, WifiLib, ip_text,
}
use wifi_sniffer.Wifi.Events.{EventBit, has_bit}
use wifi_sniffer.Wifi.Events.Laws.{
  Tolerates, Keeps-on_flash, Keeps-ask, Keeps-must, Keeps-wifi_lib_post_event, Keeps-wifi_events,
}
use wifi_sniffer.Wifi.Connection.{wifi_set_dns_server, wait_bit, wifi_get_ip, get_ip_of, snprintf}
use wifi_sniffer.Wifi.Connection.Single.{}
use wifi_sniffer.Wifi.Modes.{
  set_static_ip, serve_at, announce_ip, conf_static_ip, wifi_conf_static_ip, ap_started, save_ap,
  sta_started,
}

module _ {N : NvsApi} (d : Driver) (D : Defaults) (ipaddr_addr : Bytes → ℕ) where
  module _ {P : WifiLib N → Type 0} (T : Tolerates P) where
    pub Keeps-wait_bit : (b : EventBit) → Keeps P (wait_bit d b)
    unfolding wait_bit
    Keeps-wait_bit b = Keeps-bind (Keeps-gets (λ s. has_bit b s.bits)) (λ now.
        Keeps-bind (Keeps-gets (λ s. d.arrive s.calls)) (λ events.
          Keeps-bind (Keeps-if now (Keeps-pure tt) (Keeps-wifi_events d T events))
            (λ _. Keeps-gets (λ s. has_bit b s.bits))))

    pub Keeps-get_ip_of : (o : Option Netif) → Keeps P (get_ip_of d o)
    Keeps-get_ip_of none = Keeps-pure none
    Keeps-get_ip_of (some n) = Keeps-bind (Keeps-gets (λ s. d.ip_info s.calls n.number)) (λ i.
        Keeps-bind (Keeps-must d T (Call.get_ip_info n.number) refl) (λ _. Keeps-pure (some i.ip)))

    pub Keeps-wifi_get_ip : (msg : Bytes) (sz : ℕ) → Keeps P (wifi_get_ip d msg sz)
    unfolding wifi_get_ip
    Keeps-wifi_get_ip msg sz = Keeps-bind (Keeps-gets (λ s. s.net_if)) (λ netif.
        Keeps-bind (Keeps-get_ip_of netif)
          (λ ip. Keeps-pure (elim ip [ none ↦ msg | some a ↦ snprintf sz (ip_text a) ])))

    pub Keeps-wifi_set_dns_server :
        (n addr : ℕ) (type : DnsType) → Keeps P (wifi_set_dns_server d n addr type)
    unfolding wifi_set_dns_server
    Keeps-wifi_set_dns_server n addr type =
        Keeps-if (is_valid_ip addr) (Keeps-must d T (Call.set_dns_info n type addr) refl)
          (Keeps-pure tt)

    pub Keeps-set_static_ip :
        (n : ℕ) (ip : IpInfo) (dns : DnsServers) → Keeps P (set_static_ip d D ipaddr_addr n ip dns)
    unfolding set_static_ip serve_at announce_ip
    Keeps-set_static_ip n ip dns = Keeps-bind (Keeps-ask d T (Call.dhcpc_stop n) refl) (λ e.
        Keeps-bind (Keeps-if (d.already_stopped e) (Keeps-pure tt) (Keeps-error_check e)) (λ _.
          Keeps-bind (Keeps-must d T (Call.dhcps_stop n) refl) (λ _.
            Keeps-bind (Keeps-must d T (Call.set_ip_info n ip) refl) (λ _.
              Keeps-bind (Keeps-must d T (Call.dhcps_start n) refl) (λ _.
                Keeps-bind
                  (Keeps-on_flash d T (
                    wifi_nvs_set_static_ip_info N D ipaddr_addr (ip_text ip.ip) (ip_text ip.netmask)
                      (ip_text ip.gw)))
                  (λ _. Keeps-bind (Keeps-wifi_lib_post_event d T got_ip) (λ _.
                    Keeps-bind (Keeps-wifi_set_dns_server n dns.primary_dns dns_main)
                      (λ _. Keeps-wifi_set_dns_server n dns.secondery_dns dns_backup))))))))

    pub Keeps-conf_static_ip :
        (o : Option Netif) (ip : IpInfo) (dns : DnsServers)
        → Keeps P (conf_static_ip d D ipaddr_addr o ip dns)
    unfolding conf_static_ip
    Keeps-conf_static_ip none ip dns = Keeps-pure tt
    Keeps-conf_static_ip (some n) ip dns =
        Keeps-bind (Keeps-on_flash d T (wifi_nvs_get_mode N D)) (λ mode.
          Keeps-if (eq_ℤ mode (pos 2) && is_valid_ip_info ip) (Keeps-set_static_ip n.number ip dns)
            (Keeps-pure tt))

    pub Keeps-wifi_conf_static_ip :
        (ip : IpInfo) (dns : DnsServers) → Keeps P (wifi_conf_static_ip d D ipaddr_addr ip dns)
    unfolding wifi_conf_static_ip
    Keeps-wifi_conf_static_ip ip dns =
        Keeps-bind (Keeps-gets (λ s. s.net_if)) (λ netif. Keeps-conf_static_ip netif ip dns)

    pub Keeps-ap_started :
        (ip : IpInfo) (dns : DnsServers) (b : Bool) → Keeps P (ap_started d D ipaddr_addr ip dns b)
    unfolding ap_started
    Keeps-ap_started ip dns false = Keeps-pure tt
    Keeps-ap_started ip dns true = Keeps-bind (Keeps-wifi_conf_static_ip ip dns) (λ _.
        Keeps-bind (Keeps-wifi_get_ip (replicate 50 0) 50)
          (λ _. Keeps-must d T Call.get_max_tx_power refl))

    pub Keeps-save_ap :
        (cfg : SsidCfg) (channel : ℕ) → Keeps P (save_ap d D ipaddr_addr cfg channel)
    unfolding save_ap
    Keeps-save_ap cfg channel =
        Keeps-bind (Keeps-on_flash d T (wifi_nvs_set_mode N D (pos 2))) (λ _.
          Keeps-bind (Keeps-on_flash d T (wifi_nvs_set_ap_channel N D channel)) (λ _.
            Keeps-bind (Keeps-on_flash d T (wifi_nvs_set_ap_ssid N D cfg.ssid cfg.ssid_sz))
              (λ _. Keeps-on_flash d T (wifi_nvs_set_ap_ssid_pw N D cfg.password cfg.pass_sz))))

    pub Keeps-sta_started : (n : ℕ) (b : Bool) → Keeps P (sta_started d D ipaddr_addr n b)
    unfolding sta_started
    Keeps-sta_started n false = Keeps-pure tt
    Keeps-sta_started n true = Keeps-bind (Keeps-must d T (Call.dhcps_stop n) refl) (λ _.
        Keeps-bind (Keeps-must d T Call.connect refl) (λ _.
          Keeps-bind (Keeps-on_flash d T (wifi_nvs_set_mode N D (pos 1))) (λ _. Keeps-pure tt)))
