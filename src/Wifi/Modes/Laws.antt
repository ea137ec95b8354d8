-- ===== src/Wifi/Modes/Laws.antt =====
-- Access point and station: there is one network interface at most, and it fits the driver's mode.
use wifi_sniffer.Prelude.{ℕ, ◌-◌, ◌^◌, refl, inr, List, [], ◌∷◌, replicate}
use wifi_sniffer.Prelude.Int.{ℤ, pos, eq_ℤ}
use wifi_sniffer.Prelude.Bytes.{Bytes}
use wifi_sniffer.Prelude.Results.{Exec}
use wifi_sniffer.Prelude.Keeps.{}
use wifi_sniffer.Prelude.Triples.{
  Ends, Triple, Triple-bind, Triple-pure, Triple-if, Triple-Keeps, Triple-after,
}
use wifi_sniffer.Nvs.Api.{NvsApi, Store}
use wifi_sniffer.Wifi.Settings.{
  Defaults, IpInfo, DnsServers, SsidCfg, wifi_nvs_get_ap_channel, wifi_nvs_get_ssid_ap_cfg,
  wifi_nvs_get_ssid_sta_cfg,
}
use wifi_sniffer.Wifi.Address.{wifi_nvs_get_static_ip_info, wifi_nvs_get_dns_servers}
use wifi_sniffer.Wifi.Driver.{Interface, Call, Driver, WifiLib, on_flash}
use wifi_sniffer.Wifi.Events.{ap_start_bit, sta_start_bit}
use wifi_sniffer.Wifi.Events.Laws.{Keeps-on_flash, Keeps-wifi_event_handler, Keeps-ip_event_handler}
use wifi_sniffer.Wifi.Connection.Single.{
  At, Single, Up, At-Tolerates, Triple-must, Triple-destroy_net_if, Triple-wifi_soft_ap,
  Triple-wifi_set_sta, Triple-set_net_if,
}
use wifi_sniffer.Wifi.Modes.Keeping.{
  Keeps-wait_bit, Keeps-wifi_get_ip, Keeps-wifi_conf_static_ip, Keeps-ap_started, Keeps-save_ap,
  Keeps-sta_started,
}
use wifi_sniffer.Wifi.Modes.{
  wifi_conf_set_static_ip, wifi_ap, wifi_sta, set_mode_ap, set_mode_sta, wifi_set_mode, Step,
  to_mode, to_ap, to_sta, to_static_ip, on_wifi, on_ip, step, steps,
}

module _ {N : NvsApi} (d : Driver) (D : Defaults) (ipaddr_addr : Bytes → ℕ) where
  pub Triple-wifi_ap :
      (cfg : SsidCfg) (channel : ℕ) (ip : IpInfo) (dns : DnsServers)
      → Triple {S = WifiLib N}
          (At Single)
          (wifi_ap d D ipaddr_addr cfg channel ip dns)
          (λ _. At (Up Interface.ap))
  unfolding wifi_ap
  Triple-wifi_ap cfg channel ip dns = Triple-bind (Triple-must d Single Call.stop refl) (λ _.
      Triple-bind (Triple-destroy_net_if d) (λ _.
        Triple-bind (Triple-wifi_soft_ap d cfg channel) (λ k.
          Triple-bind (Triple-set_net_if d Interface.ap k) (λ _.
            Triple-bind (Triple-must d (Up Interface.ap) Call.start refl) (λ _.
              Triple-bind
                (Triple-Keeps
                  (Keeps-save_ap d D ipaddr_addr (At-Tolerates (Up Interface.ap)) cfg channel))
                (λ _.
                  Triple-bind
                    (Triple-Keeps (
                      Keeps-wait_bit d D ipaddr_addr (At-Tolerates (Up Interface.ap)) ap_start_bit))
                    (λ b. Triple-Keeps (
                      Keeps-ap_started d D ipaddr_addr (At-Tolerates (Up Interface.ap)) ip dns
                        b))))))))

  pub Triple-wifi_sta :
      (cfg : SsidCfg)
      → Triple {S = WifiLib N}
          (At Single)
          (wifi_sta d D ipaddr_addr cfg)
          (λ _. At (Up Interface.sta))
  unfolding wifi_sta
  Triple-wifi_sta cfg = Triple-bind (Triple-must d Single Call.stop refl) (λ _.
      Triple-bind (Triple-destroy_net_if d) (λ _. Triple-bind (Triple-wifi_set_sta d cfg) (λ k.
        Triple-bind (Triple-set_net_if d Interface.sta k) (λ _.
          Triple-bind (Triple-must d (Up Interface.sta) Call.start refl) (λ _.
            Triple-bind
              (Triple-Keeps
                (Keeps-wait_bit d D ipaddr_addr (At-Tolerates (Up Interface.sta)) sta_start_bit))
              (λ b. Triple-Keeps (
                Keeps-sta_started d D ipaddr_addr (At-Tolerates (Up Interface.sta)) k.number
                  b)))))))

  pub Single-Up :
      (i : Interface) {m : Exec (WifiLib N) (Unit {0})}
      → Triple (At Single) m (λ _. At (Up i))
      → Triple (At Single) m (λ _. At Single)
  Single-Up i t = Triple-after t (λ _ s u. inr (i, u))

  read :
      {A : Type 0} (m : Exec (Store N) A)
      → Triple {S = WifiLib N} (At Single) (on_flash m) (λ _. At Single)
  read m = Triple-Keeps (Keeps-on_flash d (At-Tolerates Single) m)

  Triple-set_mode_ap :
      (junk : SsidCfg)
      → Triple {S = WifiLib N} (At Single) (set_mode_ap d D ipaddr_addr junk) (λ _. At Single)
  unfolding set_mode_ap
  Triple-set_mode_ap junk = Triple-bind (read (wifi_nvs_get_ssid_ap_cfg N D junk)) (λ cfg.
      Triple-bind (read (wifi_nvs_get_ap_channel N D)) (λ channel.
        Triple-bind (read (wifi_nvs_get_static_ip_info N D ipaddr_addr)) (λ ip.
          Triple-bind (read (wifi_nvs_get_dns_servers N D ipaddr_addr))
            (λ dns. Single-Up Interface.ap (Triple-wifi_ap cfg channel ip dns)))))

  Triple-set_mode_sta :
      (junk : SsidCfg)
      → Triple {S = WifiLib N} (At Single) (set_mode_sta d D ipaddr_addr junk) (λ _. At Single)
  unfolding set_mode_sta
  Triple-set_mode_sta junk =
      Triple-bind (read (wifi_nvs_get_ssid_sta_cfg N D junk))
        (λ cfg. Single-Up Interface.sta (Triple-wifi_sta cfg))

  pub Triple-wifi_set_mode :
      (junk : SsidCfg) (mode : ℤ)
      → Triple {S = WifiLib N}
          (At Single)
          (wifi_set_mode d D ipaddr_addr junk mode)
          (λ _. At Single)
  unfolding wifi_set_mode
  Triple-wifi_set_mode junk mode =
      Triple-bind
        (Triple-if (eq_ℤ mode (pos 2)) (Triple-set_mode_ap junk)
          (Triple-if (eq_ℤ mode (pos 1)) (Triple-set_mode_sta junk) (Triple-pure tt (λ s p. p))))
        (λ _.
          Triple-bind
            (Triple-Keeps
              (Keeps-wifi_get_ip d D ipaddr_addr (At-Tolerates Single) (replicate 50 0) 50))
            (λ _. Triple-pure tt (λ s p. p)))

  pub Triple-step :
      (x : Step) → Triple {S = WifiLib N} (At Single) (step d D ipaddr_addr x) (λ _. At Single)
  unfolding step wifi_conf_set_static_ip
  Triple-step (to_mode junk mode) = Triple-wifi_set_mode junk mode
  Triple-step (to_ap cfg channel ip dns) =
      Single-Up Interface.ap (Triple-wifi_ap cfg channel ip dns)
  Triple-step (to_sta cfg) = Single-Up Interface.sta (Triple-wifi_sta cfg)
  Triple-step (to_static_ip ip) = Triple-Keeps (
      Keeps-wifi_conf_static_ip d D ipaddr_addr (At-Tolerates Single) ip
        (record { primary_dns = 2 ^ 32 - 1; secondery_dns = 2 ^ 32 - 1 }))
  Triple-step (on_wifi e) = Triple-Keeps (Keeps-wifi_event_handler d (At-Tolerates Single) e)
  Triple-step (on_ip e) = Triple-Keeps (Keeps-ip_event_handler d (At-Tolerates Single) e)

  Triple-steps :
      (xs : List Step)
      → Triple {S = WifiLib N} (At Single) (steps d D ipaddr_addr xs) (λ _. At Single)
  unfolding steps
  Triple-steps [] = Triple-pure tt (λ s p. p)
  Triple-steps (x ∷ xs) = Triple-bind (Triple-step x) (λ _. Triple-steps xs)

  -- Where `wifi_ap` returns, from a state with one interface at most, one interface lives, it is the access
  -- point that the variable holds, and the driver's mode is that of an access point.
  pub wifi_ap-Up :
      (cfg : SsidCfg) (channel : ℕ) (ip : IpInfo) (dns : DnsServers) (s : WifiLib N)
      → At Single s
      → Ends (λ _. At (Up Interface.ap)) (wifi_ap d D ipaddr_addr cfg channel ip dns s)
  wifi_ap-Up cfg channel ip dns = (Triple-wifi_ap cfg channel ip dns).ends

  -- Where `wifi_sta` returns, from a state with one interface at most, one interface lives, it is the
  -- station that the variable holds, and the driver's mode is that of a station.
  pub wifi_sta-Up :
      (cfg : SsidCfg) (s : WifiLib N)
      → At Single s
      → Ends (λ _. At (Up Interface.sta)) (wifi_sta d D ipaddr_addr cfg s)
  wifi_sta-Up cfg = (Triple-wifi_sta cfg).ends

  -- Whatever the steps are, and whatever ESP-IDF answers: from a state with one interface at most, a run that
  -- returns leaves one at most, which is the one of the variable and fits the driver's mode.
  pub steps-Single :
      (xs : List Step) (s : WifiLib N)
      → At Single s
      → Ends (λ _. At Single) (steps d D ipaddr_addr xs s)
  steps-Single xs = (Triple-steps xs).ends
