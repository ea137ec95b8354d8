-- ===== src/Wifi/Modes/Start.antt =====
-- The start of the library keeps to one network interface.
use wifi_sniffer.Prelude.{ℕ, ◌≡◌, refl, ap, ◌∙◌, none, some, Option, length, List, true}
use wifi_sniffer.Prelude.Bytes.{Bytes}
use wifi_sniffer.Prelude.Results.{pure, ◌>>◌}
use wifi_sniffer.Prelude.Keeps.{Keeps, Keeps-bind, Keeps-pure, Keeps-gets, Keeps-modify, Keeps-if}
use wifi_sniffer.Prelude.Triples.{Triple, Triple-bind, Triple-pure, Triple-gets, Triple-Keeps}
use wifi_sniffer.Nvs.Api.{NvsApi}
use wifi_sniffer.Wifi.Settings.{Defaults, SsidCfg, wifi_nvs_get_mode}
use wifi_sniffer.Wifi.Driver.{Call, Driver, Netif, WifiLib, called, must}
use wifi_sniffer.Wifi.Events.{wifi_lib_start_event_loop, wifi_lib_register_event_handler}
use wifi_sniffer.Wifi.Events.Laws.{nothing, effect, Keeps-on_flash, Keeps-must}
use wifi_sniffer.Wifi.Connection.{wifi_get_mac, get_mac_of}
use wifi_sniffer.Wifi.Connection.Single.{At, Single, At-Tolerates}
use wifi_sniffer.Wifi.Modes.{wifi_init, config_wifi_init}
use wifi_sniffer.Wifi.Modes.Laws.{Triple-wifi_set_mode}

module _ {N : NvsApi} (d : Driver) (D : Defaults) (ipaddr_addr : Bytes → ℕ) where
  need : (c : Call) → effect c ≡ nothing → Keeps (At {N = N} Single) (must d c)
  need c h = Keeps-must d (At-Tolerates Single) c h

  Keeps-wifi_init : Keeps (At {N = N} Single) (wifi_init d D ipaddr_addr)
  unfolding wifi_init wifi_lib_start_event_loop wifi_lib_register_event_handler
  Keeps-wifi_init =
      Keeps-bind
        (Keeps-bind (need Call.loop_create refl)
          (λ _. Keeps-modify (λ s. record s { event_loop_handle = true }) (λ s p. p)))
        (λ _.
          Keeps-bind
            (Keeps-bind (Keeps-gets (λ s. s.event_loop_handle)) (λ handle.
              Keeps-if handle
                (Keeps-bind (need Call.register_handler refl)
                  (λ _. Keeps-modify (λ s. record s { handler_registered = true }) (λ s p. p)))
                (Keeps-pure tt)))
            (λ _. Keeps-bind (need Call.netif_init refl) (λ _.
              Keeps-bind (need Call.loop_create_default refl) (λ _.
                Keeps-bind (Keeps-modify (called Call.group_create) (λ s p. p)) (λ _.
                  Keeps-bind (need Call.register_wifi refl) (λ _.
                    Keeps-bind (need Call.register_ip refl) (λ _.
                      Keeps-bind (need Call.init refl) (λ _.
                        Keeps-bind (need Call.set_ps refl) (λ _. need Call.set_storage refl)))))))))

  pub Triple-config_wifi_init :
      (junk : SsidCfg)
      → Triple {S = WifiLib N} (At Single) (config_wifi_init d D ipaddr_addr junk) (λ _. At Single)
  unfolding config_wifi_init
  Triple-config_wifi_init junk = Triple-bind (Triple-Keeps Keeps-wifi_init) (λ _.
      Triple-bind (Triple-Keeps (Keeps-on_flash d (At-Tolerates Single) (wifi_nvs_get_mode N D)))
        (λ mode. Triple-wifi_set_mode d D ipaddr_addr junk mode))

  module _ (octets : (cs : List Call) (n : ℕ) → length (d.netif_mac cs n) ≡ 6) where
    known :
        (n : ℕ) (m : Bytes)
        → length m ≡ 6
        → Triple {S = WifiLib N}
            (At Single)
            (must d (Call.netif_get_mac n) >> pure m)
            (λ r s. (length r ≡ 6) × At Single s)
    known n m six =
        Triple-bind (Triple-Keeps (need (Call.netif_get_mac n) refl))
          (λ _. Triple-pure m (λ s p. (six, p)))

    Triple-get_mac_of :
        (o : Option Netif) (mac : Bytes)
        → length mac ≡ 6
        → Triple {S = WifiLib N}
            (At Single)
            (get_mac_of d o mac)
            (λ m s. (length m ≡ 6) × At Single s)
    Triple-get_mac_of none mac six = Triple-pure mac (λ s p. (six, p))
    Triple-get_mac_of (some n) mac six =
        Triple-bind (Triple-gets (λ s. d.netif_mac s.calls n.number)) (λ m. record {
          ends = λ s p. (known n.number m (ap length p.1 ∙ octets s.calls n.number)).ends s p.0;
        })

    -- Six octets, as esp_netif tells them or as they were.
    pub Triple-wifi_get_mac :
        (mac : Bytes)
        → length mac ≡ 6
        → Triple {S = WifiLib N}
            (At Single)
            (wifi_get_mac d mac)
            (λ m s. (length m ≡ 6) × At Single s)
    unfolding wifi_get_mac
    Triple-wifi_get_mac mac six =
        Triple-bind (Triple-Keeps (Keeps-gets (λ s. s.net_if)))
          (λ netif. Triple-get_mac_of netif mac six)
