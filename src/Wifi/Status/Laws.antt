-- ===== src/Wifi/Status/Laws.antt =====
-- The name that the library tells of.
use wifi_sniffer.Prelude.{
  ℕ, ◌≡◌, refl, Bool, true, false, Option, none, some, ◌∷◌, replicate, if◌then◌else◌,
}
use wifi_sniffer.Prelude.Int.{pos}
use wifi_sniffer.Prelude.Text.{text_at}
use wifi_sniffer.Prelude.Bytes.{Bytes, memcpy}
use wifi_sniffer.Prelude.Results.{Err, done, aborted}
use wifi_sniffer.Prelude.Keeps.{Returns, Keeps, Keeps-bind, Keeps-pure, Keeps-gets, Keeps-checked}
use wifi_sniffer.Nvs.Api.{NvsApi, Got, got, failed}
use wifi_sniffer.Wifi.Driver.{Call, Driver, Netif, WifiLib}
use wifi_sniffer.Wifi.Events.Laws.{Tolerates, Keeps-must}
use wifi_sniffer.Wifi.Modes.StaticIp.{accepting}
use wifi_sniffer.Wifi.Status.{
  Air, WifiMode, mode_ap, mode_sta, mode_other, WifiLibCfg, mode_and_name, joined_name, address_of,
  wifi_lib_get_config, wifi_lib_get_curr_config, must_get, current_channel,
}

module _ {N : NvsApi} (d : Driver) where
  -- As a station that has left its access point, on a driver that answers all else: the address and the
  -- channel are told, and the name is 32 spaces with no terminating zero.
  pub wifi_lib_get_curr_config_left :
      (air : Air) (junk : WifiLibCfg) (netif : Netif) (conf : Bytes) (e : Err) (c : ℕ)
      (s : WifiLib N)
      → s.net_if ≡ some netif
      → air.mode ≡ got mode_sta
      → air.sta_ssid ≡ got conf
      → air.joined ≡ failed e
      → air.channel ≡ got c
      → (cfg : WifiLibCfg) × (t : WifiLib N) × (wifi_lib_get_curr_config (accepting d) air junk s
          ≡ done cfg t)
        × (cfg.wifi_lib_mode ≡ pos 1)
        × (cfg.channel ≡ c)
        × (cfg.ip ≡ (d.ip_info s.calls netif.number).ip)
        × (text_at cfg.ssid_name ≡ none)
  unfolding wifi_lib_get_curr_config wifi_lib_get_config mode_and_name address_of
  wifi_lib_get_curr_config_left air junk netif conf e c s up mode sta left channel = (
    record {
      mac = d.netif_mac (Call.get_ip_info netif.number ∷ s.calls) netif.number;
      wifi_lib_mode = pos 1;
      ip = (d.ip_info s.calls netif.number).ip;
      ssid_name = replicate 32 32;
      channel = c;
    },
    record s { calls = Call.netif_get_mac netif.number ∷ Call.get_ip_info netif.number ∷ s.calls },
    rw (up, mode, sta, left, channel) refl,
    refl,
    refl,
    refl,
    refl,
  )

  module _ (air : Air) {P : WifiLib N → Type 0} (T : Tolerates P) where
    Keeps-must_get : {A : Type 0} (g : Got A) → Keeps P (must_get d air g)
    Keeps-must_get (got a) = record { keeps = λ s p. p }
    Keeps-must_get (failed e) = record { keeps = λ s p. p }

    Keeps-mode_and_name : (m : WifiMode) (cfg : WifiLibCfg) → Keeps P (mode_and_name d air m cfg)
    unfolding mode_and_name
    Keeps-mode_and_name mode_ap cfg = Keeps-bind (Keeps-must_get air.ap_ssid) (λ conf.
        Keeps-bind (Keeps-checked (memcpy (replicate 32 0) conf 32)) (λ name. Keeps-pure _))
    Keeps-mode_and_name mode_sta cfg =
        Keeps-bind (Keeps-must_get air.sta_ssid)
          (λ conf. Keeps-bind (name air.joined) (λ name. Keeps-pure _))
      where
        name : (g : Got Bytes) → Keeps P (joined_name d air g)
        name (failed e) = Keeps-pure (replicate 32 32)
        name (got ssid) = Keeps-checked (memcpy (replicate 32 0) ssid 32)
    Keeps-mode_and_name (mode_other _) cfg = Keeps-pure cfg

    Keeps-address_of : (netif : Netif) (cfg : WifiLibCfg) → Keeps P (address_of d air netif cfg)
    unfolding address_of
    Keeps-address_of netif cfg = Keeps-bind (channel air.channel) (λ c.
        Keeps-bind (Keeps-gets (λ s. d.ip_info s.calls netif.number)) (λ i.
          Keeps-bind (Keeps-must d T (Call.get_ip_info netif.number) refl) (λ _.
            Keeps-bind (Keeps-gets (λ s. d.netif_mac s.calls netif.number)) (λ m.
              Keeps-bind (Keeps-must d T (Call.netif_get_mac netif.number) refl)
                (λ _. Keeps-pure (record cfg { channel = c; ip = i.ip; mac = m }))))))
      where
        channel : (g : Got ℕ) → Keeps P (current_channel d air g)
        channel (got c) = record { keeps = λ s p. p }
        channel (failed e) = record { keeps = λ s p. stopped (air.wifi_stopped e) s p }
          where
            stopped :
                (b : Bool) (s : WifiLib N)
                → P s
                → Returns {A = ℕ} P (if b then done 0 s else aborted e s)
            stopped true s p = p
            stopped false s p = p

    pub Keeps-wifi_lib_get_curr_config :
        (junk : WifiLibCfg) → Keeps P (wifi_lib_get_curr_config d air junk)
    unfolding wifi_lib_get_curr_config wifi_lib_get_config
    Keeps-wifi_lib_get_curr_config junk = Keeps-bind (Keeps-gets (λ s. s.net_if)) config
      where
        config : (o : Option Netif) → Keeps P (wifi_lib_get_config d air junk o)
        config none = Keeps-pure _
        config (some netif) =
            Keeps-bind (Keeps-must_get air.mode)
              (λ m. Keeps-bind (Keeps-mode_and_name m junk) (λ cfg. Keeps-address_of netif cfg))
