-- ===== src/Wifi/Modes/StaticIp.antt =====
-- The static address: when it is set, and in which order.
use wifi_sniffer.Prelude.{
  ℕ, ◌≡◌, refl, ◌∙◌, ap, ◌-◌, ◌^◌, ◌&&◌, true, false, some, [], ◌∷◌, ◌++◌, if◌then◌else◌,
}
use wifi_sniffer.Prelude.Int.{pos, eq_ℤ}
use wifi_sniffer.Prelude.Bytes.{Bytes}
use wifi_sniffer.Prelude.Results.{
  Err, Outcome, done, aborted, fault, Exec, pure, error_check, bind_done,
}
use wifi_sniffer.Nvs.Api.{NvsApi, Store}
use wifi_sniffer.Wifi.Settings.{Defaults, IpInfo, DnsServers, is_valid_ip_info, wifi_nvs_get_mode}
use wifi_sniffer.Wifi.Address.{wifi_nvs_set_static_ip_info}
use wifi_sniffer.Wifi.Driver.{got_ip, Call, Driver, Netif, WifiLib, on_flash, ip_text}
use wifi_sniffer.Wifi.Events.{wifi_lib_post_event}
use wifi_sniffer.Wifi.Connection.{wifi_set_dns_server}
use wifi_sniffer.Wifi.Modes.{
  set_static_ip, serve_at, announce_ip, conf_static_ip, wifi_conf_static_ip,
  wifi_conf_set_static_ip, client_stopped,
}

-- A driver that accepts every call.
abbrev pub accepting : Driver → Driver
accepting d = record d { answer = λ _ _. Err.esp_ok }

abbrev no_servers : DnsServers
no_servers = record { primary_dns = 2 ^ 32 - 1; secondery_dns = 2 ^ 32 - 1 }

module _ {N : NvsApi} (d : Driver) (D : Defaults) (ipaddr_addr : Bytes → ℕ) where
  client_stopped_lem :
      (s : WifiLib N) → client_stopped (accepting d) D ipaddr_addr Err.esp_ok s ≡ done tt s
  client_stopped_lem s =
      elim (d.already_stopped Err.esp_ok)
        as (λ b. (if b then pure tt else error_check Err.esp_ok) s ≡ done tt s) [
          | true ↦ refl
          | false ↦ refl
        ]

  pub on_flash_lem :
      {A : Type 0} (m : Exec (Store N) A) (s : WifiLib N) (st : Store N) (a : A)
      → m s.store ≡ done a st
      → on_flash m s ≡ done a (record s { store = st })
  on_flash_lem {A} m s st a h =
      ap
        (λ o. elim o as (λ _. Outcome (WifiLib N) A) [
          | done b t ↦ done b (record s { store = t })
          | aborted e t ↦ aborted e (record s { store = t })
          | fault ↦ fault
        ])
        h

  announce_ip_lem :
      (n : ℕ) (s : WifiLib N)
      → s.event_loop_handle ≡ true
      → announce_ip (accepting d) D ipaddr_addr n no_servers s
        ≡ done tt
            (record s { posted = s.posted ++ (got_ip ∷ []); calls = Call.post_to got_ip ∷ s.calls })
  unfolding announce_ip wifi_lib_post_event wifi_set_dns_server
  announce_ip_lem n s live = rw (live) refl

  -- Where ESP-IDF accepts every call, the mode in flash is that of an access point, the address is valid and
  -- its texts are saved: a static address is set between the end of the DHCP server and its new start, after
  -- the end of the client, and is announced last.
  pub wifi_conf_set_static_ip_lem :
      (n : Netif) (ip : IpInfo) (s : WifiLib N) (st st' : Store N)
      → s.net_if ≡ some n
      → s.event_loop_handle ≡ true
      → is_valid_ip_info ip ≡ true
      → wifi_nvs_get_mode N D s.store ≡ done (pos 2) st
      → wifi_nvs_set_static_ip_info N D ipaddr_addr
          (ip_text ip.ip)
          (ip_text ip.netmask)
          (ip_text ip.gw)
          st
        ≡ done tt st'
      → wifi_conf_set_static_ip (accepting d) D ipaddr_addr ip s
        ≡ done tt (record s {
          store = st';
          posted = s.posted ++ (got_ip ∷ []);
          calls =
              Call.post_to got_ip
              ∷ Call.dhcps_start n.number
              ∷ Call.set_ip_info n.number ip
              ∷ Call.dhcps_stop n.number
              ∷ Call.dhcpc_stop n.number
              ∷ s.calls;
        })
  unfolding wifi_conf_set_static_ip wifi_conf_static_ip conf_static_ip set_static_ip serve_at
  wifi_conf_set_static_ip_lem n ip s st st' net live valid mode saved =
      ap (λ o. conf_static_ip (accepting d) D ipaddr_addr o ip no_servers s) net
      ∙ bind_done (on_flash (wifi_nvs_get_mode N D))
          (λ m.
            if eq_ℤ m (pos 2) && is_valid_ip_info ip
            then set_static_ip (accepting d) D ipaddr_addr n.number ip no_servers
            else pure tt)
          s (record s { store = st }) (pos 2)
          (on_flash_lem (wifi_nvs_get_mode N D) s st (pos 2) mode)
      ∙ ap
          (λ b.
            (if b
                then set_static_ip (accepting d) D ipaddr_addr n.number ip no_servers
                else pure tt)
              (record s { store = st }))
          valid
      ∙ bind_done (client_stopped (accepting d) D ipaddr_addr Err.esp_ok)
          (λ _. serve_at (accepting d) D ipaddr_addr n.number ip no_servers)
          (record s { store = st; calls = Call.dhcpc_stop n.number ∷ s.calls })
          (record s { store = st; calls = Call.dhcpc_stop n.number ∷ s.calls }) tt
          (client_stopped_lem (record s { store = st; calls = Call.dhcpc_stop n.number ∷ s.calls }))
      ∙ bind_done
          (on_flash (
            wifi_nvs_set_static_ip_info N D ipaddr_addr (ip_text ip.ip) (ip_text ip.netmask)
              (ip_text ip.gw)))
          (λ _. announce_ip (accepting d) D ipaddr_addr n.number no_servers) (served st)
          (served st') tt
          (on_flash_lem
            (wifi_nvs_set_static_ip_info N D ipaddr_addr (ip_text ip.ip) (ip_text ip.netmask)
              (ip_text ip.gw))
            (served st) st' tt saved)
      ∙ announce_ip_lem n.number (served st') live
    where
      served : Store N → WifiLib N
      served v = record s {
        store = v;
        calls =
            Call.dhcps_start n.number
            ∷ Call.set_ip_info n.number ip
            ∷ Call.dhcps_stop n.number
            ∷ Call.dhcpc_stop n.number
            ∷ s.calls;
      }
