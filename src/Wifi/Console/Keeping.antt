-- ===== src/Wifi/Console/Keeping.antt =====
-- The commands keep to one network interface.
use wifi_sniffer.Prelude.{ℕ, ◌-◌, ◌^◌, Option, none, some, replicate}
use wifi_sniffer.Prelude.Int.{ℤ, pos, eq_ℤ}
use wifi_sniffer.Prelude.Bytes.{Bytes}
use wifi_sniffer.Prelude.Text.{text_at, strncpy}
use wifi_sniffer.Prelude.Results.{Exec}
use wifi_sniffer.Prelude.Keeps.{Keeps, Keeps-pure, Keeps-checked, Keeps-bind, Keeps-if}
use wifi_sniffer.Prelude.Triples.{Triple, Triple-bind, Triple-Keeps, Triple-checked}
use wifi_sniffer.Nvs.Api.{NvsApi, Store}
use wifi_sniffer.Wifi.Settings.{
  Defaults, IpInfo, SsidCfg, is_valid_ip, convert_to_ssid_cfg, wifi_nvs_get_mode,
  wifi_nvs_get_ap_ssid, wifi_nvs_get_ap_ssid_pw, wifi_nvs_get_ap_channel, wifi_nvs_get_sta_ssid,
  wifi_nvs_get_sta_ssid_pw,
}
use wifi_sniffer.Wifi.Address.{wifi_nvs_get_static_ip_info, wifi_nvs_get_dns_servers}
use wifi_sniffer.Wifi.Driver.{Interface, Driver, WifiLib, on_flash}
use wifi_sniffer.Wifi.Events.Laws.{Keeps-on_flash}
use wifi_sniffer.Wifi.Connection.Single.{At, Single, At-Tolerates}
use wifi_sniffer.Wifi.Modes.Laws.{Single-Up, Triple-wifi_ap, Triple-wifi_sta}
use wifi_sniffer.Wifi.Modes.Keeping.{Keeps-wifi_conf_static_ip}
use wifi_sniffer.Wifi.Modes.{wifi_conf_set_static_ip}
use wifi_sniffer.Wifi.Console.{
  text_or, channel_or, set_ip_to, convert_to_ip, console_wifi_exec_set_ap,
  console_wifi_exec_set_sta, console_wifi_set_ip_ip_arg,
}

module _ {N : NvsApi} (d : Driver) (D : Defaults) (ipaddr_addr : Bytes → ℕ) where
  flash : {A : Type 0} (m : Exec (Store N) A) → Keeps (At {N = N} Single) (on_flash m)
  flash m = Keeps-on_flash d (At-Tolerates Single) m

  Keeps-text_or :
      (arg : Option Bytes) (size : ℕ) (saved : Bytes → ℕ → Exec (Store N) Bytes)
      → Keeps (At {N = N} Single) (text_or d D ipaddr_addr arg size saved)
  Keeps-text_or (some value) size saved = Keeps-checked (strncpy (replicate size 0) value size)
  Keeps-text_or none size saved = flash (saved (replicate size 0) size)

  Keeps-channel_or : (arg : Option ℤ) → Keeps (At {N = N} Single) (channel_or d D ipaddr_addr arg)
  Keeps-channel_or (some ch) = Keeps-pure _
  Keeps-channel_or none = flash (wifi_nvs_get_ap_channel N D)

  pub Triple-exec_set_ap :
      (junk : SsidCfg) (ssid password : Option Bytes) (channel : Option ℤ)
      → Triple {S = WifiLib N}
          (At Single)
          (console_wifi_exec_set_ap d D ipaddr_addr junk ssid password channel)
          (λ _. At Single)
  unfolding console_wifi_exec_set_ap
  Triple-exec_set_ap junk ssid password channel =
      Triple-bind (Triple-Keeps (Keeps-text_or ssid 32 (wifi_nvs_get_ap_ssid N D))) (λ name.
        Triple-bind (Triple-Keeps (Keeps-text_or password 64 (wifi_nvs_get_ap_ssid_pw N D))) (λ pw.
          Triple-bind (Triple-checked (convert_to_ssid_cfg name 32 pw 64 junk)) (λ cfg.
            Triple-bind (Triple-Keeps (Keeps-channel_or channel)) (λ ch.
              Triple-bind (Triple-Keeps (flash (wifi_nvs_get_static_ip_info N D ipaddr_addr)))
                (λ ip.
                  Triple-bind (Triple-Keeps (flash (wifi_nvs_get_dns_servers N D ipaddr_addr)))
                    (λ dns.
                      Single-Up d D ipaddr_addr Interface.ap
                        (Triple-wifi_ap d D ipaddr_addr cfg ch ip dns)))))))

  pub Triple-exec_set_sta :
      (junk : SsidCfg) (ssid password : Option Bytes)
      → Triple {S = WifiLib N}
          (At Single)
          (console_wifi_exec_set_sta d D ipaddr_addr junk ssid password)
          (λ _. At Single)
  unfolding console_wifi_exec_set_sta
  Triple-exec_set_sta junk ssid password =
      Triple-bind (Triple-Keeps (Keeps-text_or ssid 32 (wifi_nvs_get_sta_ssid N D))) (λ name.
        Triple-bind (Triple-Keeps (Keeps-text_or password 64 (wifi_nvs_get_sta_ssid_pw N D))) (λ pw.
          Triple-bind (Triple-checked (convert_to_ssid_cfg name 32 pw 64 junk))
            (λ cfg. Single-Up d D ipaddr_addr Interface.sta (Triple-wifi_sta d D ipaddr_addr cfg))))

  Keeps-set_ip_to : (ip : IpInfo) → Keeps (At {N = N} Single) (set_ip_to d D ipaddr_addr ip)
  unfolding set_ip_to wifi_conf_set_static_ip
  Keeps-set_ip_to ip =
      Keeps-if (is_valid_ip ip.ip)
        (Keeps-wifi_conf_static_ip d D ipaddr_addr (At-Tolerates Single) ip
          (record { primary_dns = 2 ^ 32 - 1; secondery_dns = 2 ^ 32 - 1 }))
        (Keeps-pure tt)

  pub Keeps-set_ip_ip_arg :
      (arg : Option Bytes)
      → Keeps (At {N = N} Single) (console_wifi_set_ip_ip_arg d D ipaddr_addr arg)
  unfolding console_wifi_set_ip_ip_arg
  Keeps-set_ip_ip_arg none = Keeps-pure tt
  Keeps-set_ip_ip_arg (some value) = Keeps-bind (flash (wifi_nvs_get_mode N D)) (λ mode.
      Keeps-if (eq_ℤ mode (pos 2))
        (Keeps-bind (Keeps-checked (text_at value))
          (λ text. Keeps-set_ip_to (convert_to_ip N D ipaddr_addr text)))
        (Keeps-pure tt))
