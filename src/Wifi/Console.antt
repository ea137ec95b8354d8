-- ===== src/Wifi/Console.antt =====
-- Esp32Sniffer/components/wifi_lib/console_wifi_set_ap_cmd.c, console_wifi_set_sta_cmd.c and
-- console_wifi_set_ip_cmd.c: what the commands do with arguments that argtable3 has parsed. An argument that
-- was not given is `none`; a text is what can be read from its pointer on.
pub mod Laws
pub mod Keeping
use wifi_sniffer.Prelude.{
  ℕ, ◌-◌, ◌^◌, String, Bool, true, false, not, Option, none, some, [], ◌∷◌, replicate,
  if◌then◌else◌,
}
use wifi_sniffer.Prelude.Int.{ℤ, pos, eq_ℤ, uint8}
use wifi_sniffer.Prelude.Bytes.{Bytes}
use wifi_sniffer.Prelude.Text.{text_at, strncpy}
use wifi_sniffer.Prelude.Results.{Exec, pure, checked, ◌>>=◌, ◌>>◌}
use wifi_sniffer.Nvs.Api.{NvsApi, Store}
use wifi_sniffer.Wifi.Settings.{
  Defaults, IpInfo, SsidCfg, ssid_size, ssid_pass_size, is_valid_ip, convert_to_ssid_cfg,
  wifi_nvs_get_mode, wifi_nvs_get_ap_ssid, wifi_nvs_get_ap_ssid_pw, wifi_nvs_get_ap_channel,
  wifi_nvs_get_sta_ssid, wifi_nvs_get_sta_ssid_pw,
}
use wifi_sniffer.Wifi.Address.{
  convert_to_ip_info, wifi_nvs_get_static_ip_info, wifi_nvs_get_dns_servers,
}
use wifi_sniffer.Wifi.Driver.{Driver, WifiLib, on_flash}
use wifi_sniffer.Wifi.Modes.{wifi_ap, wifi_sta, wifi_conf_set_static_ip}

module _ (N : NvsApi) (D : Defaults) (ipaddr_addr : Bytes → ℕ) where
  -- `convert_to_ip`, of wifi_lib_nvs.c: the netmask of a class C network, and the address itself as the gateway.
  unfoldable pub convert_to_ip : Bytes → IpInfo
  unfolding convert_to_ip_info
  convert_to_ip ip_address =
      convert_to_ip_info N D ipaddr_addr ip_address
        (b'2' ∷ b'5' ∷ b'5' ∷ b'.' ∷ b'2' ∷ b'5' ∷ b'5' ∷ b'.' ∷ b'2' ∷ b'5' ∷ b'5' ∷ b'.' ∷ b'0'
          ∷ [])
        ip_address

module _ {N : NvsApi} (d : Driver) (D : Defaults) (ipaddr_addr : Bytes → ℕ) where
  -- The local array, from the argument or from flash.
  abbrev pub text_or :
      Option Bytes → ℕ → (Bytes → ℕ → Exec (Store N) Bytes) → Exec (WifiLib N) Bytes
  text_or (some value) size saved = checked (strncpy (replicate size 0) value size)
  text_or none size saved = on_flash (saved (replicate size 0) size)

  abbrev channel_or : Option ℤ → Exec (WifiLib N) ℕ
  channel_or (some ch) = pure (uint8 ch)
  channel_or none = on_flash (wifi_nvs_get_ap_channel N D)

  unfoldable pub console_wifi_exec_set_ap :
      SsidCfg → Option Bytes → Option Bytes → Option ℤ → Exec (WifiLib N) (Unit {0})
  unfolding wifi_ap convert_to_ssid_cfg
  console_wifi_exec_set_ap junk ssid_arg password_arg channel_arg = do
    ssid ← text_or ssid_arg ssid_size (wifi_nvs_get_ap_ssid N D)
    password ← text_or password_arg ssid_pass_size (wifi_nvs_get_ap_ssid_pw N D)
    ssid_cfg ← checked (convert_to_ssid_cfg ssid ssid_size password ssid_pass_size junk)
    ch ← channel_or channel_arg
    ip ← on_flash (wifi_nvs_get_static_ip_info N D ipaddr_addr)
    dns ← on_flash (wifi_nvs_get_dns_servers N D ipaddr_addr)
    wifi_ap d D ipaddr_addr ssid_cfg ch ip dns

  unfoldable pub console_wifi_exec_set_sta :
      SsidCfg → Option Bytes → Option Bytes → Exec (WifiLib N) (Unit {0})
  unfolding wifi_sta convert_to_ssid_cfg
  console_wifi_exec_set_sta junk ssid_arg password_arg = do
    ssid ← text_or ssid_arg ssid_size (wifi_nvs_get_sta_ssid N D)
    password ← text_or password_arg ssid_pass_size (wifi_nvs_get_sta_ssid_pw N D)
    ssid_cfg ← checked (convert_to_ssid_cfg ssid ssid_size password ssid_pass_size junk)
    wifi_sta d D ipaddr_addr ssid_cfg

  unfoldable set_ip_to : IpInfo → Exec (WifiLib N) (Unit {0})
  unfolding wifi_conf_set_static_ip
  set_ip_to ip = if is_valid_ip ip.ip then wifi_conf_set_static_ip d D ipaddr_addr ip else pure tt

  unfoldable pub console_wifi_set_ip_ip_arg : Option Bytes → Exec (WifiLib N) (Unit {0})
  unfolding set_ip_to convert_to_ip
  console_wifi_set_ip_ip_arg none = pure tt
  console_wifi_set_ip_ip_arg (some value) = do
    mode ← on_flash (wifi_nvs_get_mode N D)
    if eq_ℤ mode (pos 2)
        then (checked (text_at value) >>= λ text. set_ip_to (convert_to_ip N D ipaddr_addr text))
        else pure tt
