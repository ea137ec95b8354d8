-- ===== src/Wifi/Settings.antt =====
-- Esp32Sniffer/components/wifi_lib/wifi_lib_nvs.c: the Wi-Fi settings in flash. The defaults of sdkconfig
-- and lwIP's ipaddr_addr are parameters; a default is what can be read from its pointer on.
pub mod Laws
use wifi_sniffer.Prelude.{
  ℕ, ◌^◌, ◌-◌, ◌%◌, String, Bool, true, false, not, ◌&&◌, ◌||◌, Option, none, some, [], ◌∷◌, ◌==◌,
  ltb, length, replicate, if◌then◌else◌,
}
use wifi_sniffer.Prelude.Int.{ℤ, pos, eq_ℤ, uint8}
use wifi_sniffer.Prelude.Bytes.{Bytes}
use wifi_sniffer.Prelude.Partial.{◌>>=?◌}
use wifi_sniffer.Prelude.Text.{text_at, strlen, strncpy, strncmp_eq}
use wifi_sniffer.Prelude.Results.{Err, Exec, pure, checked, error_check, ◌>>=◌, ◌>>◌}
use wifi_sniffer.Nvs.Api.{NvsApi, Store}
use wifi_sniffer.Nvs.Num.{nvs_get_num32i, nvs_set_num32i}
use wifi_sniffer.Nvs.Text.{nvs_get_string, nvs_set_string}

-- WIFI_NS, SSID_SZ, SSID_PASS_SZ, ADDRESS_SZ
abbrev pub wifi_ns : String
wifi_ns = "settings"

abbrev pub ssid_size : ℕ
ssid_size = 32

abbrev pub ssid_pass_size : ℕ
ssid_pass_size = 64

abbrev pub address_size : ℕ
address_size = 16

-- The CONFIG_ values that come from sdkconfig. WIFI_LIB_MODE_AP is 2.
pub record Defaults : Type 0 where
  pub wifi_channel : ℤ
  pub ap_ssid : Bytes
  pub ap_ssid_pw : Bytes
  pub sta_ssid : Bytes
  pub sta_ssid_pw : Bytes
  pub ip_addr : Bytes
  pub netmask_addr : Bytes
  pub gw_addr : Bytes
  pub main_dns : Bytes
  pub backup_dns : Bytes

-- `esp_netif_ip_info_t`
pub record IpInfo : Type 0 where
  pub ip : ℕ
  pub netmask : ℕ
  pub gw : ℕ

-- `dns_servers_info_t`
pub record DnsServers : Type 0 where
  pub primary_dns : ℕ
  pub secondery_dns : ℕ

-- `ssid_cfg_t`
pub record SsidCfg : Type 0 where
  pub ssid : Bytes
  pub ssid_sz : ℕ
  pub password : Bytes
  pub pass_sz : ℕ

-- IPADDR_NONE is the address of all ones.
abbrev pub is_valid_ip : ℕ → Bool
is_valid_ip addr = not (addr == 2 ^ 32 - 1)

unfoldable pub is_valid_ip_info : IpInfo → Bool
is_valid_ip_info i = is_valid_ip i.ip && is_valid_ip i.netmask && is_valid_ip i.gw

unfoldable pub is_same_ip_info : IpInfo → IpInfo → Bool
is_same_ip_info i j = (i.ip == j.ip) && (i.netmask == j.netmask) && (i.gw == j.gw)

-- The arrays are what stands in memory before the call; they are not set to zero.
unfoldable pub convert_to_ssid_cfg : Bytes → ℕ → Bytes → ℕ → SsidCfg → Option SsidCfg
convert_to_ssid_cfg nvs_ssid nvs_ssid_sz nvs_ssid_pw nvs_ssid_pw_sz c =
    strncpy c.ssid nvs_ssid nvs_ssid_sz >>=? λ ssid. strlen ssid >>=? λ ssid_sz.
    strncpy c.password nvs_ssid_pw nvs_ssid_pw_sz >>=? λ password. strlen password >>=? λ pass_sz.
    some (record {
      ssid = ssid;
      ssid_sz = ssid_sz % 256;
      password = password;
      pass_sz = pass_sz % 256;
    })

module _ (N : NvsApi) (D : Defaults) where
  abbrev zeros : ℕ → Bytes
  zeros n = replicate n 0

  unfoldable pub wifi_nvs_get_mode : Exec (Store N) ℤ
  unfolding nvs_get_num32i
  wifi_nvs_get_mode = do (e, value) ← nvs_get_num32i N wifi_ns "mode" (pos 2) (pos 2); pure value

  abbrev num_if_changed : String → ℤ → ℤ → Exec (Store N) (Unit {0})
  num_if_changed key prev value =
      if eq_ℤ prev value
      then pure tt
      else (do e ← nvs_set_num32i N wifi_ns key value; error_check e)

  unfoldable pub wifi_nvs_set_mode : ℤ → Exec (Store N) ℤ
  unfolding wifi_nvs_get_mode
  wifi_nvs_set_mode value = do
    prev ← wifi_nvs_get_mode
    num_if_changed "mode" prev value
    pure value

  -- The stored number comes back as `uint8_t`.
  unfoldable pub wifi_nvs_get_ap_channel : Exec (Store N) ℕ
  wifi_nvs_get_ap_channel = do
    (e, channel) ← nvs_get_num32i N wifi_ns "ap-channel" D.wifi_channel D.wifi_channel
    pure (uint8 channel)

  unfoldable pub wifi_nvs_set_ap_channel : ℕ → Exec (Store N) (Unit {0})
  unfolding wifi_nvs_get_ap_channel
  wifi_nvs_set_ap_channel channel = do
    prev ← wifi_nvs_get_ap_channel
    num_if_changed "ap-channel" (pos prev) (pos channel)

  -- `wifi_nvs_get_ssid` and `wifi_nvs_get_ssid_pw`: `room` is the size of the local array.
  unfoldable pub get_text : ℕ → String → Bytes → Bytes → ℕ → Exec (Store N) Bytes
  get_text room key value def sz = do
    (e, v) ← nvs_get_string N wifi_ns key (zeros room) def room
    error_check e
    checked (strncpy value v sz)

  -- `if (strncmp(v, prev, sz))`, and what is stored is the text in `v`.
  abbrev text_if_changed : String → Bytes → Bool → Exec (Store N) (Unit {0})
  text_if_changed key v true = pure tt
  text_if_changed key v false = do
    str ← checked (text_at v)
    e ← nvs_set_string N wifi_ns key str
    error_check e

  -- `wifi_nvs_set_ssid` and `wifi_nvs_set_ssid_pw`: `prev` has SSID_SZ octets in both.
  unfoldable pub set_text : ℕ → String → Bytes → ℕ → Bytes → Exec (Store N) (Unit {0})
  unfolding get_text
  set_text room key value sz def = do
    v ← checked (strncpy (zeros room) value room)
    prev ← get_text room key (zeros ssid_size) def sz
    same ← checked (strncmp_eq v prev sz)
    text_if_changed key v same

  unfoldable pub wifi_nvs_set_ap_ssid : Bytes → ℕ → Exec (Store N) (Unit {0})
  unfolding set_text
  wifi_nvs_set_ap_ssid value sz = set_text ssid_size "ap-ssid" value sz D.ap_ssid

  unfoldable pub wifi_nvs_get_ap_ssid : Bytes → ℕ → Exec (Store N) Bytes
  unfolding get_text
  wifi_nvs_get_ap_ssid value sz = get_text ssid_size "ap-ssid" value D.ap_ssid sz

  unfoldable pub wifi_nvs_set_ap_ssid_pw : Bytes → ℕ → Exec (Store N) (Unit {0})
  unfolding set_text
  wifi_nvs_set_ap_ssid_pw value sz = set_text ssid_pass_size "ap-ssid-pw" value sz D.ap_ssid_pw

  unfoldable pub wifi_nvs_get_ap_ssid_pw : Bytes → ℕ → Exec (Store N) Bytes
  unfolding get_text
  wifi_nvs_get_ap_ssid_pw value sz = get_text ssid_pass_size "ap-ssid-pw" value D.ap_ssid_pw sz

  unfoldable pub wifi_nvs_set_sta_ssid : Bytes → ℕ → Exec (Store N) (Unit {0})
  unfolding set_text
  wifi_nvs_set_sta_ssid value sz = set_text ssid_size "sta-ssid" value sz D.sta_ssid

  unfoldable pub wifi_nvs_get_sta_ssid : Bytes → ℕ → Exec (Store N) Bytes
  unfolding get_text
  wifi_nvs_get_sta_ssid value sz = get_text ssid_size "sta-ssid" value D.sta_ssid sz

  unfoldable pub wifi_nvs_set_sta_ssid_pw : Bytes → ℕ → Exec (Store N) (Unit {0})
  unfolding set_text
  wifi_nvs_set_sta_ssid_pw value sz = set_text ssid_pass_size "sta-ssid-pw" value sz D.sta_ssid_pw

  unfoldable pub wifi_nvs_get_sta_ssid_pw : Bytes → ℕ → Exec (Store N) Bytes
  unfolding get_text
  wifi_nvs_get_sta_ssid_pw value sz = get_text ssid_pass_size "sta-ssid-pw" value D.sta_ssid_pw sz

  unfoldable pub wifi_nvs_get_ssid_sta_cfg : SsidCfg → Exec (Store N) SsidCfg
  unfolding wifi_nvs_get_sta_ssid wifi_nvs_get_sta_ssid_pw convert_to_ssid_cfg
  wifi_nvs_get_ssid_sta_cfg c = do
    ssid ← wifi_nvs_get_sta_ssid (zeros ssid_size) ssid_size
    pw ← wifi_nvs_get_sta_ssid_pw (zeros ssid_pass_size) ssid_pass_size
    checked (convert_to_ssid_cfg ssid ssid_size pw ssid_pass_size c)

  unfoldable pub wifi_nvs_get_ssid_ap_cfg : SsidCfg → Exec (Store N) SsidCfg
  unfolding wifi_nvs_get_ap_ssid wifi_nvs_get_ap_ssid_pw convert_to_ssid_cfg
  wifi_nvs_get_ssid_ap_cfg c = do
    ssid ← wifi_nvs_get_ap_ssid (zeros ssid_size) ssid_size
    pw ← wifi_nvs_get_ap_ssid_pw (zeros ssid_pass_size) ssid_pass_size
    checked (convert_to_ssid_cfg ssid ssid_size pw ssid_pass_size c)
