-- ===== src/Wifi/Address.antt =====
-- Esp32Sniffer/components/wifi_lib/wifi_lib_nvs.c: the static address and the name servers in flash.
-- `ipaddr_addr` is lwIP's, over the characters of a text.
pub mod Laws
use wifi_sniffer.Prelude.{
  ℕ, String, Bool, true, false, not, ◌&&◌, Option, none, some, [], ◌∷◌, ◌==◌, ltb, length,
  replicate, if◌then◌else◌,
}
use wifi_sniffer.Prelude.Bytes.{Bytes}
use wifi_sniffer.Prelude.Text.{text_at}
use wifi_sniffer.Prelude.Results.{Err, Exec, pure, checked, error_check, ◌>>=◌, ◌>>◌}
use wifi_sniffer.Nvs.Api.{NvsApi, Store}
use wifi_sniffer.Nvs.Text.{nvs_get_string, nvs_set_string}
use wifi_sniffer.Wifi.Settings.{
  wifi_ns, address_size, Defaults, IpInfo, DnsServers, is_valid_ip, is_valid_ip_info,
  is_same_ip_info,
}

-- A text argument, as the characters before its terminating zero.
module _ (N : NvsApi) (D : Defaults) (ipaddr_addr : Bytes → ℕ) where
  unfoldable pub convert_to_ip_info : Bytes → Bytes → Bytes → IpInfo
  convert_to_ip_info ip_address netmask gw = record {
    ip = ipaddr_addr ip_address;
    netmask = ipaddr_addr netmask;
    gw = ipaddr_addr gw;
  }

  unfoldable pub convert_to_dns_servers : Bytes → Bytes → DnsServers
  convert_to_dns_servers primary_dns second_dns = record {
    primary_dns = ipaddr_addr primary_dns;
    secondery_dns = ipaddr_addr second_dns;
  }

  -- A local array of ADDRESS_SZ characters, filled by `nvs_get_string`, as a text.
  get_address : String → Bytes → Exec (Store N) Bytes
  get_address key def = do
    (e, v) ← nvs_get_string N wifi_ns key (replicate address_size 0) def address_size
    error_check e
    checked (text_at v)

  unfoldable pub wifi_nvs_get_static_ip_info : Exec (Store N) IpInfo
  unfolding get_address convert_to_ip_info
  wifi_nvs_get_static_ip_info = do
    ip_address ← get_address "ip" D.ip_addr
    netmask ← get_address "netmask" D.netmask_addr
    gw ← get_address "gw" D.gw_addr
    pure (convert_to_ip_info ip_address netmask gw)

  save_text : String → Bytes → Exec (Store N) (Unit {0})
  save_text key value = do e ← nvs_set_string N wifi_ns key value; error_check e

  save_static_ip_info : Bytes → Bytes → Bytes → Exec (Store N) (Unit {0})
  unfolding save_text
  save_static_ip_info ip_address netmask gw = do
    save_text "ip" ip_address
    save_text "netmask" netmask
    save_text "gw" gw

  -- What is done with the comparison's result.
  save_if_other : Bool → Bytes → Bytes → Bytes → Exec (Store N) (Unit {0})
  unfolding save_static_ip_info
  save_if_other true ip_address netmask gw = pure tt
  save_if_other false ip_address netmask gw = save_static_ip_info ip_address netmask gw

  unfoldable pub wifi_nvs_set_static_ip_info : Bytes → Bytes → Bytes → Exec (Store N) (Unit {0})
  unfolding wifi_nvs_get_static_ip_info save_if_other convert_to_ip_info is_valid_ip_info
      is_same_ip_info
  wifi_nvs_set_static_ip_info ip_address netmask gw =
      let info = convert_to_ip_info ip_address netmask gw in
      if is_valid_ip_info info
      then (wifi_nvs_get_static_ip_info >>= λ prev.
          save_if_other (is_same_ip_info info prev) ip_address netmask gw)
      else pure tt

  unfoldable pub wifi_nvs_set_static_ip : Bytes → Exec (Store N) (Unit {0})
  unfolding wifi_nvs_set_static_ip_info
  wifi_nvs_set_static_ip ip_address =
      wifi_nvs_set_static_ip_info ip_address
        (b'2' ∷ b'5' ∷ b'5' ∷ b'.' ∷ b'2' ∷ b'5' ∷ b'5' ∷ b'.' ∷ b'2' ∷ b'5' ∷ b'5' ∷ b'.' ∷ b'0'
          ∷ [])
        ip_address

  unfoldable pub wifi_nvs_get_dns_servers : Exec (Store N) DnsServers
  unfolding get_address convert_to_dns_servers
  wifi_nvs_get_dns_servers = do
    primary_dns ← get_address "dns1" D.main_dns
    second_dns ← get_address "dns2" D.backup_dns
    pure (convert_to_dns_servers primary_dns second_dns)

  -- A server is saved if its text is not empty, its address is valid, and it is another than before.
  save_dns_server : String → Bytes → ℕ → ℕ → Exec (Store N) (Unit {0})
  unfolding save_text
  save_dns_server key text addr prev =
      if ltb 0 (length text) && is_valid_ip addr
      then (if addr == prev then pure tt else save_text key text)
      else pure tt

  unfoldable pub wifi_nvs_set_dns_servers : Bytes → Bytes → Exec (Store N) DnsServers
  unfolding wifi_nvs_get_dns_servers save_dns_server convert_to_dns_servers
  wifi_nvs_set_dns_servers primary_dns second_dns = do
    let info = convert_to_dns_servers primary_dns second_dns
    prev ← wifi_nvs_get_dns_servers
    save_dns_server "dns1" primary_dns info.primary_dns prev.primary_dns
    save_dns_server "dns2" second_dns info.secondery_dns prev.secondery_dns
    pure info
