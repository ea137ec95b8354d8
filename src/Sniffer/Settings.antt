-- ===== src/Sniffer/Settings.antt =====
-- Esp32Sniffer/components/wifi_sniffer/wifi_sniffer_nvs.c and include/wifi_sniffer_nvs.h: the filters
-- kept in flash, under the namespace "snif3.conf".
pub mod Laws
use wifi_sniffer.Prelude.{
  ℕ, String, Bool, true, false, not, ◌||◌, Option, none, some, List, [], ◌∷◌, length, replicate,
  ltb, ◌==◌, if◌then◌else◌,
}
use wifi_sniffer.Prelude.Int.{ℤ, negsuc, int8, eq_ℤ}
use wifi_sniffer.Prelude.Bytes.{Bytes, memcmp_eq}
use wifi_sniffer.Prelude.Results.{Exec, pure, checked, error_check, ◌>>=◌, ◌>>◌}
use wifi_sniffer.Nvs.Api.{NvsApi, Store}
use wifi_sniffer.Nvs.Num.{nvs_get_num32i, nvs_set_num32i}
use wifi_sniffer.Nvs.Array.{nvs_get_array, nvs_set_array}
use wifi_sniffer.Nvs.Format.{nvs_bytes_to_hex}

-- `addrFilter_t`: six octets, of which the first `size` count.
pub record AddrFilter : Type 0 where
  pub addr : Bytes
  pub size : ℕ

-- SNIFFER_NS
abbrev pub sniffer_ns : String
sniffer_ns = "snif3.conf"

-- CONFIG_ESP_SNIFFER_FILTER_RSSI, -96
abbrev pub default_rssi : ℤ
default_rssi = negsuc 95

abbrev pub no_filter : AddrFilter
no_filter = record { addr = replicate 6 0; size = 0 }

unfoldable pub addr_filter_to_string : AddrFilter → Bytes → ℕ → Option Bytes
unfolding nvs_bytes_to_hex
addr_filter_to_string f buf sz =
    if ltb 0 f.size then nvs_bytes_to_hex f.addr f.size (b':' ∷ []) 1 buf sz else some buf

module _ (N : NvsApi) where
  unfoldable pub get_filter_mac : String → Exec (Store N) AddrFilter
  get_filter_mac key = do
    (e, addr, size) ←
        nvs_get_array N sniffer_ns key no_filter.addr no_filter.size no_filter.addr no_filter.size
    error_check e
    pure (record { addr = addr; size = size })

  -- `f.size != prev.size || memcmp(...)`: the comparison is made only for equal sizes.
  abbrev is_changed : AddrFilter → AddrFilter → Option Bool
  is_changed f prev =
      if f.size == prev.size
      then elim (memcmp_eq f.addr prev.addr f.size) [ none ↦ none | some b ↦ some (not b) ]
      else some true

  -- What is done with the comparison's result.
  save_if_changed : String → AddrFilter → Bool → Exec (Store N) (Unit {0})
  save_if_changed key f false = pure tt
  save_if_changed key f true = do e ← nvs_set_array N sniffer_ns key f.addr f.size; error_check e

  unfoldable pub set_filter_mac : String → AddrFilter → Exec (Store N) (Unit {0})
  unfolding save_if_changed
  set_filter_mac key f = do
    prev ← get_filter_mac key
    changed ← checked (is_changed f prev)
    save_if_changed key f changed

  -- The number is kept as 32 bits and comes back as `int8_t`; the error code is not looked at.
  unfoldable pub get_filter_rssi : Exec (Store N) ℤ
  get_filter_rssi = do
    (e, rssi) ← nvs_get_num32i N sniffer_ns "rssi" default_rssi default_rssi
    pure (int8 rssi)

  unfoldable pub set_filter_rssi : ℤ → Exec (Store N) (Unit {0})
  set_filter_rssi rssi = do
    prev ← get_filter_rssi
    if eq_ℤ prev rssi
        then pure tt
        else (do e ← nvs_set_num32i N sniffer_ns "rssi" rssi; error_check e)
