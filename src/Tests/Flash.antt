-- ===== src/Tests/Flash.antt =====
-- Runs of what stands on the flash, over a flash in memory.
use wifi_sniffer.Prelude.{
  ◌+◌, ◌&&◌, ◌≡◌, refl, ◌⊎◌, ◌↔◌, true, false, [], ◌∷◌, ◌++◌, arith, length, take, drop, replicate,
  if◌then◌else◌,
}
use wifi_sniffer.Prelude.Int.{pos, negsuc}
use wifi_sniffer.Prelude.Bytes.{Bytes}
use wifi_sniffer.Prelude.Text.{strncpy}
use wifi_sniffer.Prelude.Results.{checked, ◌>>◌, Err, Outcome, done, aborted, fault}
use wifi_sniffer.Nvs.Api.{Store}
use wifi_sniffer.Nvs.Memory.{memory_nvs, memory_nvs-IsNvs, empty_store}
use wifi_sniffer.Nvs.Num.{nvs_set_num32i, nvs_get_num32i}
use wifi_sniffer.Nvs.Num.Laws.{nvs_get_num32i-nvs_set_num32i}
use wifi_sniffer.Nvs.Array.{nvs_set_array, nvs_get_array}
use wifi_sniffer.Nvs.Array.Laws.{nvs_get_array-nvs_set_array}
use wifi_sniffer.Nvs.Text.{nvs_set_string, nvs_get_string}
use wifi_sniffer.Nvs.Text.Laws.{nvs_get_string-nvs_set_string}
use wifi_sniffer.Nvs.Parse.{NumParser, nvs_set_num_from_string, refused}
use wifi_sniffer.Nvs.Parse.Laws.{in_range, IsStdlib, nvs_set_num_from_string_lem}
use wifi_sniffer.Nvs.Flash.{nvs_init_flash, InitsTo, nvs_init_flash_returns}
use wifi_sniffer.Nvs.Api.{NvsType, number}
use wifi_sniffer.Nvs.Num.{store_value}
use wifi_sniffer.Wifi.Settings.{Defaults, is_valid_ip_info, wifi_nvs_set_ap_ssid_pw}
use wifi_sniffer.Wifi.Settings.Laws.{read_then_overrun, wifi_nvs_set_ap_ssid_pw_long}
use wifi_sniffer.Wifi.Address.{
  convert_to_ip_info, wifi_nvs_set_static_ip_info, wifi_nvs_get_static_ip_info,
}
use wifi_sniffer.Wifi.Address.Laws.{Holds, wifi_nvs_set_static_ip_info_saves}

abbrev station : Bytes
station = 2 ∷ 4 ∷ 6 ∷ 8 ∷ 10 ∷ 12 ∷ []

abbrev seven_zeros : Bytes
seven_zeros = replicate 7 0

-- The state after an operation on the flash.
abbrev pub after_store : {A : Type 0} → Outcome (Store memory_nvs) A → Store memory_nvs
after_store (done a t) = t
after_store (aborted e t) = t
after_store fault = empty_store

abbrev stored_array : Store memory_nvs
stored_array = after_store (nvs_set_array memory_nvs "ns" "key" station 4 empty_store)

array_stored :
    nvs_set_array memory_nvs "ns" "key" station 4 empty_store ≡ done Err.esp_ok stored_array
unfolding nvs_set_array
array_stored = refl

nvs_get_array-nvs_set_array_example :
    (t : Store memory_nvs) × (nvs_get_array memory_nvs "ns" "key" seven_zeros 0 [] 0 stored_array
      ≡ done (Err.esp_ok, take 4 station ++ drop 4 seven_zeros, 4) t)
    × (t.open_handles ≡ 0)
nvs_get_array-nvs_set_array_example =
    nvs_get_array-nvs_set_array memory_nvs memory_nvs-IsNvs "ns" "key" station 4 seven_zeros 0 [] 0
      empty_store stored_array (omega arith) (omega arith) array_stored

abbrev stored_num : Store memory_nvs
stored_num = after_store (nvs_set_num32i memory_nvs "ns" "rssi" (negsuc 69) empty_store)

num_stored :
    nvs_set_num32i memory_nvs "ns" "rssi" (negsuc 69) empty_store ≡ done Err.esp_ok stored_num
unfolding nvs_set_num32i
num_stored = refl

nvs_get_num32i-nvs_set_num32i_example :
    (t : Store memory_nvs) × (nvs_get_num32i memory_nvs "ns" "rssi" (pos 0) (negsuc 95) stored_num
      ≡ done (Err.esp_ok, negsuc 69) t)
    × (t.open_handles ≡ 0)
nvs_get_num32i-nvs_set_num32i_example =
    nvs_get_num32i-nvs_set_num32i memory_nvs memory_nvs-IsNvs "ns" "rssi" (negsuc 69) (pos 0)
      (negsuc 95) empty_store stored_num num_stored

abbrev stored_text : Store memory_nvs
stored_text = after_store (nvs_set_string memory_nvs "ns" "name" station empty_store)

text_stored :
    nvs_set_string memory_nvs "ns" "name" station empty_store ≡ done Err.esp_ok stored_text
unfolding nvs_set_string
text_stored = refl

nvs_get_string-nvs_set_string_example :
    (t : Store memory_nvs) × (nvs_get_string memory_nvs "ns" "name" seven_zeros [] 0 stored_text
      ≡ done (Err.esp_ok, station ++ 0 ∷ drop (length station + 1) seven_zeros) t)
    × (t.open_handles ≡ 0)
nvs_get_string-nvs_set_string_example =
    nvs_get_string-nvs_set_string memory_nvs memory_nvs-IsNvs "ns" "name" station seven_zeros [] 0
      empty_store stored_text (omega arith) text_stored

-- A parser that takes every text for 300.
abbrev three_hundred : NumParser
three_hundred = record {
  strtol = λ _. (pos 300, false);
  strtoul = λ _. (pos 300, false);
  strtoll = λ _. (pos 300, false);
  strtoull = λ _. (pos 300, false);
}

three_hundred-IsStdlib : IsStdlib three_hundred (λ _. pos 300)
three_hundred-IsStdlib = record {
  long_value = λ _ _. refl;
  long_range = λ _ e. ground arith;
  long_long_value = λ _ _. refl;
  long_long_range = λ _ e. ground arith;
  unsigned_value = λ _ _. refl;
  unsigned_range = λ _ n e h. ground arith;
  unsigned_long_value = λ _ _. refl;
  unsigned_long_range = λ _ n e h. ground arith;
}

nvs_set_num_from_string_lem_example :
    nvs_set_num_from_string memory_nvs three_hundred false "ns" "n" NvsType.u16 station empty_store
    ≡ (if true && in_range NvsType.u16 (pos 300)
        then store_value memory_nvs "ns" "n" (number NvsType.u16 (pos 300)) empty_store
        else refused memory_nvs three_hundred "ns" empty_store)
nvs_set_num_from_string_lem_example =
    nvs_set_num_from_string_lem three_hundred (λ _. pos 300) three_hundred-IsStdlib memory_nvs false
      "ns" "n" NvsType.u16 station empty_store (300, refl)

flash_good : nvs_init_flash memory_nvs empty_store ≡ done tt empty_store
unfolding nvs_init_flash
flash_good = refl

nvs_init_flash_returns_example :
    (nvs_init_flash memory_nvs empty_store ≡ done tt empty_store)
    ↔ ((empty_store.open_handles ≡ 0) × InitsTo memory_nvs empty_store.flash empty_store.flash)
nvs_init_flash_returns_example = nvs_init_flash_returns memory_nvs empty_store empty_store

-- Defaults that can be read as far as they are.
abbrev pub defaults : Defaults
defaults = record {
  wifi_channel = pos 1;
  ap_ssid = replicate 64 0;
  ap_ssid_pw = replicate 64 0;
  sta_ssid = replicate 64 0;
  sta_ssid_pw = replicate 64 0;
  ip_addr = replicate 64 0;
  netmask_addr = replicate 64 0;
  gw_addr = replicate 64 0;
  main_dns = replicate 64 0;
  backup_dns = replicate 64 0;
}

wifi_nvs_set_ap_ssid_pw_long_example :
    wifi_nvs_set_ap_ssid_pw memory_nvs defaults (replicate 40 b'x' ++ 0 ∷ []) 40 empty_store
    ≡ (checked (strncpy (replicate 64 0) (replicate 40 b'x' ++ 0 ∷ []) 64)
          >> read_then_overrun memory_nvs defaults)
        empty_store
wifi_nvs_set_ap_ssid_pw_long_example =
    wifi_nvs_set_ap_ssid_pw_long memory_nvs defaults (replicate 40 b'x' ++ 0 ∷ []) 40 empty_store
      (omega arith)

-- The namespace has been written, and the address that stands there is another.
abbrev pub with_namespace : Store memory_nvs
with_namespace = after_store (nvs_set_string memory_nvs "settings" "ip" [] empty_store)

abbrev saved_address : Store memory_nvs
saved_address =
    after_store (
      wifi_nvs_set_static_ip_info memory_nvs defaults length station station station with_namespace)

address_saved :
    wifi_nvs_set_static_ip_info memory_nvs defaults length station station station with_namespace
    ≡ done tt saved_address
unfolding wifi_nvs_set_static_ip_info nvs_get_string nvs_set_string
address_saved = refl

addresses_valid :
    is_valid_ip_info (convert_to_ip_info memory_nvs defaults length station station station) ≡ true
unfolding is_valid_ip_info convert_to_ip_info
addresses_valid = refl

wifi_nvs_set_static_ip_info_saves_example :
    Holds memory_nvs memory_nvs-IsNvs defaults length station station station saved_address
    ⊎ (wifi_nvs_get_static_ip_info memory_nvs defaults length with_namespace
        ≡ done
            (convert_to_ip_info memory_nvs defaults length station station station)
            saved_address)
wifi_nvs_set_static_ip_info_saves_example =
    wifi_nvs_set_static_ip_info_saves memory_nvs memory_nvs-IsNvs defaults length station station
      station with_namespace saved_address addresses_valid address_saved
