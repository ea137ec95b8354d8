-- ===== src/Nvs.antt =====
-- Esp32Sniffer/components/nvs_lib/nvs_lib.c: numbers, strings and byte arrays in flash, over the
-- key-value store of ESP-IDF, which `Nvs.Api` takes as a parameter.
pub mod Api
pub mod Num
pub mod Array
pub mod Text
pub mod Parse
pub mod Flash
pub mod Entries
pub mod Format
pub mod Memory
