-- ===== src/Wifi.antt =====
-- Esp32Sniffer/components/wifi_lib: the Wi-Fi connection, its settings in flash and its console commands.
pub mod Settings
pub mod Driver
pub mod Events
pub mod Connection
pub mod Modes
pub mod Status
pub mod Console
pub mod Address
