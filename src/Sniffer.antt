-- ===== src/Sniffer.antt =====
-- Esp32Sniffer/components/wifi_sniffer: the sniffer component.
--   Settings  wifi_sniffer_nvs.c, the filters in flash
--   Frames    wifi_sniffer.h and get_seq of wifi_sniffer.c, the headers of 802.11 frames
--   Filter    the address part of the packet handler
--   State     the static variables of wifi_sniffer.c, and what FreeRTOS and the driver answer
--   Control   the setters, the queue, the channels, the tasks
--   Handler   wifi_sniffer_packet_handler
--   Display   what is told of a packet, and filter_packet
--   Console   console_sniffer_cmd.c, the filter command
--   Startup, Steps   the invariant through sniffer_init_config, and through any sequence of calls
pub mod Settings
pub mod Frames
pub mod Filter
pub mod State
pub mod Control
pub mod Startup
pub mod Steps
pub mod Display
pub mod Handler
pub mod Console
