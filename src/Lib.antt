-- ===== src/Lib.antt =====
-- The firmware of the ESP32 Wi-Fi sniffer (Esp32Sniffer): frames that the radio receives are filtered,
-- made into pcap records with a radiotap header, queued, and sent to a client; and the sniffer of
-- ArduinoWifiSniffer, which shares no code with it but the reading of hexadecimal digits.
--
-- Parts and files, with paths from the repository's root:
--   Prelude            shared names: lists, tests, two's-complement integers, bits, byte arrays; Results
--                      is what a C function that changes state can do (return, abort, undefined
--                      behaviour), Keeps and Triples carry invariants and conditions through such functions
--   Capture            Esp32Sniffer/components/wifi_sniffer/capture_lib.c and include/capture_lib.h
--     Capture.Hex      hex_to_byte_array
--     Capture.Wire     the packed structures as octets
--     Capture.Reader   a reader of pcap and radiotap, written from the published formats
--     Capture.Stream, Radiotap   what that reader gets from what is sent
--   Nvs                Esp32Sniffer/components/nvs_lib/nvs_lib.c, over the flash of ESP-IDF
--     Nvs.Api          the functions of nvs.h as a record of unknown functions, and what is documented
--     Nvs.Num, Array, Text, Parse, Flash, Format, Entries   the functions of nvs_lib.c
--     Nvs.Memory       a flash in memory, with the documented behaviour
--   Sniffer            Esp32Sniffer/components/wifi_sniffer/wifi_sniffer.c and include/wifi_sniffer.h
--     Sniffer.Settings wifi_sniffer_nvs.c, the filters in flash
--     Sniffer.Frames   the 802.11 headers and their bit fields
--     Sniffer.Filter   which addresses of a frame are compared with what
--     Sniffer.State    the static variables as one record; Kernel is what FreeRTOS, the event loop and
--                      the driver answer to one operation
--     Sniffer.Control  the setters, the queue, the channels, the tasks, sniffer_init_config
--     Sniffer.Handler  wifi_sniffer_packet_handler
--     Sniffer.Display  what is told of a packet; the colours of Esp32Sniffer/main/main.c
--     Sniffer.Console  console_sniffer_cmd.c, the filter command
--     Sniffer.Steps    these operations in any order, from the initial values on
--   Wifi               Esp32Sniffer/components/wifi_lib
--     Wifi.Settings    wifi_lib_nvs.c: mode, names and passwords, channel
--     Wifi.Address     wifi_lib_nvs.c: static address and name servers
--     Wifi.Driver      the state of wifi_lib.c, the calls of ESP-IDF that it makes, and Driver, which
--                      is what ESP-IDF answers to them
--     Wifi.Events      wifi_lib.c: its event loop, wifi_event_handler and ip_event_handler
--     Wifi.Connection  wifi_lib.c: the interface, wifi_soft_ap, wifi_set_sta, the waits for an event
--     Wifi.Modes       wifi_lib.c: wifi_ap, wifi_sta, wifi_set_mode, wifi_conf_static_ip, wifi_init;
--                      config_wifi_init of Esp32Sniffer/main/main.c
--     Wifi.Status      wifi_lib.c: wifi_lib_get_curr_config
--     Wifi.Console     console_wifi_set_ap_cmd.c, console_wifi_set_sta_cmd.c, console_wifi_set_ip_cmd.c
--   App                the connection handlers of Esp32Sniffer/main/main.c, and onSend and
--                      disconnect_socket of Esp32Sniffer/components/tcp_server/tcp_server.c
--     App.Server       tcp_server.c: tcp_server_task
--     App.Task         sniffer_task of wifi_sniffer.c with the callbacks of main.c, and the channel
--                      that it implements together with the queue
--     App.Task.Session a whole session, from the start of the task to the client's reader
--     App.Button       main.c: the button
--   Led                Esp32Sniffer/components/led_lib: led_common.c over led_gpio.c or led_rmt.c
--   Console            Esp32Sniffer/components/console_lib, and what the commands register
--   Main               Esp32Sniffer/main/main.c: setup, and the handlers of the events
--     Main.Run         the whole device: its start, and then commands, packets, clients, rounds of the
--                      task, clicks and events in any order
--   Serial             Esp32Sniffer/components/serial_lib/serial_lib.c
--   Arduino            ArduinoWifiSniffer/src/main.cpp and lib/Sniffer/Sniffer.h: an earlier sniffer, which
--                      writes its stream to the serial port; Arduino.Commands is its read and its loop
--   Tests              runs on concrete inputs
--
-- The parts meet as in the code: the packet handler asks Filter, makes a record with Capture and puts
-- it in the queue of Control; the sniffing task takes records out and hands them to the callbacks of
-- Capture, which send them to the client that the accept loop of the server handed over; the setters
-- of Control store their filters through Settings and Nvs. The Wi-Fi commands and the start call Modes,
-- which reads and stores its settings through Wifi.Settings, Wifi.Address and Nvs. Main puts the parts
-- together over one flash: its events run an operation of one part, with the flash as the others left it.
--
-- Bounds: a field of w bits keeps its wrap-around. Out-of-range reads and writes are values (none, or
-- fault in an operation), so a theorem that names a result says that there is none. The reader of a
-- stream runs on the length of its input, and each record takes at least one octet; the loop over the
-- entries in flash has its number of rounds as an argument; every other loop is recursive in what it
-- counts. CONFIG_SNIFFER_SNAP_LEN, the queue size and the width of the driver's sig_len come from files
-- that the build makes, and are parameters.
--
-- Not modelled: logging, and the calls of ESP-IDF, FreeRTOS, lwIP, argtable and stdlib.h themselves,
-- which are parameters: Nvs.Parse.Laws.IsStdlib is what C says of strtol and its like. The display of
-- CONFIG_USE_LCD and the drivers of the displays, the tables of arguments that the commands hand to
-- argtable, sniffer_to_string, and led_mock.c, which only logs, are not modelled. Two operations
-- never overlap, but for a wait for a Wi-Fi event, during which the events that arrive are handled:
-- otherwise each runs to its end before the next.
pub mod Prelude
pub mod Capture
pub mod Nvs
pub mod Sniffer
pub mod Wifi
pub mod Led
pub mod Console
pub mod App
pub mod Main
pub mod Serial
pub mod Arduino
pub mod Tests
