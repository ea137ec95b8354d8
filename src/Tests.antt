-- ===== src/Tests.antt =====
-- Runs of the model on concrete inputs.
mod Flash
mod Wifi
mod Server
mod Main
use wifi_sniffer.Prelude.{
  inl, ℕ, ◌-◌, ◌+◌, ◌*◌, ◌&&◌, ◌≡◌, refl, ◌↔◌, ◌⊎◌, inr, Bool, true, false, none, some, [], ◌∷◌,
  ◌++◌, arith, length, take, drop, replicate, map, if◌then◌else◌, ltb,
}
use wifi_sniffer.Prelude.Int.{pos, negsuc}
use wifi_sniffer.Prelude.Bytes.{Bytes}
use wifi_sniffer.Prelude.Results.{Err, Outcome, done, aborted, fault}
use wifi_sniffer.Nvs.Memory.{memory_nvs, empty_store}
use wifi_sniffer.Nvs.Num.{nvs_get_num32i}
use wifi_sniffer.Nvs.Array.{nvs_set_array, nvs_get_array}
use wifi_sniffer.Sniffer.Console.{console_read_filter}
use wifi_sniffer.Sniffer.Console.Laws.{console_read_filter_decodes}
use wifi_sniffer.Nvs.Format.{nvs_bytes_to_hex, nvs_bytes_to_hex_in_bounds}
use wifi_sniffer.Capture.{
  Pkt, PcapRec, pcap_hdr, capture_create_pcap_record, record_of, included_len,
}
use wifi_sniffer.Capture.Wire.{
  IsWellFormed, hdr_bytes, frame_bytes, capture_create-IsWellFormed, capture_create_over_read,
}
use wifi_sniffer.Capture.Reader.{read_stream, read_radiotap}
use wifi_sniffer.Capture.Stream.{IsCaptured, packet_of, sent_stream, read_stream-sent_stream}
use wifi_sniffer.Capture.Radiotap.{driver_fields, read_radiotap-frame_bytes}
use wifi_sniffer.Capture.Hex.{hex_to_byte_array, size_max}
use wifi_sniffer.Capture.Hex.Laws.{
  AllBytes, IsHex, IsHexDigit, hex_to_byte_array_decodes, hex_to_byte_array_invalid,
}
use wifi_sniffer.Sniffer.Settings.{
  AddrFilter, addr_filter_to_string, set_filter_mac, get_filter_mac, get_filter_rssi,
  set_filter_rssi,
}
use wifi_sniffer.Sniffer.Filter.{pkt_mgmt, classify}
use wifi_sniffer.Sniffer.Filter.Laws.{IsFilter, Matches, Any, seen_ends, searched, classify_decides}
use wifi_sniffer.Sniffer.State.{Kernel, Sniffer}
use wifi_sniffer.Sniffer.Control.Laws.{IsSniffer}
use wifi_sniffer.Sniffer.Control.Channels.{three_switches, switch_channels_cycle}
use wifi_sniffer.Sniffer.Handler.{frame_control, without_fcs, wifi_sniffer_packet_handler}
use wifi_sniffer.Sniffer.Handler.Laws.{IsWanted, queue_made, handler_decides}
use wifi_sniffer.Sniffer.Steps.{boot, init, run_call, booted, called, Reachable-IsSniffer}
use wifi_sniffer.App.{App, on_socket_accept_handler}
use wifi_sniffer.App.Laws.{on_socket_accept_twice}
use wifi_sniffer.Prelude.Results.{◌>>◌}

abbrev kernel : Kernel
kernel = record { take = true; give = true; post = Err.esp_ok; wifi = Err.esp_ok; alloc = true }

abbrev station : Bytes
station = 2 ∷ 4 ∷ 6 ∷ 8 ∷ 10 ∷ 12 ∷ []

-- A beacon of 32 octets and its checksum, and octets of the driver's buffer behind them.
abbrev beacon : Bytes
beacon =
    0x80 ∷ 0 ∷ 0 ∷ 0 ∷ (replicate 6 255 ++ (station ++ (station ++ (0x10 ∷ 0 ∷ replicate 30 7))))

abbrev beacon_pkt : Pkt
beacon_pkt = record {
  rx_ctrl = record {
    rssi = negsuc 39;
    sig_len = 36;
    noise_floor = negsuc 95;
    channel = 6;
    timestamp = 5000007;
    ant = 0;
    rx_state = 0;
  };
  payload = beacon;
}

abbrev sig_len_mod : ℕ
sig_len_mod = 4096

abbrev own_filter : AddrFilter
own_filter = record { addr = replicate 6 1; size = 6 }

own_filter-IsFilter : IsFilter own_filter
own_filter-IsFilter = record { octets = refl; fits = omega arith }

abbrev station_filter : AddrFilter
station_filter = record { addr = station; size = 3 }

station_filter-IsFilter : IsFilter station_filter
station_filter-IsFilter = record { octets = refl; fits = omega arith }

abbrev listening : Sniffer memory_nvs
listening = record (boot empty_store) {
  addr_own_mac = own_filter;
  addr2_filter = station_filter;
  packet_queue = some [];
  queue_size = 2;
}

abbrev beacon_record : PcapRec
beacon_record = record_of 30 (without_fcs sig_len_mod beacon_pkt).rx_ctrl (take 30 beacon)

beacon_made :
    capture_create_pcap_record 30 (without_fcs sig_len_mod beacon_pkt) ≡ some beacon_record
unfolding capture_create_pcap_record
beacon_made = refl

beacon_fc : frame_control beacon ≡ some 0x80
unfolding frame_control
beacon_fc = refl

handler_decides_example :
    (b : Bool) × (wifi_sniffer_packet_handler kernel 30 sig_len_mod beacon_pkt pkt_mgmt listening
      ≡ (if b
          then queue_made kernel
              (capture_create_pcap_record 30 (without_fcs sig_len_mod beacon_pkt))
              []
              listening
          else done tt listening))
    × ((b ≡ true) ↔ IsWanted listening beacon_pkt pkt_mgmt 0x80)
handler_decides_example =
    handler_decides kernel 30 sig_len_mod listening beacon_pkt pkt_mgmt 0x80 [] own_filter-IsFilter
      station_filter-IsFilter refl refl refl beacon_fc (omega arith)

abbrev after : {A : Type 0} → Outcome (Sniffer memory_nvs) A → Sniffer memory_nvs
after (done a t) = t
after (aborted e t) = t
after fault = boot empty_store

abbrev started : Sniffer memory_nvs
started = after (run_call kernel (init (λ _. kernel) 2 own_filter) (boot empty_store))

ran : run_call kernel (init (λ _. kernel) 2 own_filter) (boot empty_store) ≡ done tt started
unfolding run_call addr_filter_to_string set_filter_mac get_filter_mac nvs_get_array nvs_set_array
    get_filter_rssi nvs_get_num32i set_filter_rssi
ran = refl

Reachable-IsSniffer_example : IsSniffer started
Reachable-IsSniffer_example =
    Reachable-IsSniffer empty_store started
      (called kernel (init (λ _. kernel) 2 own_filter) booted own_filter-IsFilter ran)

switch_channels_cycle_example :
    (a b c : ℕ) × (three_switches kernel listening
      ≡ done (a, b, c) (record listening { channel = c }))
    × ((a ∷ b ∷ c ∷ [] ≡ 1 ∷ 6 ∷ 11 ∷ [])
        ⊎ (a ∷ b ∷ c ∷ [] ≡ 6 ∷ 11 ∷ 1 ∷ [])
        ⊎ (a ∷ b ∷ c ∷ [] ≡ 11 ∷ 1 ∷ 6 ∷ []))
switch_channels_cycle_example = switch_channels_cycle kernel listening refl (omega arith)

classify_decides_example :
    (is_own mac_filter : Bool) × (classify pkt_mgmt 0x80 beacon own_filter station_filter
      ≡ some (is_own, mac_filter))
    × ((is_own ≡ true) ↔ Any (Matches beacon own_filter) (seen_ends pkt_mgmt 0x80))
    × ((mac_filter ≡ true) ↔ Any (Matches beacon station_filter) (searched pkt_mgmt 0x80))
classify_decides_example =
    classify_decides pkt_mgmt 0x80 beacon own_filter station_filter own_filter-IsFilter
      station_filter-IsFilter (omega arith)

abbrev sent_pkt : Pkt
sent_pkt = without_fcs sig_len_mod beacon_pkt

capture_create-IsWellFormed_example : IsWellFormed 30 beacon_record
capture_create-IsWellFormed_example =
    capture_create-IsWellFormed 30 sent_pkt (omega arith) (omega arith) (omega arith) beacon_made

abbrev bare_pkt : Pkt
bare_pkt = record sent_pkt { payload = take 36 beacon }

capture_create_over_read_example : capture_create_pcap_record 60 bare_pkt ≡ none
capture_create_over_read_example =
    capture_create_over_read 60 bare_pkt refl (omega arith) (omega arith)

read_radiotap-frame_bytes_example :
    read_radiotap (frame_bytes beacon_record)
    ≡ some (driver_fields 30 sent_pkt, take (included_len 30 sent_pkt.rx_ctrl - 20) beacon)
read_radiotap-frame_bytes_example = read_radiotap-frame_bytes 30 sent_pkt beacon_made

beacon-IsCaptured : IsCaptured 30 beacon_record
beacon-IsCaptured = record {
  pkt = sent_pkt;
  len = omega arith;
  time = omega arith;
  made = beacon_made;
}

read_stream-sent_stream_example :
    read_stream (hdr_bytes (pcap_hdr 30) ++ sent_stream (beacon_record ∷ beacon_record ∷ []))
    ≡ some (pcap_hdr 30, map packet_of (beacon_record ∷ beacon_record ∷ []))
read_stream-sent_stream_example =
    read_stream-sent_stream 30 (omega arith) (omega arith) (beacon_record ∷ beacon_record ∷ [])
      (beacon-IsCaptured, (beacon-IsCaptured, tt))

abbrev seven_zeros : Bytes
seven_zeros = replicate 7 0

station-AllBytes : AllBytes station
station-AllBytes = ground arith

-- Its digits, in both cases.
abbrev station_digits : Bytes
station_digits =
    b'0' ∷ b'2' ∷ b'0' ∷ b'4' ∷ b'0' ∷ b'6' ∷ b'0' ∷ b'8' ∷ b'0' ∷ b'a' ∷ b'0' ∷ b'C' ∷ []

station_digits-IsHex : IsHex station_digits station
station_digits-IsHex = (
  inl refl,
  inl refl,
  (
    inl refl,
    inl refl,
    (inl refl, inl refl, (inl refl, inl refl, (inl refl, inr refl, (inl refl, inl refl, tt)))),
  ),
)

hex_to_byte_array_decodes_example :
    hex_to_byte_array (station_digits ++ b'!' ∷ []) 12 seven_zeros ≡ (
      if ltb (length seven_zeros) (length station)
      then none
      else some (length station, station ++ drop (length station) seven_zeros))
hex_to_byte_array_decodes_example =
    hex_to_byte_array_decodes station_digits station (b'!' ∷ []) seven_zeros 12 station-AllBytes
      station_digits-IsHex refl

-- No digit.
no_digit : ¬ IsHexDigit b'!'
no_digit (d, small, inl e) = ground arith
no_digit (d, small, inr e) = ground arith

hex_to_byte_array_invalid_example :
    hex_to_byte_array (station_digits ++ b'0' ∷ b'!' ∷ []) 14 seven_zeros
    ≡ some (size_max, station ++ drop (length station) seven_zeros)
hex_to_byte_array_invalid_example =
    hex_to_byte_array_invalid station_digits station [] seven_zeros b'0' b'!' 14 station-AllBytes
      station_digits-IsHex (omega arith) (omega arith) (inr no_digit)

nvs_bytes_to_hex_in_bounds_example :
    (r : Bytes) × (nvs_bytes_to_hex station 6 (b':' ∷ []) 1 (replicate 10 0) 10 ≡ some r)
    × (length r ≡ 10)
nvs_bytes_to_hex_in_bounds_example =
    nvs_bytes_to_hex_in_bounds station 6 (b':' ∷ []) (replicate 10 0) 10 (omega arith) refl

console_read_filter_decodes_example :
    console_read_filter (station_digits ++ 0 ∷ []) (2 * length station) own_filter ≡ (
      if ltb 6 (length station)
      then none
      else some (
        true,
        record { addr = station ++ drop (length station) own_filter.addr; size = length station },
      ))
console_read_filter_decodes_example =
    console_read_filter_decodes station_digits station (0 ∷ []) own_filter station-AllBytes
      station_digits-IsHex (omega arith) refl

abbrev idle : App memory_nvs
idle = record { sniffer = listening; sock = 0; closed = []; sent = [] }

on_socket_accept_twice_example :
    (on_socket_accept_handler kernel 54 >> on_socket_accept_handler kernel 55) idle
    ≡ done tt (record idle {
      sock = 55;
      closed = 54 ∷ [];
      sniffer = record listening { tasks = 1 ∷ 0 ∷ []; next_task = 2; sniff_handle = some 1 };
    })
on_socket_accept_twice_example = on_socket_accept_twice kernel 54 55 idle refl refl (omega arith)
