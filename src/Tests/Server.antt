-- ===== src/Tests/Server.antt =====
-- Runs of the server, of the sniffing task, of the button, and of the sniffer for Arduino.
use wifi_sniffer.Prelude.{
  ℕ, ◌≡◌, refl, true, false, Option, some, List, [], ◌∷◌, map, arith, replicate,
}
use wifi_sniffer.Prelude.Int.{pos}
use wifi_sniffer.Prelude.Results.{done, modify, ◌>>◌}
use wifi_sniffer.Nvs.Memory.{memory_nvs}
use wifi_sniffer.Capture.{PcapRec, record_of, capture_get_size}
use wifi_sniffer.App.{App, on_socket_accept_handler}
use wifi_sniffer.App.Task.{Action, acts, offer, round}
use wifi_sniffer.App.Task.Channel.{Channel, Implements, channel_acts}
use wifi_sniffer.App.Task.Refines.{acts-Implements}
use wifi_sniffer.App.Task.Received.{received, no_records, taken}
use wifi_sniffer.App.Task.Session.{session, session_is_read}
use wifi_sniffer.Capture.{pcap_hdr}
use wifi_sniffer.Capture.Stream.{IsCaptured, packet_of}
use wifi_sniffer.Sniffer.Handler.{without_fcs}
use wifi_sniffer.App.Server.{failed, client, accept_loop}
use wifi_sniffer.App.Server.Laws.{Becomes, accept_loop_lem}
use wifi_sniffer.Capture.Reader.{read_stream}
use wifi_sniffer.Arduino.{Sketch, capture_start, setup}
use wifi_sniffer.Arduino.Commands.{read}
use wifi_sniffer.Arduino.Stream.{
  Packet, IsPacket, new_packets, header_read, packet_read, read_stream-capture_start,
}
use wifi_sniffer.Arduino.Laws.{setup_without_header}
use wifi_sniffer.Serial.{rx_round}
use wifi_sniffer.Serial.Laws.{rx_round_lem}
use wifi_sniffer.Tests.{kernel, beacon_record, beacon_pkt, beacon_made, sig_len_mod, idle}

abbrev connected : App memory_nvs
connected = record idle { sock = 54 }

abbrev empty : Channel
empty = record { delivered = []; waiting = [] }

abbrev all_written : PcapRec → Option ℕ
all_written r = some (capture_get_size r.pcap_rec_hdr)

acts-Implements_example :
    (t : App memory_nvs) × (acts kernel all_written
        (some 24)
        (offer beacon_record ∷ offer beacon_record ∷ offer beacon_record ∷ round ∷ [])
        connected
      ≡ done tt t)
    × Implements 54 2 [] (record { delivered = beacon_record ∷ []; waiting = beacon_record ∷ [] }) t
unfolding record_of
acts-Implements_example =
    acts-Implements kernel refl all_written (some 24) (λ r. refl) 54 2 [] (omega arith)
      (offer beacon_record ∷ offer beacon_record ∷ offer beacon_record ∷ round ∷ []) empty connected
      (omega arith, (omega arith, (omega arith, (tt, tt))))
      (record { connected = refl; sized = refl; queued = refl; handed = refl; all_long = tt })

accept_loop_lem_example :
    (t : App memory_nvs) × (accept_loop
        (some (on_socket_accept_handler kernel))
        (client 54 true ∷ failed ∷ client 55 false ∷ client 56 true ∷ [])
        idle
      ≡ done tt t)
    × Becomes idle 56 (54 ∷ []) t
accept_loop_lem_example =
    accept_loop_lem kernel (client 54 true ∷ failed ∷ client 55 false ∷ client 56 true ∷ []) idle

-- The initial values of the Arduino sniffer.
abbrev sketch : Sketch
sketch = record {
  is_text = false;
  start = false;
  write_cb = false;
  addr1_filter = record { addr = replicate 6 0; size = pos 0 };
  addr2_filter = record { addr = 0 ∷ 0x0c ∷ 0xcc ∷ 0 ∷ 0 ∷ 0 ∷ []; size = pos 3 };
  sel_channel = 0;
  ch_index = 0;
  channel = 1;
  radio_channel = 0;
  output = [];
  input = [];
}

abbrev packet : Packet
packet = record { sec = 1700000000; usec = 12; len = 3; buf = 1 ∷ 2 ∷ 3 ∷ 4 ∷ [] }

read_stream-capture_start_example :
    (t : Sketch) × ((capture_start >> new_packets (packet ∷ packet ∷ []))
        (record sketch { write_cb = true })
      ≡ done tt t)
    × (read_stream t.output ≡ some (header_read, map packet_read (packet ∷ packet ∷ [])))
read_stream-capture_start_example =
    read_stream-capture_start (packet ∷ packet ∷ []) sketch (packet_fits, (packet_fits, tt)) refl
  where
    packet_fits : IsPacket packet
    packet_fits = record {
      sec_fits = omega arith;
      usec_fits = omega arith;
      len_fits = omega arith;
      held = omega arith;
    }

setup_without_header_example :
    setup sketch ≡ done tt (record sketch { start = true; write_cb = true })
setup_without_header_example = setup_without_header sketch refl refl

-- The command F1014096, with the digits of three octets.
filter_set :
    read
      (λ b. (pos 6, []))
      (record sketch { input = b'F' ∷ b'1' ∷ b'0' ∷ b'1' ∷ b'4' ∷ b'0' ∷ b'9' ∷ b'6' ∷ [] })
    ≡ done tt (record sketch {
      addr1_filter = record { addr = 0x01 ∷ 0x40 ∷ 0x96 ∷ 0 ∷ 0 ∷ 0 ∷ []; size = pos 3 };
    })
unfolding read
filter_set = refl

rx_round_lem_example :
    rx_round (some (λ m. modify (λ l. m ∷ l))) 0 (replicate 50 7) (1 ∷ 2 ∷ 3 ∷ []) []
    ≡ done tt (record { src_port = 0; octets = 1 ∷ 2 ∷ 3 ∷ 0 ∷ replicate 46 7; size = 3 } ∷ [])
rx_round_lem_example =
    rx_round_lem (λ m. modify (λ l. m ∷ l)) 0 (replicate 50 7) (1 ∷ 2 ∷ 3 ∷ []) [] refl
      (omega arith)

beacon_record-IsCaptured : IsCaptured 30 beacon_record
beacon_record-IsCaptured = record {
  pkt = without_fcs sig_len_mod beacon_pkt;
  len = omega arith;
  time = omega arith;
  made = beacon_made;
}

abbrev arrivals : List Action
arrivals = offer beacon_record ∷ offer beacon_record ∷ round ∷ offer beacon_record ∷ []

session_is_read_example :
    (t : App memory_nvs) × (session kernel all_written 30 arrivals 2 connected ≡ done tt t)
    × (read_stream (received 54 t.sent)
        ≡ some (pcap_hdr 30, map packet_of (taken (channel_acts 2 arrivals no_records))))
session_is_read_example =
    session_is_read kernel refl refl all_written (λ r. refl) 54 2 (omega arith) 30 arrivals 2
      connected (omega arith) (omega arith)
      (beacon_record-IsCaptured, (beacon_record-IsCaptured, (beacon_record-IsCaptured, tt))) refl
      refl refl refl (omega arith)
