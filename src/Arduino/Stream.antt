-- ===== src/Arduino/Stream.antt =====
-- The stream of the serial port is a pcap stream.
use wifi_sniffer.Prelude.{
  ℕ, zero, suc, ◌≤◌, ◌<◌, ◌≡◌, refl, ap, ◌∙◌, sym, true, some, List, [], ◌∷◌, ◌++◌, map, arith,
  length, length-append, length-take, take,
}
use mathlib.Core.List.{append_assoc, append-nil}
use wifi_sniffer.Prelude.Bytes.{Bytes, bytes_at, le16, le32}
use wifi_sniffer.Prelude.Results.{done, Exec, pure, bind_done, ◌>>◌}
use wifi_sniffer.Capture.{PcapHdr, PcapRecHdr}
use wifi_sniffer.Capture.Reader.{read_record, read_records, read_stream}
use wifi_sniffer.Capture.Stream.{read_record_lem, read_records_step}
use wifi_sniffer.Arduino.{Sketch, kept_length, write, write16, write32, new_packet, capture_start}

-- The arguments of `newPacket`.
pub record Packet : Type 0 where
  pub sec : ℕ
  pub usec : ℕ
  pub len : ℕ
  pub buf : Bytes

unfoldable pub new_packets : List Packet → Exec Sketch (Unit {0})
unfolding new_packet
new_packets [] = pure tt
new_packets (p ∷ ps) = new_packet p.sec p.usec p.len p.buf >> new_packets ps

-- Numbers of 32 bits, and a buffer that holds what is kept of the packet.
pub record IsPacket (p : Packet) : Type 0 where
  pub sec_fits : p.sec < 4294967296
  pub usec_fits : p.usec < 4294967296
  pub len_fits : p.len < 4294967296
  pub held : kept_length p.len ≤ length p.buf

abbrev pub ArePackets : List Packet → Type 0
ArePackets [] = Unit
ArePackets (p ∷ ps) = IsPacket p × ArePackets ps

abbrev header_bytes : Bytes
header_bytes =
    le32 0xa1b2c3d4 ++ (le16 2 ++ (le16 4 ++ (le32 0 ++ (le32 0 ++ (le32 2500 ++ le32 105)))))

abbrev kept : Packet → Bytes
kept p = take (kept_length p.len) p.buf

abbrev packet_bytes : Packet → Bytes
packet_bytes p = le32 p.sec ++ (le32 p.usec ++ (le32 (kept_length p.len) ++ (le32 p.len ++ kept p)))

abbrev stream_of : List Packet → Bytes
stream_of [] = []
stream_of (p ∷ ps) = packet_bytes p ++ stream_of ps

-- What a reader should get.
abbrev pub packet_read : Packet → PcapRecHdr × Bytes
packet_read p = (
  record { ts_sec = p.sec; ts_usec = p.usec; incl_len = kept_length p.len; orig_len = p.len },
  kept p,
)

abbrev pub header_read : PcapHdr
header_read = record {
  magic_number = 0xa1b2c3d4;
  version_major = 2;
  version_minor = 4;
  thiszone = 0;
  sigfigs = 0;
  snaplen = 2500;
  network = 105;
}

abbrev wrote : Sketch → Bytes → Sketch
wrote s b = record s { write_cb = true; output = s.output ++ b }

append5 :
    (o a b c d e : Bytes) → ((((o ++ a) ++ b) ++ c) ++ d) ++ e ≡ o ++ (a ++ (b ++ (c ++ (d ++ e))))
append5 o a b c d e = simp (append_assoc) refl

capture_start_lem :
    (s : Sketch) → capture_start (record s { write_cb = true }) ≡ done tt (wrote s header_bytes)
unfolding capture_start write16 write32 write
capture_start_lem s =
    ap (λ o. done tt (record s { write_cb = true; output = o })) (simp (append_assoc) refl)

buffered : (p : Packet) → IsPacket p → bytes_at p.buf 0 (kept_length p.len) ≡ some (kept p)
buffered p v = within (kept_length p.len) v.held
  where
    within : (n : ℕ) → n ≤ length p.buf → bytes_at p.buf 0 n ≡ some (take n p.buf)
    within n h = ground arith

new_packet_lem :
    (p : Packet) (s : Sketch)
    → IsPacket p
    → new_packet p.sec p.usec p.len p.buf (record s { write_cb = true })
      ≡ done tt (wrote s (packet_bytes p))
unfolding new_packet write32 write
new_packet_lem p s v = rw (buffered p v) (
    ap (λ o. done tt (record s { write_cb = true; output = o }))
      (append5 s.output (le32 p.sec) (le32 p.usec) (le32 (kept_length p.len)) (le32 p.len)
        (kept p)))

new_packets_lem :
    (ps : List Packet) (s : Sketch)
    → ArePackets ps
    → new_packets ps (record s { write_cb = true }) ≡ done tt (wrote s (stream_of ps))
unfolding new_packets
new_packets_lem [] s v =
    ap (λ o. done tt (record s { write_cb = true; output = o })) (sym (append-nil s.output))
new_packets_lem (p ∷ ps) s v =
    bind_done (new_packet p.sec p.usec p.len p.buf) (λ _. new_packets ps)
      (record s { write_cb = true }) (wrote s (packet_bytes p)) tt (new_packet_lem p s v.0)
    ∙ new_packets_lem ps (wrote s (packet_bytes p)) v.1
    ∙ ap (λ o. done tt (record s { write_cb = true; output = o }))
        (append_assoc s.output (packet_bytes p) (stream_of ps))

length-kept : (p : Packet) → IsPacket p → length (kept p) ≡ kept_length p.len
length-kept p v = length-take (kept_length p.len) p.buf v.held

kept_fits : (n : ℕ) → n < 4294967296 → kept_length n < 4294967296
kept_fits n h = ground arith

regroup :
    (a b c d e rest : Bytes)
    → (a ++ (b ++ (c ++ (d ++ e)))) ++ rest ≡ a ++ (b ++ (c ++ (d ++ (e ++ rest))))
regroup a b c d e rest = simp (append_assoc) refl

read_packet :
    (p : Packet) (rest : Bytes)
    → IsPacket p
    → read_record (packet_bytes p ++ rest) ≡ some ((packet_read p).0, kept p, rest)
read_packet p rest v =
    ap read_record
      (regroup (le32 p.sec) (le32 p.usec) (le32 (kept_length p.len)) (le32 p.len) (kept p) rest)
    ∙ read_record_lem p.sec p.usec (kept_length p.len) p.len (kept p) rest v.sec_fits v.usec_fits
        (kept_fits p.len v.len_fits) v.len_fits (length-kept p v)

read_records-stream_of :
    (ps : List Packet) (fuel : ℕ)
    → ArePackets ps
    → length ps ≤ fuel
    → read_records fuel (stream_of ps) ≡ some (map packet_read ps)
unfolding read_records
read_records-stream_of [] zero v h = refl
read_records-stream_of [] (suc fuel) v h = refl
read_records-stream_of (p ∷ ps) zero v h = absurd (omega arith)
read_records-stream_of (p ∷ ps) (suc fuel) v h =
    read_records_step fuel (packet_bytes p ++ stream_of ps) (kept p) (stream_of ps)
      (packet_read p).0 (map packet_read ps) (read_packet p (stream_of ps) v.0)
      (read_records-stream_of ps fuel v.1 (omega arith))

length-stream_of : (ps : List Packet) → length ps ≤ length (stream_of ps)
length-stream_of [] = omega arith
length-stream_of (p ∷ ps) =
    omega (arith, length-append (packet_bytes p) (stream_of ps), length-stream_of ps)

read_stream-stream_of :
    (ps : List Packet)
    → ArePackets ps
    → read_stream (header_bytes ++ stream_of ps) ≡ some (header_read, map packet_read ps)
unfolding read_stream
read_stream-stream_of ps v =
    rw (read_records-stream_of ps (length (stream_of ps)) v (length-stream_of ps)) refl

-- With the callback for writing set, the header of `capture_start` and then any packets of `newPacket`, whose
-- numbers have 32 bits and whose buffers hold what is kept, are a pcap stream: a reader gets back the header,
-- and of every packet its times, its length and the octets that were kept, in order, with nothing left.
pub read_stream-capture_start :
    (ps : List Packet) (s : Sketch)
    → ArePackets ps
    → s.output ≡ []
    → (t : Sketch) × ((capture_start >> new_packets ps) (record s { write_cb = true }) ≡ done tt t)
      × (read_stream t.output ≡ some (header_read, map packet_read ps))
read_stream-capture_start ps s v fresh =
    let u = wrote s header_bytes in
    (
      wrote u (stream_of ps),
      bind_done capture_start (λ _. new_packets ps) (record s { write_cb = true }) u tt
            (capture_start_lem s)
          ∙ new_packets_lem ps u v,
      ap (λ o. read_stream ((o ++ header_bytes) ++ stream_of ps)) fresh
          ∙ read_stream-stream_of ps v,
    )
