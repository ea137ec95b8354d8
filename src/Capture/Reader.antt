-- ===== src/Capture/Reader.antt =====
-- A reader of pcap streams and radiotap headers, written from the published formats
-- (https://wiki.wireshark.org/Development/LibpcapFileFormat and https://www.radiotap.org), which
-- capture_lib.c names: what Wireshark makes of the octets that the sniffer sends.
use wifi_sniffer.Prelude.{
  ℕ, zero, suc, ◌+◌, ◌-◌, ◌*◌, ◌/◌, ◌%◌, ◌^◌, Option, none, some, List, [], ◌∷◌, ◌==◌, ◌&&◌,
  if◌then◌else◌, length, drop,
}
use wifi_sniffer.Prelude.Bytes.{Bytes, bytes_at}
use wifi_sniffer.Prelude.Partial.{◌>>=◌}
use wifi_sniffer.Capture.{PcapHdr, PcapRecHdr}

abbrev pub read16 : Bytes → Option (ℕ × Bytes)
read16 (a ∷ b ∷ rest) = some (a + b * 256, rest)
read16 _ = none

abbrev pub read32 : Bytes → Option (ℕ × Bytes)
read32 (a ∷ b ∷ c ∷ d ∷ rest) = some (a + b * 256 + c * 65536 + d * 16777216, rest)
read32 _ = none

-- The global header of a file in the reader's own byte order.
abbrev pub read_hdr : Bytes → Option (PcapHdr × Bytes)
read_hdr b₀ = do
  (magic, b₁) ← read32 b₀
  (major, b₂) ← read16 b₁
  (minor, b₃) ← read16 b₂
  (zone, b₄) ← read32 b₃
  (figs, b₅) ← read32 b₄
  (snap, b₆) ← read32 b₅
  (net, b₇) ← read32 b₆
  if (magic == 0xa1b2c3d4) && (major == 2)
      then some (
        record {
          magic_number = magic;
          version_major = major;
          version_minor = minor;
          thiszone = zone;
          sigfigs = figs;
          snaplen = snap;
          network = net;
        },
        b₇,
      )
      else none

-- One packet: its header and `incl_len` octets.
unfoldable pub read_record : Bytes → Option (PcapRecHdr × Bytes × Bytes)
read_record b₀ = do
  (sec, b₁) ← read32 b₀
  (usec, b₂) ← read32 b₁
  (incl, b₃) ← read32 b₂
  (orig, b₄) ← read32 b₃
  packet ← bytes_at b₄ 0 incl
  some (
    record { ts_sec = sec; ts_usec = usec; incl_len = incl; orig_len = orig },
    packet,
    drop incl b₄,
  )

abbrev pub Packets : Type 0
Packets = List (PcapRecHdr × Bytes)

-- All packets up to the end of the stream; a packet has more than one octet, so the length of the
-- stream is fuel enough.
unfoldable pub read_records : ℕ → Bytes → Option Packets
read_records fuel [] = some []
read_records zero (x ∷ b) = none
read_records (suc fuel) (x ∷ b) = elim (read_record (x ∷ b)) [
  | none ↦ none
  | some (h, packet, rest) ↦ elim (read_records fuel rest) [
    | none ↦ none
    | some ps ↦ some ((h, packet) ∷ ps)
  ]
]

unfoldable pub read_stream : Bytes → Option (PcapHdr × Packets)
unfolding read_records read_record
read_stream b = do
  (h, rest) ← read_hdr b
  packets ← read_records (length rest) rest
  some (h, packets)

-- The alignment and the size of each field that the radiotap standard defines up to bit 19.
abbrev pub field_layout : ℕ → Option (ℕ × ℕ)
field_layout b =
    if b == 0
    then some (8, 8)
    else if b == 1
    then some (1, 1)
    else if b == 2
    then some (1, 1)
    else if b == 3
    then some (2, 4)
    else if b == 4
    then some (2, 2)
    else if b == 5
    then some (1, 1)
    else if b == 6
    then some (1, 1)
    else if b == 7
    then some (2, 2)
    else if b == 8
    then some (2, 2)
    else if b == 9
    then some (2, 2)
    else if b == 10
    then some (1, 1)
    else if b == 11
    then some (1, 1)
    else if b == 12
    then some (1, 1)
    else if b == 13
    then some (1, 1)
    else if b == 14
    then some (2, 2)
    else if b == 18
    then some (4, 8)
    else if b == 19
    then some (1, 3)
    else none

abbrev align_up : ℕ → ℕ → ℕ
align_up off a = (off + a - 1) / a * a

-- The fields that are present, lowest bit first, from offset `off` of the header.
read_fields : ℕ → ℕ → ℕ → ℕ → Bytes → Option (List (ℕ × Bytes))
read_fields zero bit off present b = some []
read_fields (suc left) bit off present b = elim (present / 2 ^ bit % 2) [
  | zero ↦ read_fields left (bit + 1) off present b
  | suc _ ↦ elim (field_layout bit) [
    | none ↦ none
    | some (a, size) ↦ elim (bytes_at b (align_up off a) size) [
      | none ↦ none
      | some field ↦ elim (read_fields left (bit + 1) (align_up off a + size) present b) [
        | none ↦ none
        | some fields ↦ some ((bit, field) ∷ fields)
      ]
    ]
  ]
]

-- The fields of a packet's radiotap header (version 0, and an octet of padding before the length), and the 802.11 frame behind the header.
unfoldable pub read_radiotap : Bytes → Option (List (ℕ × Bytes) × Bytes)
unfolding read_fields
read_radiotap b₀ = do
  (version, b₁) ← read16 b₀
  (len, b₂) ← read16 b₁
  (present, b₃) ← read32 b₂
  header ← bytes_at b₀ 0 len
  fields ← if version % 256 == 0 then read_fields 31 0 8 present header else none
  some (fields, drop len b₀)
