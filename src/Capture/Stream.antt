-- ===== src/Capture/Stream.antt =====
-- What a reader of the published formats gets back from the octets that the sniffer sends.
use wifi_sniffer.Prelude.{
  ℕ, zero, suc, ◌+◌, ◌-◌, ◌≤◌, ◌<◌, ◌≡◌, refl, ap, ◌∙◌, some, List, [], ◌∷◌, ◌++◌, map, arith,
  length, length-append, take, take-append_add, length-take, drop-append,
}
use wifi_sniffer.Prelude.Bytes.{Bytes, le32, le32_read, bytes_at-append}
use wifi_sniffer.Capture.{
  PcapRecHdr, PcapRec, Pkt, capture_get_size, pcap_hdr, capture_create_pcap_record,
}
use wifi_sniffer.Capture.Wire.{
  hdr_bytes, rec_hdr_bytes, radiotap_bytes, tapdata_bytes, frame_bytes, sent_bytes, IsWellFormed,
  capture_create-IsWellFormed,
}
use wifi_sniffer.Capture.Reader.{Packets, read_hdr, read_record, read_records, read_stream}

abbrev before_buf : PcapRec → Bytes
before_buf r =
    rec_hdr_bytes r.pcap_rec_hdr ++ (radiotap_bytes r.radiotap_header ++ tapdata_bytes r.tapdata)

-- A record header as the reader takes it, with the octets that it announces behind it.
pub read_record_lem :
    (a b c d : ℕ) (p rest : Bytes)
    → a < 4294967296
    → b < 4294967296
    → c < 4294967296
    → d < 4294967296
    → length p ≡ c
    → read_record (le32 a ++ (le32 b ++ (le32 c ++ (le32 d ++ (p ++ rest)))))
      ≡ some (record { ts_sec = a; ts_usec = b; incl_len = c; orig_len = d }, p, rest)
unfolding read_record
read_record_lem a b c d p rest ha hb hc hd h =
    rw (le32_read a ha, le32_read b hb, le32_read c hc, le32_read d hd)
      (rw (bytes_at-append p rest c h) (rw (← h) (rw (drop-append p rest))))

module _ (snap_len : ℕ) (small : snap_len ≤ 2500) where
  -- What is sent is the record's header and exactly the `incl_len` octets that it announces.
  sent_bytes_lem :
      (r : PcapRec)
      → IsWellFormed snap_len r
      → sent_bytes r ≡ rec_hdr_bytes r.pcap_rec_hdr ++ frame_bytes r
  unfolding capture_get_size
  sent_bytes_lem r w =
      ap (λ n. take n (before_buf r ++ r.buf)) (omega (arith, w.holds_header, w.fits))
      ∙ take-append_add (before_buf r) r.buf (r.pcap_rec_hdr.incl_len - 20)

  length-frame_bytes :
      (r : PcapRec) → IsWellFormed snap_len r → length (frame_bytes r) ≡ r.pcap_rec_hdr.incl_len
  length-frame_bytes r w = omega (
    arith,
    length-take (r.pcap_rec_hdr.incl_len - 20) r.buf (omega (arith, w.fits, w.buffer)),
    w.holds_header,
  )

  read_record-sent_bytes :
      (r : PcapRec) (rest : Bytes)
      → IsWellFormed snap_len r
      → read_record (sent_bytes r ++ rest) ≡ some (r.pcap_rec_hdr, frame_bytes r, rest)
  read_record-sent_bytes r rest w = rw (sent_bytes_lem r w) (
      read_record_lem r.pcap_rec_hdr.ts_sec r.pcap_rec_hdr.ts_usec r.pcap_rec_hdr.incl_len
        r.pcap_rec_hdr.orig_len (frame_bytes r) rest (omega arith) (omega arith) (omega arith)
        (omega arith) (length-frame_bytes r w))

-- What a reader should get for a record.
abbrev pub packet_of : PcapRec → PcapRecHdr × Bytes
packet_of r = (r.pcap_rec_hdr, frame_bytes r)

abbrev pub sent_stream : List PcapRec → Bytes
sent_stream [] = []
sent_stream (r ∷ rs) = sent_bytes r ++ sent_stream rs

-- A record that `capture_create_pcap_record` made of some frame.
pub record IsCaptured (snap_len : ℕ) (r : PcapRec) : Type 0 where
  pub pkt : Pkt
  pub len : pkt.rx_ctrl.sig_len + 20 < 4294967296
  pub time : pkt.rx_ctrl.timestamp < 4294967296
  pub made : capture_create_pcap_record snap_len pkt ≡ some r

abbrev pub AllCaptured : ℕ → List PcapRec → Type 0
AllCaptured snap_len [] = Unit
AllCaptured snap_len (r ∷ rs) = IsCaptured snap_len r × AllCaptured snap_len rs

pub read_records_step :
    (fuel : ℕ) (b p rest : Bytes) (h : PcapRecHdr) (ps : Packets)
    → read_record b ≡ some (h, p, rest)
    → read_records fuel rest ≡ some ps
    → read_records (suc fuel) b ≡ some ((h, p) ∷ ps)
unfolding read_records
read_records_step fuel [] p rest h ps e k = unfold read_record in cc
read_records_step fuel (x ∷ b) p rest h ps e k = rw (e, read_records) (rw (k, read_records))

module _ (snap_len : ℕ) (small : snap_len ≤ 2500) (large : 20 ≤ snap_len) where
  pub captured-IsWellFormed : {r : PcapRec} → IsCaptured snap_len r → IsWellFormed snap_len r
  captured-IsWellFormed c = capture_create-IsWellFormed snap_len c.pkt large c.len c.time c.made

  read_records-sent_stream :
      (rs : List PcapRec) (fuel : ℕ)
      → AllCaptured snap_len rs
      → length rs ≤ fuel
      → read_records fuel (sent_stream rs) ≡ some (map packet_of rs)
  unfolding read_records
  read_records-sent_stream [] zero c h = refl
  read_records-sent_stream [] (suc fuel) c h = refl
  read_records-sent_stream (r ∷ rs) zero c h = absurd (omega arith)
  read_records-sent_stream (r ∷ rs) (suc fuel) c h =
      read_records_step fuel (sent_bytes r ++ sent_stream rs) (frame_bytes r) (sent_stream rs)
        r.pcap_rec_hdr (map packet_of rs)
        (read_record-sent_bytes snap_len small r (sent_stream rs) (captured-IsWellFormed c.0))
        (read_records-sent_stream rs fuel c.1 (omega arith))

  length-sent_stream :
      (rs : List PcapRec) → AllCaptured snap_len rs → length rs ≤ length (sent_stream rs)
  length-sent_stream [] c = omega arith
  length-sent_stream (r ∷ rs) c = omega (
    arith,
    length-append (sent_bytes r) (sent_stream rs),
    ap length (sent_bytes_lem snap_len small r (captured-IsWellFormed c.0)),
    length-sent_stream rs c.1,
  )

  read_hdr-hdr_bytes :
      (rest : Bytes)
      → read_hdr (hdr_bytes (pcap_hdr snap_len) ++ rest) ≡ some (pcap_hdr snap_len, rest)
  unfolding pcap_hdr
  read_hdr-hdr_bytes rest = rw (le32_read snap_len (omega arith))

  -- The header that `capture_start` hands out and then any captured records, sent one after another,
  -- are a pcap stream: a reader gets back the header, and of every record its header and the radiotap
  -- header, the radiotap data and the part of the frame that was kept, in order, with nothing left.
  pub read_stream-sent_stream :
      (rs : List PcapRec)
      → AllCaptured snap_len rs
      → read_stream (hdr_bytes (pcap_hdr snap_len) ++ sent_stream rs)
        ≡ some (pcap_hdr snap_len, map packet_of rs)
  unfolding read_stream
  read_stream-sent_stream rs c = rw (
    read_hdr-hdr_bytes (sent_stream rs),
    read_records-sent_stream rs (length (sent_stream rs)) c (length-sent_stream rs c),
  )
