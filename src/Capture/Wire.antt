-- ===== src/Capture/Wire.antt =====
-- Esp32Sniffer/components/wifi_sniffer/include/capture_lib.h: the octets of the packed structures, in
-- the little-endian order of the ESP32, and the part of a record that is sent.
use wifi_sniffer.Prelude.{
  ℕ, ◌+◌, ◌-◌, ◌≤◌, ◌<◌, ◌≡◌, refl, ◌∙◌, none, some, [], ◌∷◌, ◌++◌, arith, length, length-append,
  take, drop, length-take, length-replicate, length-drop, replicate, leb, Bool-cases, leb→le,
  leb→gt, none≢some, sym, inl, inr,
}
use wifi_sniffer.Prelude.Int.{uint8}
use wifi_sniffer.Prelude.Bytes.{Bytes, le16, le32, memcpy}
use wifi_sniffer.Capture.{
  PcapHdr, PcapRecHdr, RadiotapHeader, Tapdata, PcapRec, Pkt, capture_get_size,
  capture_create_pcap_record, radiotap_header, record_of, included_len,
}

abbrev pub hdr_bytes : PcapHdr → Bytes
hdr_bytes h =
    le32 h.magic_number
    ++ (le16 h.version_major
        ++ (le16 h.version_minor
            ++ (le32 h.thiszone ++ (le32 h.sigfigs ++ (le32 h.snaplen ++ le32 h.network)))))

abbrev pub rec_hdr_bytes : PcapRecHdr → Bytes
rec_hdr_bytes h = le32 h.ts_sec ++ (le32 h.ts_usec ++ (le32 h.incl_len ++ le32 h.orig_len))

abbrev pub radiotap_bytes : RadiotapHeader → Bytes
radiotap_bytes h = h.it_version ∷ h.it_pad ∷ (le16 h.it_len ++ le32 h.it_present)

abbrev pub tapdata_bytes : Tapdata → Bytes
tapdata_bytes t =
    uint8 t.signal
    ∷ uint8 t.noise
    ∷ t.antenna
    ∷ t.pad_for_channel
    ∷ (le32 t.tapdata_channel.flags
        ++ (le16 t.tapdata_channel.freq
            ++ (t.tapdata_channel.channel ∷ t.tapdata_channel.max_power ∷ [])))

-- `pcap_rec_t` as it lies in memory.
abbrev pub rec_bytes : PcapRec → Bytes
rec_bytes r =
    rec_hdr_bytes r.pcap_rec_hdr
    ++ (radiotap_bytes r.radiotap_header ++ (tapdata_bytes r.tapdata ++ r.buf))

-- The octets of a record from the radiotap header on, as many as the frame has or the record holds.
abbrev pub frame_bytes : PcapRec → Bytes
frame_bytes r =
    radiotap_bytes r.radiotap_header
    ++ (tapdata_bytes r.tapdata ++ take (r.pcap_rec_hdr.incl_len - 20) r.buf)

-- The octets that a callback sends of a record: as many as it is told, from the start.
abbrev pub sent_bytes : PcapRec → Bytes
sent_bytes r = take (capture_get_size r.pcap_rec_hdr) (rec_bytes r)

-- What the callers of `capture_create_pcap_record` may rely on.
pub record IsWellFormed (snap_len : ℕ) (r : PcapRec) : Type 0 where
  pub ts_sec : r.pcap_rec_hdr.ts_sec < 4294967296
  pub ts_usec : r.pcap_rec_hdr.ts_usec < 1000000
  pub holds_header : 20 ≤ r.pcap_rec_hdr.incl_len
  pub fits : r.pcap_rec_hdr.incl_len ≤ snap_len
  pub included : r.pcap_rec_hdr.incl_len ≤ r.pcap_rec_hdr.orig_len
  pub orig_len : r.pcap_rec_hdr.orig_len < 4294967296
  pub buffer : length r.buf ≡ snap_len
  pub header : r.radiotap_header ≡ radiotap_header

memcpy_short : (dst src : Bytes) (n : ℕ) → length src < n → memcpy dst src n ≡ none
memcpy_short dst src n h = ground arith

memcpy_room :
    (dst src : Bytes) (n : ℕ)
    → n ≤ length dst
    → n ≤ length src
    → memcpy dst src n ≡ some (take n src ++ drop n dst)
memcpy_room dst src n h k = ground arith

module _ (snap_len : ℕ) (pkt : Pkt) where
  abbrev copied : ℕ
  copied = included_len snap_len pkt.rx_ctrl

  included-le : copied ≤ snap_len
  included-le = ground arith

  -- The record is made exactly if the copied part of the payload can be read.
  pub capture_create_some :
      copied ≤ length pkt.payload
      → capture_create_pcap_record snap_len pkt
        ≡ some (
            record_of snap_len pkt.rx_ctrl
              (take copied pkt.payload ++ drop copied (replicate snap_len 0)))
  unfolding capture_create_pcap_record
  capture_create_some h = rw (
      memcpy_room (replicate snap_len 0) pkt.payload copied
        (rw (length-replicate {A = ℕ} snap_len 0) included-le) h)

  pub capture_create_none :
      length pkt.payload < copied → capture_create_pcap_record snap_len pkt ≡ none
  unfolding capture_create_pcap_record
  capture_create_none h = rw (memcpy_short (replicate snap_len 0) pkt.payload copied h)

  -- A payload that holds a frame of `sig_len` octets and its four octets of checksum, and no more, is
  -- read past its end if the frame and the radiotap headers fit the snap length.
  pub capture_create_over_read :
      length pkt.payload ≡ pkt.rx_ctrl.sig_len + 4
      → pkt.rx_ctrl.sig_len + 20 ≤ snap_len
      → snap_len < 4294967296
      → capture_create_pcap_record snap_len pkt ≡ none
  capture_create_over_read h fits small = capture_create_none (ground (arith, h))

  pub capture_create_inv :
      {r : PcapRec}
      → capture_create_pcap_record snap_len pkt ≡ some r
      → (copied ≤ length pkt.payload)
        × (r
            ≡ record_of snap_len pkt.rx_ctrl
                (take copied pkt.payload ++ drop copied (replicate snap_len 0)))
  capture_create_inv {r} h = elim (Bool-cases (leb copied (length pkt.payload))) [
    | inl e ↦
        let le : copied ≤ length pkt.payload = leb→le _ _ e in (le, cc (h, capture_create_some le))
    | inr e ↦ absurd (none≢some (sym (capture_create_none (leb→gt _ _ e)) ∙ h))
  ]

  buffer_length :
      copied ≤ length pkt.payload
      → length (take copied pkt.payload ++ drop copied (replicate {A = ℕ} snap_len 0)) ≡ snap_len
  buffer_length h = omega (
    arith,
    length-append (take copied pkt.payload) (drop copied (replicate {A = ℕ} snap_len 0)),
    length-take copied pkt.payload h,
    length-drop copied (replicate {A = ℕ} snap_len 0),
    length-replicate {A = ℕ} snap_len 0,
    included-le,
  )

  -- A record that is made of a frame has time fields in range, announces at least the radiotap headers
  -- and no more octets than the snap length or the original length, holds a buffer of the snap length,
  -- and starts with the static radiotap header. The snap length has room for the radiotap headers, and
  -- the driver's length and timestamp fields have 32 bits, the length with 20 to spare.
  pub capture_create-IsWellFormed :
      {r : PcapRec}
      → 20 ≤ snap_len
      → pkt.rx_ctrl.sig_len + 20 < 4294967296
      → pkt.rx_ctrl.timestamp < 4294967296
      → capture_create_pcap_record snap_len pkt ≡ some r
      → IsWellFormed snap_len r
  unfolding record_of
  capture_create-IsWellFormed {r} s l t h =
      let (le, e) = capture_create_inv h in
      rw e (record {
        ts_sec = omega arith;
        ts_usec = omega arith;
        holds_header = ground arith;
        fits = included-le;
        included = ground arith;
        orig_len = omega arith;
        buffer = buffer_length le;
        header = refl;
      })
