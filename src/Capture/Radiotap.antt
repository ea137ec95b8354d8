-- ===== src/Capture/Radiotap.antt =====
-- What a reader of the radiotap standard gets back from a captured record.
use wifi_sniffer.Prelude.{
  ℕ, ◌-◌, ◌≤◌, ◌≡◌, refl, ap, ◌∙◌, some, List, [], ◌∷◌, ◌++◌, arith, length, take, drop,
  take-append_le, take-take_le, length-take, replicate,
}
use wifi_sniffer.Prelude.Int.{uint8}
use wifi_sniffer.Prelude.Bytes.{Bytes, bytes_at-append}
use wifi_sniffer.Capture.{PcapRec, Pkt, record_of, included_len, capture_create_pcap_record}
use wifi_sniffer.Capture.Wire.{frame_bytes, capture_create_inv}
use wifi_sniffer.Capture.Reader.{read_radiotap}

-- The 20 octets that a record's radiotap part consists of, with any frame behind them.
read_radiotap_lem :
    (signal noise antenna channel : ℕ) (frame : Bytes)
    → read_radiotap (
        0 ∷ 0 ∷ 20 ∷ 0 ∷ 0x60 ∷ 0x08 ∷ 0x04 ∷ 0 ∷ signal ∷ noise ∷ antenna ∷ 0 ∷ 0 ∷ 0 ∷ 0 ∷ 0 ∷ 0
        ∷ 0 ∷ channel ∷ 0 ∷ frame)
      ≡ some (
        (5, signal ∷ [])
            ∷ (6, noise ∷ [])
            ∷ (11, antenna ∷ [])
            ∷ (18, 0 ∷ 0 ∷ 0 ∷ 0 ∷ 0 ∷ 0 ∷ channel ∷ 0 ∷ [])
            ∷ [],
        frame,
      )
unfolding read_radiotap
read_radiotap_lem signal noise antenna channel frame = rw (
    bytes_at-append
      (0 ∷ 0 ∷ 20 ∷ 0 ∷ 0x60 ∷ 0x08 ∷ 0x04 ∷ 0 ∷ signal ∷ noise ∷ antenna ∷ 0 ∷ 0 ∷ 0 ∷ 0 ∷ 0 ∷ 0
        ∷ 0 ∷ channel ∷ 0 ∷ [])
      frame 20 refl)

module _ (snap_len : ℕ) (pkt : Pkt) where
  kept :
      included_len snap_len pkt.rx_ctrl ≤ length pkt.payload
      → (z : Bytes)
      → take
          (included_len snap_len pkt.rx_ctrl - 20)
          (take (included_len snap_len pkt.rx_ctrl) pkt.payload ++ z)
        ≡ take (included_len snap_len pkt.rx_ctrl - 20) pkt.payload
  kept h z =
      take-append_le _ (take (included_len snap_len pkt.rx_ctrl) pkt.payload) z
        (omega (arith, length-take _ pkt.payload h))
      ∙ take-take_le _ _ pkt.payload (omega arith)

  frame_bytes-record_of :
      (buf : Bytes)
      → frame_bytes (record_of snap_len pkt.rx_ctrl buf)
        ≡ 0
          ∷ 0
          ∷ 20
          ∷ 0
          ∷ 0x60
          ∷ 0x08
          ∷ 0x04
          ∷ 0
          ∷ uint8 pkt.rx_ctrl.rssi
          ∷ uint8 pkt.rx_ctrl.noise_floor
          ∷ pkt.rx_ctrl.ant
          ∷ 0
          ∷ 0
          ∷ 0
          ∷ 0
          ∷ 0
          ∷ 0
          ∷ 0
          ∷ pkt.rx_ctrl.channel
          ∷ 0
          ∷ take (included_len snap_len pkt.rx_ctrl - 20) buf
  unfolding record_of
  frame_bytes-record_of buf = refl

  -- What the driver reported, at the bits that the radiotap standard gives these fields.
  abbrev pub driver_fields : List (ℕ × Bytes)
  driver_fields =
      (5, uint8 pkt.rx_ctrl.rssi ∷ [])
      ∷ (6, uint8 pkt.rx_ctrl.noise_floor ∷ [])
      ∷ (11, pkt.rx_ctrl.ant ∷ [])
      ∷ (18, 0 ∷ 0 ∷ 0 ∷ 0 ∷ 0 ∷ 0 ∷ pkt.rx_ctrl.channel ∷ 0 ∷ [])
      ∷ []

  -- A reader of the radiotap standard finds in a captured record exactly the antenna signal, the
  -- antenna noise, the antenna and the XChannel field that the driver reported, at the bits of the
  -- presence word, and behind the header the octets of the frame that were kept: all of it, or as
  -- many as the snap length leaves room for.
  pub read_radiotap-frame_bytes :
      {r : PcapRec}
      → capture_create_pcap_record snap_len pkt ≡ some r
      → read_radiotap (frame_bytes r)
        ≡ some (driver_fields, take (included_len snap_len pkt.rx_ctrl - 20) pkt.payload)
  read_radiotap-frame_bytes h =
      let (le, e) = capture_create_inv snap_len pkt h in
      ap (λ x. read_radiotap (frame_bytes x)) e
      ∙ ap read_radiotap (frame_bytes-record_of _)
      ∙ read_radiotap_lem _ _ _ _ _
      ∙ ap (λ f. some (driver_fields, f))
          (kept le (drop (included_len snap_len pkt.rx_ctrl) (replicate snap_len 0)))
