-- ===== src/Sniffer/Handler.antt =====
-- Esp32Sniffer/components/wifi_sniffer/wifi_sniffer.c: `wifi_sniffer_packet_handler`.
-- `len_mod` is one more than the largest value of the driver's bit field `sig_len`, whose
-- subtraction wraps at its width.
pub mod Laws
pub mod Invariant
use wifi_sniffer.Prelude.{
  ℕ, ◌+◌, ◌-◌, ◌*◌, ◌%◌, Bool, true, false, not, ◌&&◌, ◌||◌, Option, none, some, List, [], ◌∷◌,
  ◌==◌, if◌then◌else◌,
}
use wifi_sniffer.Prelude.Int.{ℤ, pos, leb_ℤ, ltb_ℤ, eq_ℤ}
use wifi_sniffer.Prelude.Results.{Exec, pure, gets, checked, undefined, ◌>>=◌, ◌>>◌}
use wifi_sniffer.Prelude.Bytes.{Bytes}
use wifi_sniffer.Nvs.Api.{NvsApi}
use wifi_sniffer.Capture.{Pkt, capture_create_pcap_record}
use wifi_sniffer.Sniffer.Filter.{PktType, pkt_mgmt, pkt_ctrl, pkt_data, pkt_misc, classify}
use wifi_sniffer.Sniffer.State.{Kernel, Sniffer}
use wifi_sniffer.Sniffer.Control.{sniffer_add_queue}

-- `*(uint16_t *)pkt->payload`
unfoldable pub frame_control : Bytes → Option ℕ
frame_control (a ∷ b ∷ _) = some (a + b * 256)
frame_control _ = none

-- `rssiFilter`
unfoldable pub rssi_passes : ℤ → ℤ → Bool
rssi_passes rssi_filter rssi =
    eq_ℤ rssi_filter (pos 0) || (ltb_ℤ rssi_filter (pos 0) && leb_ℤ rssi_filter rssi)

abbrev is_misc : PktType → Bool
is_misc pkt_misc = true
is_misc _ = false

-- `pkt->rx_ctrl.sig_len -= SNIFFER_PAYLOAD_FCS_LEN`
abbrev pub without_fcs : ℕ → Pkt → Pkt
without_fcs len_mod pkt = record pkt {
  rx_ctrl = record (pkt.rx_ctrl) { sig_len = (pkt.rx_ctrl.sig_len + len_mod - 4) % len_mod };
}

module _ {N : NvsApi} (k : Kernel) (snap_len len_mod : ℕ) where
  -- `isOwnAddress` and `macFilter`: without the semaphore every address passes.
  decide_addresses : PktType → ℕ → Bytes → Exec (Sniffer N) (Bool × Bool)
  decide_addresses type fc frame =
      if k.take && k.give
      then (do
        own ← gets (λ s. s.addr_own_mac)
        addr2 ← gets (λ s. s.addr2_filter)
        checked (classify type fc frame own addr2))
      else pure (false, true)

  enqueue : Pkt → Exec (Sniffer N) (Unit {0})
  enqueue pkt = do
    r ← checked (capture_create_pcap_record snap_len pkt)
    sniffer_add_queue k r
    pure tt

  -- What is done with the three tests' results.
  take_decision : Pkt → ℤ → Bool × Bool → Exec (Sniffer N) (Unit {0})
  unfolding enqueue rssi_passes
  take_decision pkt rssi_filter (is_own, mac_filter) =
      if rssi_passes rssi_filter pkt.rx_ctrl.rssi && (not is_own && mac_filter)
      then enqueue (without_fcs len_mod pkt)
      else pure tt

  handle_frame : Pkt → PktType → Exec (Sniffer N) (Unit {0})
  unfolding decide_addresses frame_control take_decision
  handle_frame pkt type = do
    fc ← checked (frame_control pkt.payload)
    rssi_filter ← gets (λ s. s.rssi_filter)
    d ← decide_addresses type fc pkt.payload
    take_decision pkt rssi_filter d

  unfoldable pub wifi_sniffer_packet_handler : Pkt → PktType → Exec (Sniffer N) (Unit {0})
  unfolding handle_frame
  wifi_sniffer_packet_handler pkt type =
      if not (is_misc type) && (pkt.rx_ctrl.rx_state == 0) then handle_frame pkt type else pure tt
