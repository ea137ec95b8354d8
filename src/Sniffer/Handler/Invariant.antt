-- ===== src/Sniffer/Handler/Invariant.antt =====
-- The packet handler keeps the sniffer's invariant.
use wifi_sniffer.Prelude.{ℕ, Bool, true, false, not, ◌&&◌, ◌==◌}
use wifi_sniffer.Prelude.Int.{ℤ}
use wifi_sniffer.Prelude.Bytes.{Bytes}
use wifi_sniffer.Prelude.Keeps.{Keeps, Keeps-bind, Keeps-pure, Keeps-gets, Keeps-checked, Keeps-if}
use wifi_sniffer.Nvs.Api.{NvsApi}
use wifi_sniffer.Capture.{Pkt, capture_create_pcap_record}
use wifi_sniffer.Sniffer.Filter.{PktType, classify}
use wifi_sniffer.Sniffer.State.{Kernel}
use wifi_sniffer.Sniffer.Control.Laws.{IsSniffer}
use wifi_sniffer.Sniffer.Control.Queue.{Keeps-add_queue}
use wifi_sniffer.Sniffer.Handler.{
  is_misc, frame_control, rssi_passes, without_fcs, decide_addresses, enqueue, take_decision,
  handle_frame, wifi_sniffer_packet_handler,
}

module _ {N : NvsApi} (k : Kernel) (snap_len len_mod : ℕ) where
  Keeps-decide_addresses :
      (type : PktType) (fc : ℕ) (frame : Bytes)
      → Keeps (IsSniffer {N = N}) (decide_addresses k snap_len len_mod type fc frame)
  unfolding decide_addresses
  Keeps-decide_addresses type fc frame =
      Keeps-if (k.take && k.give)
        (Keeps-bind (Keeps-gets (λ s. s.addr_own_mac)) (λ own.
          Keeps-bind (Keeps-gets (λ s. s.addr2_filter))
            (λ addr2. Keeps-checked (classify type fc frame own addr2))))
        (Keeps-pure (false, true))

  Keeps-enqueue : (pkt : Pkt) → Keeps (IsSniffer {N = N}) (enqueue k snap_len len_mod pkt)
  unfolding enqueue
  Keeps-enqueue pkt =
      Keeps-bind (Keeps-checked (capture_create_pcap_record snap_len pkt))
        (λ r. Keeps-bind (Keeps-add_queue k r) (λ _. Keeps-pure tt))

  Keeps-take_decision :
      (pkt : Pkt) (rssi : ℤ) (d : Bool × Bool)
      → Keeps (IsSniffer {N = N}) (take_decision k snap_len len_mod pkt rssi d)
  unfolding take_decision
  Keeps-take_decision pkt rssi (own, mac) =
      Keeps-if (rssi_passes rssi pkt.rx_ctrl.rssi && (not own && mac))
        (Keeps-enqueue (without_fcs len_mod pkt)) (Keeps-pure tt)

  Keeps-handle_frame :
      (pkt : Pkt) (type : PktType)
      → Keeps (IsSniffer {N = N}) (handle_frame k snap_len len_mod pkt type)
  unfolding handle_frame
  Keeps-handle_frame pkt type = Keeps-bind (Keeps-checked (frame_control pkt.payload)) (λ fc.
      Keeps-bind (Keeps-gets (λ s. s.rssi_filter)) (λ rssi.
        Keeps-bind (Keeps-decide_addresses type fc pkt.payload)
          (λ d. Keeps-take_decision pkt rssi d)))

  pub Keeps-handler :
      (pkt : Pkt) (type : PktType)
      → Keeps (IsSniffer {N = N}) (wifi_sniffer_packet_handler k snap_len len_mod pkt type)
  unfolding wifi_sniffer_packet_handler
  Keeps-handler pkt type =
      Keeps-if (not (is_misc type) && (pkt.rx_ctrl.rx_state == 0)) (Keeps-handle_frame pkt type)
        (Keeps-pure tt)
