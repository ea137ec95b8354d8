-- ===== src/Capture/Callbacks.antt =====
-- capture_lib.c: the two callback pointers, over any state `S` that a callback changes.
use wifi_sniffer.Prelude.{ℕ, Option, none, some}
use wifi_sniffer.Prelude.Results.{Exec, pure, ◌>>◌}
use wifi_sniffer.Capture.{PcapHdr, PcapRec, pcap_hdr, capture_get_size}

pub record Callbacks (S : Type 0) : Type 0 where
  pub on_start_capture : Option (PcapHdr → Exec S ℕ)
  pub on_capture : Option (PcapRec → ℕ → Exec S ℕ)

unfoldable pub capture_set_cb :
    {S : Type 0} → (PcapHdr → Exec S ℕ) → (PcapRec → ℕ → Exec S ℕ) → Callbacks S
capture_set_cb on_start on_rec = record {
  on_start_capture = some on_start;
  on_capture = some on_rec;
}

unfoldable pub capture_on_send : {S : Type 0} → Callbacks S → PcapRec → Exec S ℕ
capture_on_send cbs r = elim cbs.on_capture [
  | none ↦ pure 0
  | some f ↦ f r (capture_get_size r.pcap_rec_hdr)
]

unfoldable pub capture_start : {S : Type 0} → ℕ → Callbacks S → Exec S (Unit {0})
capture_start snap_len cbs = elim cbs.on_start_capture [
  | none ↦ pure tt
  | some f ↦ f (pcap_hdr snap_len) >> pure tt
]
