-- ===== src/App/Laws.antt =====
-- What the client of a connection gets, and what a second connection does.
use wifi_sniffer.Prelude.{
  take-take_le, ℕ, suc, ◌<◌, ◌≡◌, refl, ap, ◌∙◌, sym, true, false, some, List, [], ◌∷◌, ◌++◌, ◌==◌,
  ◌||◌, arith, map,
}
use mathlib.Core.List.{append_assoc, append-nil}
use wifi_sniffer.Prelude.Bytes.{Bytes}
use wifi_sniffer.Prelude.Results.{done, Exec, pure, bind_done, ◌>>◌}
use wifi_sniffer.Nvs.Api.{NvsApi}
use wifi_sniffer.Capture.{PcapRec, capture_get_size}
use wifi_sniffer.Capture.Wire.{rec_bytes, sent_bytes}
use wifi_sniffer.Sniffer.State.{Kernel}
use wifi_sniffer.Sniffer.Control.{sniffer_start}
use wifi_sniffer.App.{App, disconnect_socket, on_send, on_socket_accept_handler, on_capture}

abbrev pub to_client : ℕ → PcapRec → ℕ × Bytes
to_client sock r = (sock, sent_bytes r)

abbrev pub AllLong : List PcapRec → Type 0
AllLong [] = Unit
AllLong (r ∷ rs) = (0 < r.pcap_rec_hdr.orig_len) × AllLong rs

module _ {N : NvsApi} (k : Kernel) where
  -- Where there is memory for two tasks, a second connection closes the socket of the first and starts a
  -- second sniffing task beside the first one, whose handle is lost.
  pub on_socket_accept_twice :
      (a b : ℕ) (s : App N)
      → k.alloc ≡ true
      → s.sock ≡ 0
      → 0 < a
      → (on_socket_accept_handler k a >> on_socket_accept_handler k b) s
        ≡ done tt (record s {
          sock = b;
          closed = s.closed ++ (a ∷ []);
          sniffer = record (s.sniffer) {
            tasks = suc s.sniffer.next_task ∷ s.sniffer.next_task ∷ s.sniffer.tasks;
            next_task = suc (suc s.sniffer.next_task);
            sniff_handle = some (suc s.sniffer.next_task);
          };
        })
  unfolding on_socket_accept_handler sniffer_start disconnect_socket
  on_socket_accept_twice a b s alloc idle some_sock = rw (alloc, idle, nonzero) refl
    where
      nonzero : (a == 0) ≡ false
      nonzero = ground arith

  -- Every record handed to the client in turn, by writes that take all.
  abbrev pub send_all : List PcapRec → Exec (App N) (Unit {0})
  send_all [] = pure tt
  send_all (r ∷ rs) =
      on_capture k (some (capture_get_size r.pcap_rec_hdr)) r (capture_get_size r.pcap_rec_hdr)
      >> send_all rs

  pub on_capture_whole :
      (r : PcapRec) (s : App N)
      → 0 < s.sock
      → 0 < r.pcap_rec_hdr.orig_len
      → on_capture k (some (capture_get_size r.pcap_rec_hdr)) r (capture_get_size r.pcap_rec_hdr) s
        ≡ done tt (record s { sent = s.sent ++ (to_client s.sock r ∷ []) })
  unfolding on_capture on_send
  on_capture_whole r s h l = rw connected (
      ap (λ b. done tt (record s { sent = s.sent ++ ((s.sock, b) ∷ []) }))
        (take-take_le n n (rec_bytes r) (omega arith)))
    where
      n : ℕ
      n = capture_get_size r.pcap_rec_hdr

      connected : ((s.sock == 0) || (r.pcap_rec_hdr.orig_len == 0)) ≡ false
      connected = ground arith

  -- While a client is connected and every write takes all that it is given, records of a length above 0 are
  -- sent to it in turn, each whole and once, and nothing else changes.
  pub send_all_lem :
      (rs : List PcapRec) (s : App N)
      → 0 < s.sock
      → AllLong rs
      → send_all rs s ≡ done tt (record s { sent = s.sent ++ map (to_client s.sock) rs })
  send_all_lem [] s h l = ap (λ q. done tt (record s { sent = q })) (sym (append-nil s.sent))
  send_all_lem (r ∷ rs) s h l =
      bind_done
        (on_capture k (some (capture_get_size r.pcap_rec_hdr)) r (capture_get_size r.pcap_rec_hdr))
        (λ _. send_all rs) s (record s { sent = s.sent ++ (to_client s.sock r ∷ []) }) tt
        (on_capture_whole r s h l.0)
      ∙ send_all_lem rs (record s { sent = s.sent ++ (to_client s.sock r ∷ []) }) h l.1
      ∙ ap (λ q. done tt (record s { sent = q }))
          (append_assoc s.sent (to_client s.sock r ∷ []) (map (to_client s.sock) rs))
