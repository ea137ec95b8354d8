-- ===== src/App/Keeping.antt =====
-- What the server's callback, the capture's callbacks and the sniffing task keep of the sniffer.
use wifi_sniffer.Prelude.{
  ℕ, zero, suc, Bool, true, false, ◌||◌, Option, none, some, [], ◌∷◌, ◌++◌, ◌==◌, take,
}
use wifi_sniffer.Prelude.Bytes.{Bytes}
use wifi_sniffer.Prelude.Results.{Outcome, done, aborted, fault, Exec}
use wifi_sniffer.Prelude.Keeps.{
  Returns, Keeps, Keeps-bind, Keeps-pure, Keeps-gets, Keeps-modify, Keeps-if,
}
use wifi_sniffer.Nvs.Api.{NvsApi}
use wifi_sniffer.Capture.{PcapHdr, PcapRec, pcap_hdr, capture_get_size}
use wifi_sniffer.Capture.Wire.{hdr_bytes, rec_bytes}
use wifi_sniffer.Capture.Callbacks.{capture_set_cb, capture_start, capture_on_send}
use wifi_sniffer.Sniffer.State.{Kernel, Sniffer, capture_started}
use wifi_sniffer.Sniffer.Control.Laws.{IsSniffer, Keeps-post_event}
use wifi_sniffer.Sniffer.Control.Queue.{Keeps-receive}
use wifi_sniffer.Sniffer.Control.Channels.{Keeps-set_promiscuous, Keeps-start, Keeps-stop}
use wifi_sniffer.App.{
  App, on_sniffer, disconnect_socket, on_send, on_socket_accept_handler, give_up_unless,
  on_start_capture, on_capture,
}
use wifi_sniffer.App.Task.{
  app_callbacks, send_received, sniffer_round, sniffer_rounds, sniffer_task,
}

abbrev pub IsApp : {N : NvsApi} → App N → Type 0
IsApp a = IsSniffer a.sniffer

module _ {N : NvsApi} where
  pub Keeps-on_sniffer :
      {A : Type 0} {m : Exec (Sniffer N) A} → Keeps IsSniffer m → Keeps IsApp (on_sniffer m)
  Keeps-on_sniffer {A} {m} k = record { keeps = λ s p. go s (m s.sniffer) (k.keeps s.sniffer p) }
    where
      go :
          (s : App N) (o : Outcome (Sniffer N) A)
          → Returns IsSniffer o
          → Returns IsApp (elim o as (λ _. Outcome (App N) A) [
            | done a t ↦ done a (record s { sniffer = t })
            | aborted e t ↦ aborted e (record s { sniffer = t })
            | fault ↦ fault
          ])
      go s (done a t) q = q
      go s (aborted e t) q = q
      go s fault q = tt

  Keeps-disconnect_socket : (sock : ℕ) → Keeps (IsApp {N = N}) (disconnect_socket sock)
  unfolding disconnect_socket
  Keeps-disconnect_socket sock =
      Keeps-if (sock == 0) (Keeps-pure tt)
        (Keeps-modify (λ s. record s { closed = s.closed ++ (sock ∷ []) }) (λ s p. p))

  Keeps-on_send :
      (written : Option ℕ) (sock : ℕ) (buffer : Bytes)
      → Keeps (IsApp {N = N}) (on_send written sock buffer)
  unfolding on_send
  Keeps-on_send none sock buffer = Keeps-bind (Keeps-disconnect_socket sock) (λ _. Keeps-pure false)
  Keeps-on_send (some n) sock buffer =
      Keeps-bind
        (Keeps-modify (λ s. record s { sent = s.sent ++ ((sock, take n buffer) ∷ []) }) (λ s p. p))
        (λ _. Keeps-pure true)

module _ {N : NvsApi} (k : Kernel) where
  pub Keeps-on_socket_accept_handler :
      (sock : ℕ) → Keeps (IsApp {N = N}) (on_socket_accept_handler k sock)
  unfolding on_socket_accept_handler
  Keeps-on_socket_accept_handler sock = Keeps-bind (Keeps-gets (λ s. s.sock)) (λ old.
      Keeps-bind (Keeps-disconnect_socket old) (λ _.
        Keeps-bind (Keeps-modify (λ s. record s { sock = sock }) (λ s p. p))
          (λ _. Keeps-on_sniffer (Keeps-start k))))

  Keeps-give_up_unless : (b : Bool) → Keeps (IsApp {N = N}) (give_up_unless k b)
  Keeps-give_up_unless true = Keeps-pure tt
  Keeps-give_up_unless false =
      Keeps-bind (Keeps-modify (λ s. record s { sock = 0 }) (λ s p. p))
        (λ _. Keeps-on_sniffer (Keeps-stop k))

  Keeps-on_start_capture :
      (written : Option ℕ) (hdr : PcapHdr) → Keeps (IsApp {N = N}) (on_start_capture k written hdr)
  unfolding on_start_capture
  Keeps-on_start_capture written hdr = Keeps-bind (Keeps-gets (λ s. s.sock)) (λ sock.
      Keeps-if (sock == 0) (Keeps-pure tt)
        (Keeps-bind (Keeps-on_send written sock (hdr_bytes hdr)) Keeps-give_up_unless))

  Keeps-on_capture :
      (written : Option ℕ) (r : PcapRec) (total_size : ℕ)
      → Keeps (IsApp {N = N}) (on_capture k written r total_size)
  unfolding on_capture
  Keeps-on_capture written r total_size = Keeps-bind (Keeps-gets (λ s. s.sock)) (λ sock.
      Keeps-if ((sock == 0) || (r.pcap_rec_hdr.orig_len == 0)) (Keeps-pure tt) (
        Keeps-bind (Keeps-on_send written sock (take total_size (rec_bytes r)))
          Keeps-give_up_unless))

module _ {N : NvsApi} (k : Kernel) (written : PcapRec → Option ℕ) (header_written : Option ℕ) where
  Keeps-send_received :
      (o : Option PcapRec) → Keeps (IsApp {N = N}) (send_received k written header_written o)
  unfolding send_received app_callbacks capture_set_cb capture_on_send
  Keeps-send_received none = Keeps-pure tt
  Keeps-send_received (some r) =
      Keeps-bind
        (Keeps-bind (Keeps-on_capture k (written r) r (capture_get_size r.pcap_rec_hdr))
          (λ _. Keeps-pure (capture_get_size r.pcap_rec_hdr)))
        (λ _. Keeps-pure tt)

  pub Keeps-sniffer_round : Keeps (IsApp {N = N}) (sniffer_round k written header_written)
  unfolding sniffer_round
  Keeps-sniffer_round = Keeps-bind (Keeps-on_sniffer (Keeps-receive k)) Keeps-send_received

  Keeps-sniffer_rounds : (n : ℕ) → Keeps (IsApp {N = N}) (sniffer_rounds k written header_written n)
  unfolding sniffer_rounds
  Keeps-sniffer_rounds zero = Keeps-pure tt
  Keeps-sniffer_rounds (suc n) = Keeps-bind Keeps-sniffer_round (λ _. Keeps-sniffer_rounds n)

  pub Keeps-sniffer_task :
      (snap_len n : ℕ) → Keeps (IsApp {N = N}) (sniffer_task k written header_written snap_len n)
  unfolding sniffer_task app_callbacks capture_set_cb capture_start
  Keeps-sniffer_task snap_len n = Keeps-bind (Keeps-on_sniffer (Keeps-set_promiscuous k true)) (λ _.
      Keeps-bind
        (Keeps-bind
          (Keeps-bind (Keeps-on_start_capture k header_written (pcap_hdr snap_len))
            (λ _. Keeps-pure 24))
          (λ _. Keeps-pure tt))
        (λ _.
          Keeps-bind (Keeps-on_sniffer (Keeps-post_event k capture_started))
            (λ _. Keeps-sniffer_rounds n)))
