-- ===== src/App.antt =====
-- Esp32Sniffer/main/main.c and Esp32Sniffer/components/tcp_server/tcp_server.c: what a connection, the
-- start of a capture and a captured record do, without the display of CONFIG_LCD_LIB.
pub mod Laws
pub mod Task
pub mod Server
pub mod Button
pub mod Keeping
use wifi_sniffer.Prelude.{
  ℕ, Bool, true, false, not, ◌||◌, Option, none, some, List, [], ◌∷◌, ◌++◌, ◌==◌, take, length,
  if◌then◌else◌,
}
use wifi_sniffer.Prelude.Bytes.{Bytes}
use wifi_sniffer.Prelude.Results.{
  Outcome, done, aborted, fault, Exec, pure, gets, modify, ◌>>=◌, ◌>>◌,
}
use wifi_sniffer.Nvs.Api.{NvsApi}
use wifi_sniffer.Capture.{PcapHdr, PcapRec, capture_get_size}
use wifi_sniffer.Capture.Wire.{hdr_bytes, rec_bytes}
use wifi_sniffer.Sniffer.State.{Kernel, Sniffer}
use wifi_sniffer.Sniffer.Control.{sniffer_start, sniffer_stop}

-- `_sock`, the sockets that were shut and closed, and the octets that `write` took, with their socket,
-- oldest first.
pub record App (N : NvsApi) : Type 0 where
  pub sniffer : Sniffer N
  pub sock : ℕ
  pub closed : List ℕ
  pub sent : List (ℕ × Bytes)

module _ {N : NvsApi} where
  abbrev pub on_sniffer : {A : Type 0} → Exec (Sniffer N) A → Exec (App N) A
  on_sniffer {A} m s = elim (m s.sniffer) as (λ _. Outcome (App N) A) [
    | done a t ↦ done a (record s { sniffer = t })
    | aborted e t ↦ aborted e (record s { sniffer = t })
    | fault ↦ fault
  ]

  unfoldable pub disconnect_socket : ℕ → Exec (App N) (Unit {0})
  disconnect_socket sock =
      if sock == 0 then pure tt else modify (λ s. record s { closed = s.closed ++ (sock ∷ []) })

  -- What `write` answers: an error, or the number of octets that it took. A short write is a success.
  unfoldable pub on_send : Option ℕ → ℕ → Bytes → Exec (App N) Bool
  unfolding disconnect_socket
  on_send none sock buffer = do disconnect_socket sock; pure false
  on_send (some n) sock buffer = do
    modify (λ s. record s { sent = s.sent ++ ((sock, take n buffer) ∷ []) })
    pure true

module _ {N : NvsApi} (k : Kernel) where
  unfoldable pub on_socket_accept_handler : ℕ → Exec (App N) (Unit {0})
  unfolding disconnect_socket
  on_socket_accept_handler sock = do
    old ← gets (λ s. s.sock)
    disconnect_socket old
    modify (λ s. record s { sock = sock })
    on_sniffer (sniffer_start k)

  -- After a failed write the connection is given up.
  abbrev give_up_unless : Bool → Exec (App N) (Unit {0})
  give_up_unless true = pure tt
  give_up_unless false = do modify (λ s. record s { sock = 0 }); on_sniffer (sniffer_stop k)

  unfoldable pub on_start_capture : Option ℕ → PcapHdr → Exec (App N) (Unit {0})
  unfolding on_send
  on_start_capture written hdr = do
    sock ← gets (λ s. s.sock)
    if sock == 0 then pure tt else on_send written sock (hdr_bytes hdr) >>= give_up_unless

  unfoldable pub on_capture : Option ℕ → PcapRec → ℕ → Exec (App N) (Unit {0})
  unfolding on_send
  on_capture written r total_size = do
    sock ← gets (λ s. s.sock)
    if (sock == 0) || (r.pcap_rec_hdr.orig_len == 0)
        then pure tt
        else on_send written sock (take total_size (rec_bytes r)) >>= give_up_unless
