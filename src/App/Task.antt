-- ===== src/App/Task.antt =====
-- Esp32Sniffer/components/wifi_sniffer/wifi_sniffer.c: `sniffer_task`, with the callbacks that
-- Esp32Sniffer/main/main.c sets. `written` is what each `write` answers for a record.
pub mod Channel
pub mod Refines
pub mod Drain
pub mod Received
pub mod Session
use wifi_sniffer.Prelude.{ℕ, zero, suc, true, Option, none, some, List, [], ◌∷◌}
use wifi_sniffer.Prelude.Results.{Exec, pure, ◌>>=◌, ◌>>◌}
use wifi_sniffer.Nvs.Api.{NvsApi}
use wifi_sniffer.Capture.{PcapHdr, PcapRec}
use wifi_sniffer.Capture.Callbacks.{Callbacks, capture_set_cb, capture_on_send, capture_start}
use wifi_sniffer.Sniffer.State.{Kernel, Sniffer, capture_started}
use wifi_sniffer.Sniffer.Control.{
  sniffer_post_event, sniffer_add_queue, sniffer_receive, set_promiscuous,
}
use wifi_sniffer.App.{App, on_sniffer, on_start_capture, on_capture}

-- A record from the packet handler, or a round of the task.
pub data Action : Type 0 where
  offer : PcapRec → Action
  round : Action

module _ {N : NvsApi} (k : Kernel) (written : PcapRec → Option ℕ) (header_written : Option ℕ) where
  -- `capture_set_cb(on_start_capture, on_capture)`; 24 is the size of the header.
  unfoldable pub app_callbacks : Callbacks (App N)
  unfolding capture_set_cb on_start_capture on_capture
  app_callbacks =
      capture_set_cb (λ hdr. on_start_capture k header_written hdr >> pure 24)
        (λ r total_size. on_capture k (written r) r total_size >> pure total_size)

  unfoldable pub send_received : Option PcapRec → Exec (App N) (Unit {0})
  unfolding app_callbacks capture_on_send
  send_received none = pure tt
  send_received (some r) = capture_on_send app_callbacks r >> pure tt

  -- One round of the loop: a wait for a record, which may end without one.
  unfoldable pub sniffer_round : Exec (App N) (Unit {0})
  unfolding sniffer_receive send_received
  sniffer_round = on_sniffer (sniffer_receive k) >>= send_received

  unfoldable pub sniffer_rounds : ℕ → Exec (App N) (Unit {0})
  unfolding sniffer_round
  sniffer_rounds zero = pure tt
  sniffer_rounds (suc n) = sniffer_round >> sniffer_rounds n

  -- The task up to the end of its first `n` rounds.
  unfoldable pub sniffer_task : ℕ → ℕ → Exec (App N) (Unit {0})
  unfolding set_promiscuous capture_start app_callbacks sniffer_post_event sniffer_rounds
  sniffer_task snap_len n = do
    on_sniffer (set_promiscuous k true)
    capture_start snap_len app_callbacks
    on_sniffer (sniffer_post_event k capture_started)
    sniffer_rounds n

  unfoldable pub act : Action → Exec (App N) (Unit {0})
  unfolding sniffer_add_queue sniffer_round
  act (offer r) = on_sniffer (sniffer_add_queue k r) >>= λ _. pure tt
  act round = sniffer_round

  unfoldable pub acts : List Action → Exec (App N) (Unit {0})
  unfolding act
  acts [] = pure tt
  acts (a ∷ xs) = act a >> acts xs
