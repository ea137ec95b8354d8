-- ===== src/App/Task/Session.antt =====
-- A whole session, from the start of the task to the client's reader of the pcap format.
use wifi_sniffer.Prelude.{
  ℕ, ◌≤◌, ◌<◌, ◌≡◌, refl, ap, sym, ◌∙◌, Bool, true, false, Option, some, List, [], ◌∷◌, ◌++◌, ◌==◌,
  map, arith, length, if◌then◌else◌,
}
use mathlib.Core.List.{append-nil}
use wifi_sniffer.Prelude.Bytes.{Bytes}
use wifi_sniffer.Prelude.Does.{Does}
use wifi_sniffer.Prelude.Results.{Err, done, Exec, pure, as_unit, bind_done, ◌>>=◌, ◌>>◌}
use wifi_sniffer.Nvs.Api.{NvsApi}
use wifi_sniffer.Capture.{PcapRec, capture_get_size, pcap_hdr}
use wifi_sniffer.Capture.Wire.{hdr_bytes}
use wifi_sniffer.Capture.Reader.{read_stream}
use wifi_sniffer.Capture.Stream.{
  IsCaptured, packet_of, sent_stream, captured-IsWellFormed, read_stream-sent_stream,
}
use wifi_sniffer.Capture.Callbacks.{capture_set_cb, capture_start}
use wifi_sniffer.Sniffer.State.{Kernel, capture_started}
use wifi_sniffer.Sniffer.Control.{set_promiscuous, sniffer_post_event}
use wifi_sniffer.App.{App, on_sniffer, on_start_capture, on_send, give_up_unless}
use wifi_sniffer.App.Laws.{to_client}
use wifi_sniffer.App.Task.{Action, offer, round, app_callbacks, sniffer_task, sniffer_rounds, acts}
use wifi_sniffer.App.Task.Channel.{Channel, channel_acts, AllActionsLong, Implements}
use wifi_sniffer.App.Task.Refines.{acts-Implements}
use wifi_sniffer.App.Task.Drain.{sniffer_rounds_drain}
use wifi_sniffer.App.Task.Received.{
  received, AllOffered, no_records, taken, taken-channel_acts, received-append, same_socket,
  received-to_client,
}

module _ (snap_len : ℕ) (small : snap_len ≤ 2500) (large : 20 ≤ snap_len) where
  is_long : {r : PcapRec} → IsCaptured snap_len r → 0 < r.pcap_rec_hdr.orig_len
  is_long c =
      let w = captured-IsWellFormed snap_len small large c in
      omega (arith, w.holds_header, w.included)

  all_long : (xs : List Action) → AllOffered snap_len xs → AllActionsLong xs
  all_long [] o = tt
  all_long (offer r ∷ xs) o = (is_long o.0, all_long xs o.1)
  all_long (round ∷ xs) o = (tt, all_long xs o)

-- The writes with that of the header.
abbrev with_header : ℕ → ℕ → List (ℕ × Bytes) → List (ℕ × Bytes)
with_header sock snap_len before = before ++ ((sock, hdr_bytes (pcap_hdr snap_len)) ∷ [])

-- The task up to its loop, what happens then, and `n` rounds more.
abbrev pub session :
    {N : NvsApi} → Kernel → (PcapRec → Option ℕ) → ℕ → List Action → ℕ → Exec (App N) (Unit {0})
session k written snap_len xs n =
    sniffer_task k written (some 24) snap_len 0
    >> (acts k written (some 24) xs >> sniffer_rounds k written (some 24) n)

module _ {N : NvsApi} (k : Kernel) (posts : k.post ≡ Err.esp_ok) (tunes : k.wifi ≡ Err.esp_ok)
    (written : PcapRec → Option ℕ)
    (whole : (r : PcapRec) → written r ≡ some (capture_get_size r.pcap_rec_hdr)) (sock size : ℕ)
    (is_sock : 0 < sock) (snap_len : ℕ) where
  -- The task begins: the header is sent.
  task_begins :
      (s : App N)
      → s.sock ≡ sock
      → s.sniffer.queue_size ≡ size
      → s.sniffer.packet_queue ≡ some []
      → Does
          (sniffer_task k written (some 24) snap_len 0)
          s
          (λ _. Implements sock size (with_header sock snap_len s.sent) no_records)
  unfolding sniffer_task set_promiscuous capture_start app_callbacks capture_set_cb on_start_capture
      on_send sniffer_post_event sniffer_rounds
  task_begins s up sized empty =
      let (u, e, same) = announced s.sniffer.event_loop refl in
      (
        tt,
        u,
        bind_done (on_sniffer (set_promiscuous k true)) _ s s₁ tt (rw tunes refl)
            ∙ bind_done (capture_start snap_len (app_callbacks k written (some 24))) _ s₁ s₂ tt
                header_sent
            ∙ bind_done (on_sniffer (sniffer_post_event k capture_started))
                (λ _. sniffer_rounds k written (some 24) 0) s₂ u tt e,
        same,
      )
    where
      connected : (s.sock == 0) ≡ false
      connected = ground arith

      s₁ : App N
      s₁ = record s { sniffer = record (s.sniffer) { promiscuous = true } }

      s₂ : App N
      s₂ = record s₁ { sent = s.sent ++ ((s.sock, hdr_bytes (pcap_hdr snap_len)) ∷ []) }

      header_sent : capture_start snap_len (app_callbacks k written (some 24)) s₁ ≡ done tt s₂
      header_sent =
          as_unit (on_start_capture k (some 24) (pcap_hdr snap_len)) 24 s₁
          ∙ ap
              (λ b.
                (if b
                    then pure tt
                    else on_send (some 24) s.sock (hdr_bytes (pcap_hdr snap_len))
                      >>= give_up_unless k)
                  s₁)
              connected

      begun : App N → Type 0
      begun = Implements sock size (with_header sock snap_len s.sent) no_records

      told :
          s.sent ++ ((s.sock, hdr_bytes (pcap_hdr snap_len)) ∷ [])
          ≡ with_header sock snap_len s.sent ++ []
      told =
          ap (λ c. s.sent ++ ((c, hdr_bytes (pcap_hdr snap_len)) ∷ [])) up
          ∙ sym (append-nil (with_header sock snap_len s.sent))

      announced :
          (b : Bool)
          → s.sniffer.event_loop ≡ b
          → (u : App N) × (on_sniffer (sniffer_post_event k capture_started) s₂ ≡ done tt u)
            × begun u
      announced true live = (
        record s₂ {
          sniffer = record (s₁.sniffer) { events = s.sniffer.events ++ (capture_started ∷ []) };
        },
        rw (live, posts) refl,
        record { connected = up; sized = sized; queued = empty; handed = told; all_long = tt },
      )
      announced false off = (
        s₂,
        rw off refl,
        record { connected = up; sized = sized; queued = empty; handed = told; all_long = tt },
      )

  -- A client that has had nothing yet is connected, the queue is empty, the driver, the event loop and the
  -- writes accept all, the snap length is between 20 and 2500, and the records are made of captured frames:
  -- whatever the order in which records are offered and the task makes its rounds, with as many rounds at the
  -- end as there are records in the queue, the session returns, and a reader of the pcap format finds in
  -- what the client received the header and, in order, exactly the records that a channel of the queue's
  -- size takes, each whole.
  pub session_is_read :
      (xs : List Action) (n : ℕ) (s : App N)
      → snap_len ≤ 2500
      → 20 ≤ snap_len
      → AllOffered snap_len xs
      → s.sock ≡ sock
      → s.sniffer.queue_size ≡ size
      → s.sniffer.packet_queue ≡ some []
      → received sock s.sent ≡ []
      → length (channel_acts size xs no_records).waiting ≤ n
      → (t : App N) × (session k written snap_len xs n s ≡ done tt t)
        × (read_stream (received sock t.sent)
            ≡ some (pcap_hdr snap_len, map packet_of (taken (channel_acts size xs no_records))))
  session_is_read xs n s small large offered up sized empty fresh enough =
      let (_, u, e, begun) = task_begins s up sized empty in
      let (v, e', p) =
        acts-Implements k posts written (some 24) whole sock size (with_header sock snap_len s.sent)
          is_sock xs no_records u (all_long snap_len small large xs offered) begun in
      let (t, e'', drained, sent) =
        sniffer_rounds_drain k posts written (some 24) whole sock size
          (with_header sock snap_len s.sent) is_sock n end.waiting end.delivered v enough p in
      (
        t,
        bind_done (sniffer_task k written (some 24) snap_len 0) _ s u tt e
            ∙ bind_done (acts k written (some 24) xs) (λ _. sniffer_rounds k written (some 24) n) u
                v tt e'
            ∙ e'',
        ap (λ l. read_stream (received sock l)) sent
            ∙ ap read_stream got_all
            ∙ read_stream-sent_stream snap_len small large (taken end)
                (taken-channel_acts snap_len size xs no_records offered tt),
      )
    where
      end : Channel
      end = channel_acts size xs no_records

      got_header : received sock (with_header sock snap_len s.sent) ≡ hdr_bytes (pcap_hdr snap_len)
      got_header =
          received-append sock s.sent ((sock, hdr_bytes (pcap_hdr snap_len)) ∷ [])
          ∙ ap (λ b. b ++ received sock ((sock, hdr_bytes (pcap_hdr snap_len)) ∷ [])) fresh
          ∙ ap (λ b. if b then hdr_bytes (pcap_hdr snap_len) ++ [] else []) (same_socket sock)

      got_all :
          received sock (with_header sock snap_len s.sent ++ map (to_client sock) (taken end))
          ≡ hdr_bytes (pcap_hdr snap_len) ++ sent_stream (taken end)
      got_all =
          received-append sock (with_header sock snap_len s.sent) (map (to_client sock) (taken end))
          ∙ ap (λ b. b ++ received sock (map (to_client sock) (taken end))) got_header
          ∙ ap (λ b. hdr_bytes (pcap_hdr snap_len) ++ b) (received-to_client sock (taken end))
