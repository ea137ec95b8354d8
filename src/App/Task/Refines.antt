-- ===== src/App/Task/Refines.antt =====
-- The queue, the sniffing task and the connection implement the channel.
use wifi_sniffer.Prelude.{
  ℕ, ◌<◌, ◌≡◌, refl, sym, ap, subst, ◌∙◌, Bool, true, false, Option, none, some, List, [], ◌∷◌,
  ◌++◌, map, length, ltb, if◌then◌else◌,
}
use mathlib.Core.List.{append_assoc}
use wifi_sniffer.Prelude.Bytes.{Bytes}
use wifi_sniffer.Prelude.Results.{
  Err, Outcome, done, aborted, fault, Exec, pure, as_unit, bind_done,
}
use wifi_sniffer.Nvs.Api.{NvsApi}
use wifi_sniffer.Capture.{PcapRec, capture_get_size}
use wifi_sniffer.Capture.Callbacks.{capture_on_send}
use wifi_sniffer.Sniffer.State.{Kernel, Sniffer, queue_full}
use wifi_sniffer.Sniffer.Control.{sniffer_post_event, send_to, sniffer_add_queue, sniffer_receive}
use wifi_sniffer.Sniffer.Control.Queue.{sniffer_receive_empty, sniffer_receive_oldest}
use wifi_sniffer.App.{App, on_sniffer, on_capture}
use wifi_sniffer.App.Laws.{to_client, AllLong, on_capture_whole}
use wifi_sniffer.App.Task.{
  Action, offer, round, act, acts, app_callbacks, send_received, sniffer_round,
}
use wifi_sniffer.App.Task.Channel.{
  Channel, deliver_from, channel_act, channel_acts, IsLong, AllActionsLong, Implements,
  AllLong-append, map-append,
}

module _ {N : NvsApi} (k : Kernel) (posts : k.post ≡ Err.esp_ok) where
  on_sniffer_lem :
      {A : Type 0} (m : Exec (Sniffer N) A) (s : App N) (a : A) (u : Sniffer N)
      → m s.sniffer ≡ done a u
      → on_sniffer m s ≡ done a (record s { sniffer = u })
  on_sniffer_lem {A} m s a u h =
      ap
        (λ o. elim o as (λ _. Outcome (App N) A) [
          | done b t ↦ done b (record s { sniffer = t })
          | aborted e t ↦ aborted e (record s { sniffer = t })
          | fault ↦ fault
        ])
        h

  add_queue_room :
      (r : PcapRec) (q : List PcapRec) (s : Sniffer N)
      → s.packet_queue ≡ some q
      → ltb (length q) s.queue_size ≡ true
      → sniffer_add_queue k r s ≡ done true (record s { packet_queue = some (q ++ (r ∷ [])) })
  unfolding sniffer_add_queue send_to
  add_queue_room r q s e room = ap (λ o. send_to k o r s) e ∙ rw (room) refl

  add_queue_full :
      (r : PcapRec) (q : List PcapRec) (s : Sniffer N)
      → s.packet_queue ≡ some q
      → ltb (length q) s.queue_size ≡ false
      → (u : Sniffer N) × (sniffer_add_queue k r s ≡ done false u)
        × (u.packet_queue ≡ s.packet_queue)
        × (u.queue_size ≡ s.queue_size)
  unfolding sniffer_add_queue send_to sniffer_post_event
  add_queue_full r q s e full = go s.event_loop refl
    where
      go :
          (b : Bool)
          → s.event_loop ≡ b
          → (u : Sniffer N) × (sniffer_add_queue k r s ≡ done false u)
            × (u.packet_queue ≡ s.packet_queue)
            × (u.queue_size ≡ s.queue_size)
      go true live = (
        record s { events = s.events ++ (queue_full ∷ []) },
        ap (λ o. send_to k o r s) e ∙ rw (full, live, posts) refl,
        refl,
        refl,
      )
      go false off = (s, ap (λ o. send_to k o r s) e ∙ rw (full, off) refl, refl, refl)

  module _ (written : PcapRec → Option ℕ) (header_written : Option ℕ)
      (whole : (r : PcapRec) → written r ≡ some (capture_get_size r.pcap_rec_hdr)) where
    send_received_lem :
        (r : PcapRec) (s : App N)
        → 0 < s.sock
        → 0 < r.pcap_rec_hdr.orig_len
        → send_received k written header_written (some r) s
          ≡ done tt (record s { sent = s.sent ++ (to_client s.sock r ∷ []) })
    unfolding send_received app_callbacks capture_on_send
    send_received_lem r s h l =
        as_unit (on_capture k (written r) r (capture_get_size r.pcap_rec_hdr))
          (capture_get_size r.pcap_rec_hdr) s
        ∙ ap (λ w. on_capture k w r (capture_get_size r.pcap_rec_hdr) s) (whole r)
        ∙ on_capture_whole k r s h l

    module _ (sock size : ℕ) (before : List (ℕ × Bytes)) (is_sock : 0 < sock) where
      abbrev Steps : Action → Channel → App N → Type 0
      Steps a c s =
          (t : App N) × (act k written header_written a s ≡ done tt t)
          × Implements sock size before (channel_act size a c) t

      offer-Implements :
          (r : PcapRec) (c : Channel) (s : App N)
          → 0 < r.pcap_rec_hdr.orig_len
          → Implements sock size before c s
          → Steps (offer r) c s
      unfolding act
      offer-Implements r c s l p = go (ltb (length c.waiting) size) refl
        where
          go :
              (b : Bool)
              → ltb (length c.waiting) size ≡ b
              → (t : App N) × (act k written header_written (offer r) s ≡ done tt t)
                × Implements sock size before
                    (if b then record c { waiting = c.waiting ++ (r ∷ []) } else c)
                    t
          go true room =
              let u = record (s.sniffer) { packet_queue = some (c.waiting ++ (r ∷ [])) } in
              (
                record s { sniffer = u },
                bind_done (on_sniffer (sniffer_add_queue k r)) (λ _. pure tt) s
                    (record s { sniffer = u }) true
                    (on_sniffer_lem (sniffer_add_queue k r) s true u (
                      add_queue_room r c.waiting s.sniffer p.queued
                        (ap (ltb (length c.waiting)) p.sized ∙ room))),
                record {
                  connected = p.connected;
                  sized = p.sized;
                  queued = refl;
                  handed = p.handed;
                  all_long = AllLong-append c.waiting r p.all_long l;
                },
              )
          go false full =
              let (u, e, same, same_size) =
                add_queue_full r c.waiting s.sniffer p.queued
                  (ap (ltb (length c.waiting)) p.sized ∙ full) in
              (
                record s { sniffer = u },
                bind_done (on_sniffer (sniffer_add_queue k r)) (λ _. pure tt) s
                    (record s { sniffer = u }) false
                    (on_sniffer_lem (sniffer_add_queue k r) s false u e),
                record {
                  connected = p.connected;
                  sized = same_size ∙ p.sized;
                  queued = same ∙ p.queued;
                  handed = p.handed;
                  all_long = p.all_long;
                },
              )

      pub round-Implements :
          (c : Channel) (s : App N) → Implements sock size before c s → Steps round c s
      unfolding act sniffer_round send_received
      round-Implements c s p = go c.waiting p.queued p.all_long
        where
          go :
              (q : List PcapRec)
              → s.sniffer.packet_queue ≡ some q
              → AllLong q
              → (t : App N) × (act k written header_written round s ≡ done tt t)
                × Implements sock size before (deliver_from q c) t
          go [] e l = (
            s,
            bind_done (on_sniffer (sniffer_receive k)) (send_received k written header_written) s s
                none
                (on_sniffer_lem (sniffer_receive k) s none s.sniffer
                  (sniffer_receive_empty k s.sniffer e)),
            p,
          )
          go (r ∷ q) e l =
              let u = record s { sniffer = record (s.sniffer) { packet_queue = some q } } in
              (
                record u { sent = s.sent ++ (to_client s.sock r ∷ []) },
                bind_done (on_sniffer (sniffer_receive k)) (send_received k written header_written)
                      s u (some r)
                      (on_sniffer_lem (sniffer_receive k) s (some r) u.sniffer
                        (sniffer_receive_oldest k r q s.sniffer e))
                    ∙ send_received_lem r u (subst (λ n. 0 < n) (sym p.connected) is_sock) l.0,
                record {
                  connected = p.connected;
                  sized = p.sized;
                  queued = refl;
                  handed = handed_on r;
                  all_long = l.1;
                },
              )
            where
              handed_on :
                  (r : PcapRec)
                  → s.sent ++ (to_client s.sock r ∷ [])
                    ≡ before ++ map (to_client sock) (c.delivered ++ (r ∷ []))
              handed_on r =
                  rw (p.connected, p.handed, map-append (to_client sock) c.delivered (r ∷ []))
                    (append_assoc before (map (to_client sock) c.delivered) (to_client sock r ∷ []))

      act-Implements :
          (a : Action) (c : Channel) (s : App N)
          → IsLong a
          → Implements sock size before c s
          → Steps a c s
      act-Implements (offer r) c s l p = offer-Implements r c s l p
      act-Implements round c s l p = round-Implements c s p

      -- The queue, the task and the connection implement a bounded channel: whatever the order of the
      -- records from the handler and of the task's rounds, the run returns in a state that stands for what
      -- the channel does with the same actions. A client is connected, every `write` takes a whole record,
      -- the records have an original length above 0, and events can be posted.
      pub acts-Implements :
          (xs : List Action) (c : Channel) (s : App N)
          → AllActionsLong xs
          → Implements sock size before c s
          → (t : App N) × (acts k written header_written xs s ≡ done tt t)
            × Implements sock size before (channel_acts size xs c) t
      unfolding acts
      acts-Implements [] c s l p = (s, refl, p)
      acts-Implements (a ∷ xs) c s l p =
          let (u, e, q) = act-Implements a c s l.0 p in
          let (t, e', q') = acts-Implements xs (channel_act size a c) u l.1 q in
          (
            t,
            bind_done (act k written header_written a) (λ _. acts k written header_written xs) s u
                  tt e
                ∙ e',
            q',
          )
