-- ===== src/Sniffer/Handler/Laws.antt =====
-- The packet handler as a whole: which frames reach the queue, and what they become.
use wifi_sniffer.Prelude.{
  ℕ, zero, suc, Option, none, ◌⊎◌, ◌≤◌, ◌≡◌, refl, subst, ap, sym, ◌∙◌, ◌↔◌, inl, inr, Bool, true,
  false, not, ◌&&◌, some, List, [], ◌∷◌, ◌++◌, ◌==◌, arith, length, ltb, if◌then◌else◌, Bool-cases,
}
use wifi_sniffer.Prelude.Int.{ℤ, pos, negsuc, ◌≤ℤ◌}
use wifi_sniffer.Prelude.Results.{
  fault, ◌>>=◌, done, Exec, pure, as_unit, bind_done, bind_same, checked, ◌>>◌,
}
use wifi_sniffer.Prelude.Bytes.{Bytes}
use wifi_sniffer.Nvs.Api.{NvsApi}
use wifi_sniffer.Capture.{Pkt, PcapRec, capture_create_pcap_record}
use wifi_sniffer.Sniffer.Filter.{PktType, classify}
use wifi_sniffer.Sniffer.Filter.Laws.{
  IsFilter, Matches, Any, seen_ends, searched, header_len, classify_decides,
}
use wifi_sniffer.Sniffer.State.{Kernel, Sniffer, queue_full}
use wifi_sniffer.Sniffer.Control.{sniffer_post_event, sniffer_add_queue, send_to}
use wifi_sniffer.Sniffer.Handler.{
  decide_addresses, take_decision, enqueue, handle_frame, frame_control, rssi_passes, without_fcs,
  wifi_sniffer_packet_handler, is_misc,
}

-- A filter of 0 lets every strength through, a negative one those that are no lower; no strength passes a
-- positive one.
abbrev IsStrong : ℤ → ℤ → Type 0
IsStrong filter rssi = (filter ≡ pos 0) ⊎ ((filter ≤ℤ negsuc 0) × (filter ≤ℤ rssi))

rssi_passes-IsStrong : (filter rssi : ℤ) → (rssi_passes filter rssi ≡ true) ↔ IsStrong filter rssi
unfolding rssi_passes
rssi_passes-IsStrong (pos zero) rssi = (λ _. inl refl, λ _. refl)
rssi_passes-IsStrong (pos (suc n)) rssi =
    (λ e. absurd (ground arith), λ v. elim v [ inl e ↦ ground arith | inr (low, _) ↦ ground arith ])
rssi_passes-IsStrong (negsuc n) rssi = (
  λ e. inr (ground arith, ground arith),
  λ v. elim v [ inl e ↦ ground arith | inr (_, high) ↦ ground arith ],
)

-- A frame is wanted: received without an error, strong enough, not between addresses of which the handler
-- takes one for the device's own, and of the station that is looked for.
pub record IsWanted {N : NvsApi} (s : Sniffer N) (pkt : Pkt) (type : PktType) (fc : ℕ)
    : Type 0 where
  pub known : is_misc type ≡ false
  pub no_error : pkt.rx_ctrl.rx_state ≡ 0
  pub strong : IsStrong s.rssi_filter pkt.rx_ctrl.rssi
  pub not_own : ¬ Any (Matches pkt.payload s.addr_own_mac) (seen_ends type fc)
  pub matches : Any (Matches pkt.payload s.addr2_filter) (searched type fc)

-- The record goes to the end of the queue, or is dropped with an event if the queue is full.
abbrev pub queued : {N : NvsApi} → Kernel → PcapRec → List PcapRec → Exec (Sniffer N) (Unit {0})
queued k r q s =
    if ltb (length q) s.queue_size
    then done tt (record s { packet_queue = some (q ++ (r ∷ [])) })
    else sniffer_post_event k queue_full s

-- The record that is made of the frame, if its octets can all be read.
abbrev pub queue_made :
    {N : NvsApi} → Kernel → Option PcapRec → List PcapRec → Exec (Sniffer N) (Unit {0})
queue_made k none q s = fault
queue_made k (some r) q s = queued k r q s

module _ {N : NvsApi} (k : Kernel) (snap_len len_mod : ℕ) where
  send_lem :
      (s : Sniffer N) (r : PcapRec) (q : List PcapRec)
      → (send_to k (some q) r >> pure tt) s ≡ queued k r q s
  unfolding send_to
  send_lem s r q = elim (Bool-cases (ltb (length q) s.queue_size)) [
    | inl room ↦
        bind_done (send_to k (some q) r) (λ _. pure tt) s
          (record s { packet_queue = some (q ++ (r ∷ [])) }) true (rw room refl)
        ∙ rw room refl
    | inr full ↦
        bind_same (send_to k (some q) r) (sniffer_post_event k queue_full >> pure false)
          (λ _. pure tt) s (rw full refl)
        ∙ as_unit (sniffer_post_event k queue_full) false s
        ∙ rw full refl
  ]

  add_lem :
      (s : Sniffer N) (r : PcapRec) (q : List PcapRec)
      → s.packet_queue ≡ some q
      → (sniffer_add_queue k r >> pure tt) s ≡ queued k r q s
  unfolding sniffer_add_queue
  add_lem s r q e =
      subst (λ o. (send_to k o r >> pure tt) s ≡ queued k r q s) (sym e) (send_lem s r q)

  -- What the handler does once the addresses are decided.
  decide_lem :
      (s : Sniffer N) (type : PktType) (fc : ℕ) (frame : Bytes) (d : Bool × Bool)
      → k.take ≡ true
      → k.give ≡ true
      → classify type fc frame s.addr_own_mac s.addr2_filter ≡ some d
      → decide_addresses k snap_len len_mod type fc frame s ≡ done d s
  unfolding decide_addresses
  decide_lem s type fc frame d take give e = rw (take, give) (ap (λ o. checked o s) e)

  enqueue_lem :
      (s : Sniffer N) (pkt : Pkt) (q : List PcapRec)
      → s.packet_queue ≡ some q
      → enqueue k snap_len len_mod (without_fcs len_mod pkt) s
        ≡ queue_made k (capture_create_pcap_record snap_len (without_fcs len_mod pkt)) q s
  unfolding enqueue
  enqueue_lem s pkt q e = go (capture_create_pcap_record snap_len (without_fcs len_mod pkt))
    where
      go :
          (o : Option PcapRec)
          → (checked o >>= λ r. sniffer_add_queue k r >> pure tt) s ≡ queue_made k o q s
      go none = refl
      go (some r) = add_lem s r q e

  take_lem :
      (s : Sniffer N) (pkt : Pkt) (q : List PcapRec) (own mac : Bool)
      → s.packet_queue ≡ some q
      → take_decision k snap_len len_mod pkt s.rssi_filter (own, mac) s ≡ (
          if rssi_passes s.rssi_filter pkt.rx_ctrl.rssi && (not own && mac)
          then queue_made k (capture_create_pcap_record snap_len (without_fcs len_mod pkt)) q s
          else done tt s)
  unfolding take_decision
  take_lem s pkt q own mac eq =
      elim (Bool-cases (rssi_passes s.rssi_filter pkt.rx_ctrl.rssi && (not own && mac))) [
        | inl yes_taken ↦ rw yes_taken (enqueue_lem s pkt q eq)
        | inr dropped ↦ rw dropped refl
      ]

  -- What the handler does once the addresses are decided.
  handle_frame_lem :
      (s : Sniffer N) (pkt : Pkt) (type : PktType) (fc : ℕ) (q : List PcapRec) (own mac : Bool)
      → k.take ≡ true
      → k.give ≡ true
      → s.packet_queue ≡ some q
      → frame_control pkt.payload ≡ some fc
      → classify type fc pkt.payload s.addr_own_mac s.addr2_filter ≡ some (own, mac)
      → handle_frame k snap_len len_mod pkt type s ≡ (
          if rssi_passes s.rssi_filter pkt.rx_ctrl.rssi && (not own && mac)
          then queue_made k (capture_create_pcap_record snap_len (without_fcs len_mod pkt)) q s
          else done tt s)
  unfolding handle_frame
  handle_frame_lem s pkt type fc q own mac take give eq efc ec = rw efc (
      bind_done (decide_addresses k snap_len len_mod type fc pkt.payload)
        (take_decision k snap_len len_mod pkt s.rssi_filter) s s (own, mac)
        (decide_lem s type fc pkt.payload (own, mac) take give ec)
      ∙ take_lem s pkt q own mac eq)

  wanted_lem :
      (s : Sniffer N) (pkt : Pkt) (type : PktType) (fc : ℕ) (own mac : Bool)
      → ((own ≡ true) ↔ Any (Matches pkt.payload s.addr_own_mac) (seen_ends type fc))
      → ((mac ≡ true) ↔ Any (Matches pkt.payload s.addr2_filter) (searched type fc))
      → ((not (is_misc type)
            && (pkt.rx_ctrl.rx_state == 0)
            && (rssi_passes s.rssi_filter pkt.rx_ctrl.rssi && (not own && mac)))
          ≡ true)
        ↔ IsWanted s pkt type fc
  wanted_lem s pkt type fc own mac i j = (
    λ e. record {
      known = ground arith;
      no_error = ground arith;
      strong = (rssi_passes-IsStrong s.rssi_filter pkt.rx_ctrl.rssi).0 (ground arith);
      not_own = λ a. absurd (clash (i.1 a) e);
      matches = j.0 (ground arith);
    },
    λ w.
        rw
          (
            w.known,
            w.no_error,
            (rssi_passes-IsStrong s.rssi_filter pkt.rx_ctrl.rssi).1 w.strong,
            j.1 w.matches,
          )
          (ground arith),
  )
    where
      clash :
          own ≡ true
          → (not (is_misc type)
              && (pkt.rx_ctrl.rx_state == 0)
              && (rssi_passes s.rssi_filter pkt.rx_ctrl.rssi && (not own && mac)))
            ≡ true
          → ⊥
      clash o e = ground arith

  -- For a frame that has its header, filters that the program builds, a queue and the semaphore, the
  -- handler queues the frame's record, or drops it with an event if the queue is full, exactly if the
  -- frame is wanted; where not all the octets that the record wants can be read, a wanted frame reads past
  -- the payload. A frame is wanted if it is of a known type and without an error, the filter by strength is
  -- 0, or negative and no higher than the frame's strength, none of the addresses that the handler takes it
  -- to be between (it overlooks the BSSID of a PS-Poll, both addresses of a CF-End, and those of control
  -- frames of a subtype below 8) begins with the own address, and one that it may be searched by begins with
  -- the filter's octets. Any other frame changes nothing.
  pub handler_decides :
      (s : Sniffer N) (pkt : Pkt) (type : PktType) (fc : ℕ) (q : List PcapRec)
      → IsFilter s.addr_own_mac
      → IsFilter s.addr2_filter
      → k.take ≡ true
      → k.give ≡ true
      → s.packet_queue ≡ some q
      → frame_control pkt.payload ≡ some fc
      → header_len type fc ≤ length pkt.payload
      → (b : Bool) × (wifi_sniffer_packet_handler k snap_len len_mod pkt type s ≡ (
          if b
          then queue_made k (capture_create_pcap_record snap_len (without_fcs len_mod pkt)) q s
          else done tt s))
        × ((b ≡ true) ↔ IsWanted s pkt type fc)
  unfolding wifi_sniffer_packet_handler
  handler_decides s pkt type fc q vo va take give eq efc room =
      let (own, mac, ec, i, j) =
        classify_decides type fc pkt.payload s.addr_own_mac s.addr2_filter vo va room in
      (
        not (is_misc type)
            && (pkt.rx_ctrl.rx_state == 0)
            && (rssi_passes s.rssi_filter pkt.rx_ctrl.rssi && (not own && mac)),
        elim (Bool-cases (not (is_misc type) && (pkt.rx_ctrl.rx_state == 0))) [
          | inl known ↦ rw known (handle_frame_lem s pkt type fc q own mac take give eq efc ec)
          | inr skipped ↦ rw skipped refl
        ],
        wanted_lem s pkt type fc own mac i j,
      )
