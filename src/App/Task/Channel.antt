-- ===== src/App/Task/Channel.antt =====
-- The specification of the queue, the sniffing task and the connection: one channel of bounded size that
-- keeps the order.
use wifi_sniffer.Prelude.{
  ℕ, ◌<◌, ◌≡◌, refl, ap, some, List, [], ◌∷◌, ◌++◌, map, length, ltb, if◌then◌else◌,
}
use wifi_sniffer.Prelude.Bytes.{Bytes}
use wifi_sniffer.Prelude.Results.{}
use wifi_sniffer.Nvs.Api.{NvsApi}
use wifi_sniffer.Capture.{PcapRec}
use wifi_sniffer.App.{App}
use wifi_sniffer.App.Laws.{to_client, AllLong}
use wifi_sniffer.App.Task.{Action, offer, round}

-- The specification: what was delivered, and what waits, oldest first.
pub record Channel : Type 0 where
  pub delivered : List PcapRec
  pub waiting : List PcapRec

abbrev pub accept : ℕ → PcapRec → Channel → Channel
accept size r c =
    if ltb (length c.waiting) size then record c { waiting = c.waiting ++ (r ∷ []) } else c

abbrev pub deliver_from : List PcapRec → Channel → Channel
deliver_from [] c = c
deliver_from (r ∷ q) c = record { delivered = c.delivered ++ (r ∷ []); waiting = q }

abbrev pub deliver : Channel → Channel
deliver c = deliver_from c.waiting c

abbrev pub channel_act : ℕ → Action → Channel → Channel
channel_act size (offer r) c = accept size r c
channel_act size round c = deliver c

abbrev pub channel_acts : ℕ → List Action → Channel → Channel
channel_acts size [] c = c
channel_acts size (a ∷ xs) c = channel_acts size xs (channel_act size a c)

abbrev pub IsLong : Action → Type 0
IsLong (offer r) = 0 < r.pcap_rec_hdr.orig_len
IsLong round = Unit

abbrev pub AllActionsLong : List Action → Type 0
AllActionsLong [] = Unit
AllActionsLong (a ∷ xs) = IsLong a × AllActionsLong xs

-- The state implements the channel for the client of `sock`, who was sent `before` when it began.
pub record Implements {N : NvsApi} (sock size : ℕ) (before : List (ℕ × Bytes)) (c : Channel)
    (s : App N) : Type 0 where
  pub connected : s.sock ≡ sock
  pub sized : s.sniffer.queue_size ≡ size
  pub queued : s.sniffer.packet_queue ≡ some c.waiting
  pub handed : s.sent ≡ before ++ map (to_client sock) c.delivered
  pub all_long : AllLong c.waiting

pub AllLong-append :
    (l : List PcapRec) (r : PcapRec)
    → AllLong l
    → 0 < r.pcap_rec_hdr.orig_len
    → AllLong (l ++ (r ∷ []))
AllLong-append [] r h p = (p, tt)
AllLong-append (x ∷ l) r h p = (h.0, AllLong-append l r h.1 p)

pub map-append :
    (f : PcapRec → ℕ × Bytes) (l m : List PcapRec) → map f (l ++ m) ≡ map f l ++ map f m
map-append f [] m = refl
map-append f (x ∷ l) m = ap (λ t. f x ∷ t) (map-append f l m)
