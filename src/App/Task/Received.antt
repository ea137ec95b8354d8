-- ===== src/App/Task/Received.antt =====
-- What a client receives, and which records a channel takes.
use wifi_sniffer.Prelude.{
  ℕ, ◌≡◌, refl, ap, subst, sym, ◌∙◌, Bool, true, false, List, [], ◌∷◌, ◌++◌, ◌==◌, map, arith,
  length, ltb, if◌then◌else◌,
}
use mathlib.Core.List.{append_assoc}
use wifi_sniffer.Prelude.Bytes.{Bytes}
use wifi_sniffer.Capture.{PcapRec}
use wifi_sniffer.Capture.Wire.{sent_bytes}
use wifi_sniffer.Capture.Stream.{IsCaptured, AllCaptured, sent_stream}
use wifi_sniffer.App.Laws.{to_client}
use wifi_sniffer.App.Task.{Action, offer, round}
use wifi_sniffer.App.Task.Channel.{Channel, accept, deliver, deliver_from, channel_acts}

-- What a client has received on its socket, in the order of the writes.
abbrev pub received : ℕ → List (ℕ × Bytes) → Bytes
received sock [] = []
received sock ((to, b) ∷ l) = let rest = received sock l in if to == sock then b ++ rest else rest

-- The packet handler offers records that were captured.
abbrev pub AllOffered : ℕ → List Action → Type 0
AllOffered snap_len [] = Unit
AllOffered snap_len (offer r ∷ xs) = IsCaptured snap_len r × AllOffered snap_len xs
AllOffered snap_len (round ∷ xs) = AllOffered snap_len xs

abbrev pub no_records : Channel
no_records = record { delivered = []; waiting = [] }

-- Every record that the channel took: those that it delivered and those that wait.
abbrev pub taken : Channel → List PcapRec
taken c = c.delivered ++ c.waiting

AllCaptured-append :
    (snap_len : ℕ) (l m : List PcapRec)
    → AllCaptured snap_len l
    → AllCaptured snap_len m
    → AllCaptured snap_len (l ++ m)
AllCaptured-append snap_len [] m p q = q
AllCaptured-append snap_len (r ∷ l) m p q = (p.0, AllCaptured-append snap_len l m p.1 q)

taken-accept :
    (snap_len size : ℕ) (r : PcapRec) (c : Channel)
    → IsCaptured snap_len r
    → AllCaptured snap_len (taken c)
    → AllCaptured snap_len (taken (accept size r c))
taken-accept snap_len size r c v p = go (ltb (length c.waiting) size)
  where
    go :
        (b : Bool)
        → AllCaptured snap_len
            (taken (if b then record c { waiting = c.waiting ++ (r ∷ []) } else c))
    go true =
        subst (AllCaptured snap_len) (append_assoc c.delivered c.waiting (r ∷ []))
          (AllCaptured-append snap_len (taken c) (r ∷ []) p (v, tt))
    go false = p

taken-deliver : (c : Channel) → taken (deliver c) ≡ taken c
taken-deliver c = go c.waiting
  where
    go : (w : List PcapRec) → taken (deliver_from w (record c { waiting = w })) ≡ c.delivered ++ w
    go [] = refl
    go (r ∷ w) = append_assoc c.delivered (r ∷ []) w

pub taken-channel_acts :
    (snap_len size : ℕ) (xs : List Action) (c : Channel)
    → AllOffered snap_len xs
    → AllCaptured snap_len (taken c)
    → AllCaptured snap_len (taken (channel_acts size xs c))
taken-channel_acts snap_len size [] c o p = p
taken-channel_acts snap_len size (offer r ∷ xs) c o p =
    taken-channel_acts snap_len size xs (accept size r c) o.1 (taken-accept snap_len size r c o.0 p)
taken-channel_acts snap_len size (round ∷ xs) c o p =
    taken-channel_acts snap_len size xs (deliver c) o
      (subst (AllCaptured snap_len) (sym (taken-deliver c)) p)

pub received-append :
    (sock : ℕ) (l m : List (ℕ × Bytes))
    → received sock (l ++ m) ≡ received sock l ++ received sock m
received-append sock [] m = refl
received-append sock ((to, b) ∷ l) m = go (to == sock) (received-append sock l m)
  where
    go :
        (x : Bool)
        → received sock (l ++ m) ≡ received sock l ++ received sock m
        → (if x then b ++ received sock (l ++ m) else received sock (l ++ m))
          ≡ (if x then b ++ received sock l else received sock l) ++ received sock m
    go true e = ap (λ t. b ++ t) e ∙ sym (append_assoc b (received sock l) (received sock m))
    go false e = e

pub same_socket : (sock : ℕ) → (sock == sock) ≡ true
same_socket sock = ground arith

pub received-to_client :
    (sock : ℕ) (rs : List PcapRec) → received sock (map (to_client sock) rs) ≡ sent_stream rs
received-to_client sock [] = refl
received-to_client sock (r ∷ rs) =
    rw (same_socket sock) (ap (λ t. sent_bytes r ++ t) (received-to_client sock rs))
