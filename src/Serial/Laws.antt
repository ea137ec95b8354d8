-- ===== src/Serial/Laws.antt =====
-- Which messages fit.
use wifi_sniffer.Prelude.{
  ℕ, zero, suc, ◌-◌, ◌≤◌, ◌<◌, ◌≡◌, refl, ap, ◌∙◌, Bool, true, false, Option, none, some, [], ◌∷◌,
  ◌++◌, ◌==◌, leb, length, length-replicate, length-append, length-drop, length-take, take, drop,
  take-append, replicate, arith, if◌then◌else◌,
}
use wifi_sniffer.Prelude.Bytes.{Bytes, store, memcpy}
use wifi_sniffer.Prelude.Partial.{◌>>=?◌}
use wifi_sniffer.Prelude.Results.{fault, Exec, checked, ◌>>=◌}
use wifi_sniffer.Serial.{SerialMessage, rx_message, rx_round}

store-append : (g r : Bytes) (x v : ℕ) → store (g ++ (x ∷ r)) (length g) v ≡ some (g ++ (v ∷ r))
store-append [] r x v = refl
store-append (y ∷ g) r x v = rw (store-append g r x v) refl

store_out : (b : Bytes) (i v : ℕ) → length b ≤ i → store b i v ≡ none
store_out [] i v h = refl
store_out (x ∷ b) zero v h = absurd (omega arith)
store_out (x ∷ b) (suc i) v h = rw (store_out b i v (omega arith)) refl

-- A place within the array is set, and nothing else.
store_in :
    (g r : Bytes) (v : ℕ) → 0 < length r → store (g ++ r) (length g) v ≡ some (g ++ (v ∷ drop 1 r))
store_in g [] v h = absurd (omega arith)
store_in g (x ∷ r) v h = store-append g r x v

copied :
    (g r junk : Bytes)
    → length g ≤ length junk
    → memcpy junk (g ++ r) (length g) ≡ some (g ++ drop (length g) junk)
copied g r junk h = rw (take-append g r) (ground (arith, length-append g r))

memcpy-length :
    (dst src copy : Bytes) (n : ℕ) → memcpy dst src n ≡ some copy → length copy ≡ length dst
memcpy-length dst src copy n h =
    ground (arith, length-append (take n src) (drop n dst), length-take n src, length-drop n dst)

rx_message_fits :
    (port : ℕ) (junk got : Bytes)
    → length junk ≡ 50
    → length got < 50
    → rx_message port junk got
      ≡ some (record {
        src_port = port;
        octets = got ++ (0 ∷ drop 1 (drop (length got) junk));
        size = length got;
      })
unfolding rx_message
rx_message_fits port junk got room short =
    rw
      (
        store_in got (replicate (51 - length got) 0) 0
            (omega (arith, length-replicate {A = ℕ} (51 - length got) 0)),
        copied got (0 ∷ drop 1 (replicate (51 - length got) 0)) junk (omega arith),
        store_in got (drop (length got) junk) 0 (omega (arith, length-drop (length got) junk)),
      )
      refl

-- What is read is copied, but for its end there is no room.
rx_message_long :
    (port : ℕ) (junk got : Bytes)
    → length junk ≡ 50
    → 50 ≤ length got
    → rx_message port junk got ≡ none
unfolding rx_message
rx_message_long port junk got room long =
    ends (store (got ++ replicate (51 - length got) 0) (length got) 0)
  where
    last : (copy : Bytes) → length copy ≡ 50 → store copy (length got) 0 ≡ none
    last copy h = store_out copy (length got) 0 (omega arith)

    made : Bytes → Option SerialMessage
    made text = some (record { src_port = port; octets = text; size = length got })

    copy_ends :
        (o : Option Bytes)
        → ((copy : Bytes) → o ≡ some copy → length copy ≡ 50)
        → (o >>=? λ copy. store copy (length got) 0 >>=? made) ≡ none
    copy_ends none h = refl
    copy_ends (some copy) h = rw (last copy (h copy refl)) refl

    ends :
        (o : Option Bytes)
        → (o >>=? λ octets.
            memcpy junk octets (length got) >>=? λ copy. store copy (length got) 0 >>=? made)
          ≡ none
    ends none = refl
    ends (some octets) =
        copy_ends (memcpy junk octets (length got))
          (λ copy e. memcpy-length junk octets copy (length got) e ∙ room)

-- The reader gets what was read, with its length and a zero behind it, if it has at most 49 octets. The task
-- asks for up to 51: with 50 or 51 octets it writes out of range, and nothing else can happen. There is a
-- reader, and the message has its array of 50 octets.
pub rx_round_lem :
    {S : Type 0} (f : SerialMessage → Exec S (Unit {0})) (port : ℕ) (junk got : Bytes) (s : S)
    → length junk ≡ 50
    → 0 < length got
    → rx_round (some f) port junk got s ≡ (
        if leb (length got) 49
        then f
            (record {
              src_port = port;
              octets = got ++ (0 ∷ drop 1 (drop (length got) junk));
              size = length got;
            })
            s
        else fault)
unfolding rx_round
rx_round_lem {S} f port junk got s room some_got = rw (nonzero) (go (leb (length got) 49) refl)
  where
    nonzero : (length got == 0) ≡ false
    nonzero = ground arith

    message : SerialMessage
    message = record {
      src_port = port;
      octets = got ++ (0 ∷ drop 1 (drop (length got) junk));
      size = length got;
    }

    go :
        (b : Bool)
        → leb (length got) 49 ≡ b
        → (checked (rx_message port junk got) >>= f) s ≡ (if b then f message s else fault)
    go true h =
        ap (λ o. (checked (o) >>= f) s) (rx_message_fits port junk got room (ground (arith, h)))
    go false h =
        ap (λ o. (checked (o) >>= f) s) (rx_message_long port junk got room (ground (arith, h)))
