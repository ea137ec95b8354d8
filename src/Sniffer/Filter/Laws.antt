-- ===== src/Sniffer/Filter/Laws.antt =====
-- The packet handler's decision against the roles that IEEE 802.11 gives a frame's addresses.
use wifi_sniffer.Prelude.{
  ℕ, ◌+◌, ◌≤◌, ◌&&◌, ◌||◌, ◌≡◌, refl, ◌↔◌, ◌⊎◌, inl, inr, Bool, true, false, Option, some, List, [],
  ◌∷◌, ◌==◌, arith, length, length-drop, take, drop, leb, if◌then◌else◌, Bool-cases,
}
use mathlib.Core.Bool.{false≢true}
use wifi_sniffer.Prelude.Bytes.{Bytes, bytes_eq, bytes_eq_refl, bytes_eq→eq}
use wifi_sniffer.Sniffer.Settings.{AddrFilter}
use wifi_sniffer.Sniffer.Frames.{fc_subtype, fc_to_ds, fc_from_ds}
use wifi_sniffer.Sniffer.Filter.{
  PktType, pkt_mgmt, pkt_ctrl, pkt_data, pkt_misc, is_addr_equal, any_addr_equal, compared,
  classify,
}

-- Addresses 1 to 3 of an 802.11 header start at octets 4, 10 and 16.
abbrev address_1 : ℕ
address_1 = 4

abbrev address_2 : ℕ
address_2 = 10

abbrev address_3 : ℕ
address_3 = 16

-- Who sent a data frame: its source, or in a four-address frame the transmitter.
abbrev pub data_source : ℕ → ℕ → ℕ
data_source to from = if from == 1 then (if to == 1 then address_2 else address_3) else address_2

-- Whom it is for: its destination, or in a four-address frame the receiver.
abbrev pub data_destination : ℕ → ℕ → ℕ
data_destination to from =
    if to == 1 then (if from == 1 then address_1 else address_3) else address_1

-- Control frames: block ack request, block ack, PS-Poll (the BSSID comes first), RTS and the two kinds
-- of CF-End have a receiver and a transmitter, CTS and ACK a receiver only.
abbrev control_ends : ℕ → List ℕ
control_ends subtype =
    if (subtype == 12) || (subtype == 13)
    then address_1 ∷ []
    else if leb 8 subtype
    then address_2 ∷ address_1 ∷ []
    else []

-- The addresses that a frame is between.
abbrev pub ends : PktType → ℕ → List ℕ
ends pkt_mgmt fc = address_2 ∷ address_1 ∷ address_3 ∷ []
ends pkt_data fc =
    data_source (fc_to_ds fc) (fc_from_ds fc) ∷ data_destination (fc_to_ds fc) (fc_from_ds fc) ∷ []
ends pkt_ctrl fc = control_ends (fc_subtype fc)
ends pkt_misc fc = []

-- Those that the handler does not look at: the BSSID of a PS-Poll, and both addresses of a CF-End.
abbrev overlooked : PktType → ℕ → ℕ → Bool
overlooked pkt_ctrl fc at = ((fc_subtype fc == 10) && (at == address_1)) || leb 14 (fc_subtype fc)
overlooked _ fc at = false

abbrev looked_at : PktType → ℕ → List ℕ → List ℕ
looked_at type fc [] = []
looked_at type fc (at ∷ ats) =
    let rest = looked_at type fc ats in if overlooked type fc at then rest else at ∷ rest

-- The addresses that the handler takes a frame to be between.
abbrev pub seen_ends : PktType → ℕ → List ℕ
seen_ends type fc = looked_at type fc (ends type fc)

abbrev first : List ℕ → List ℕ
first [] = []
first (a ∷ _) = a ∷ []

-- Those that a frame may be searched by: the source, of a management frame also the destination.
abbrev pub searched : PktType → ℕ → List ℕ
searched pkt_mgmt fc = address_2 ∷ address_1 ∷ []
searched type fc = first (seen_ends type fc)

-- The octets that a frame has at least, by its type.
abbrev pub header_len : PktType → ℕ → ℕ
header_len pkt_mgmt fc = 24
header_len pkt_data fc = 24
header_len pkt_ctrl fc = if leb (fc_subtype fc) 11 then 16 else 10
header_len pkt_misc fc = 0

-- A filter that the program builds: six octets, of which at most six count.
pub record IsFilter (f : AddrFilter) : Type 0 where
  pub octets : length f.addr ≡ 6
  pub fits : f.size ≤ 6

-- The address at an offset begins with the filter's octets.
abbrev pub Matches : Bytes → AddrFilter → ℕ → Type 0
Matches frame f at = take f.size (drop at frame) ≡ take f.size f.addr

abbrev pub Any {ℓ} : {A : Type ℓ} → (A → Type 0) → List A → Type 0
Any P [] = ⊥
Any P (x ∷ xs) = P x ⊎ Any P xs

compared-ends : (type : PktType) (fc : ℕ) → (compared type fc).own ≡ seen_ends type fc
unfolding compared
compared-ends pkt_mgmt fc = refl
compared-ends pkt_data fc = ground arith
compared-ends pkt_ctrl fc = ground arith
compared-ends pkt_misc fc = refl

compared-searched : (type : PktType) (fc : ℕ) → (compared type fc).source ≡ searched type fc
unfolding compared
compared-searched pkt_mgmt fc = refl
compared-searched pkt_data fc = ground arith
compared-searched pkt_ctrl fc = ground arith
compared-searched pkt_misc fc = refl

abbrev pub All {ℓ} : {A : Type ℓ} → (A → Type 0) → List A → Type 0
All P [] = Unit
All P (x ∷ xs) = P x × All P xs

-- An answer of a comparison that was made within range, and what it means.
abbrev pub Decides : Option Bool → Type 0 → Type 0
Decides o P = (b : Bool) × (o ≡ some b) × ((b ≡ true) ↔ P)

pub is_addr_equal_decides :
    (frame : Bytes) (at : ℕ) (f : AddrFilter)
    → IsFilter f
    → at + 6 ≤ length frame
    → Decides (is_addr_equal frame at f) (Matches frame f at)
unfolding is_addr_equal
is_addr_equal_decides frame at f v h = elim (Bool-cases (f.size == 0)) [
  | inl none_counts ↦ (true, rw none_counts, (λ _. rw (size-zero none_counts), λ _. refl))
  | inr some_count ↦ (
    bytes_eq (take f.size (drop at frame)) (take f.size f.addr),
    rw some_count (ground (arith, length-drop at frame, v.octets, v.fits)),
    (bytes_eq→eq _ _, λ e. rw e (bytes_eq_refl (take f.size f.addr))),
  )
]
  where
    size-zero : (f.size == 0) ≡ true → f.size ≡ 0
    size-zero e = ground arith

pub any_addr_equal_decides :
    (frame : Bytes) (ats : List ℕ) (f : AddrFilter)
    → IsFilter f
    → All (λ at. at + 6 ≤ length frame) ats
    → Decides (any_addr_equal frame ats f) (Any (Matches frame f) ats)
unfolding any_addr_equal
any_addr_equal_decides frame [] f v h = (false, refl, (λ e. cc, λ e. absurd e))
any_addr_equal_decides frame (at ∷ ats) f v h =
    let (b, e, i) = is_addr_equal_decides frame at f v h.0 in
    let (b', e', i') = any_addr_equal_decides frame ats f v h.1 in join b e i b' e' i'
  where
    join :
        (b : Bool)
        → is_addr_equal frame at f ≡ some b
        → ((b ≡ true) ↔ Matches frame f at)
        → (b' : Bool) → any_addr_equal frame ats f ≡ some b'
        → ((b' ≡ true) ↔ Any (Matches frame f) ats)
        → Decides (any_addr_equal frame (at ∷ ats) f) (Any (Matches frame f) (at ∷ ats))
    join true e i b' e' i' = (true, rw (e, any_addr_equal), (λ _. inl (i.0 refl), λ _. refl))
    join false e i b' e' i' = (
      b',
      rw (e, any_addr_equal) e',
      (λ t. inr (i'.0 t), λ m. elim m [ inl y ↦ absurd (false≢true (i.1 y)) | inr y ↦ i'.1 y ]),
    )

ends_in :
    (type : PktType) (fc : ℕ) (n : ℕ)
    → header_len type fc ≤ n
    → All (λ at. at + 6 ≤ n) (seen_ends type fc) × All (λ at. at + 6 ≤ n) (searched type fc)
ends_in pkt_mgmt fc n h = omega arith
ends_in pkt_data fc n h = ground arith
ends_in pkt_ctrl fc n h = ground arith
ends_in pkt_misc fc n h = (tt, tt)

pub classify_decides :
    (type : PktType) (fc : ℕ) (frame : Bytes) (own addr2 : AddrFilter)
    → IsFilter own
    → IsFilter addr2
    → header_len type fc ≤ length frame
    → (is_own mac_filter : Bool) × (classify type fc frame own addr2 ≡ some (is_own, mac_filter))
      × ((is_own ≡ true) ↔ Any (Matches frame own) (seen_ends type fc))
      × ((mac_filter ≡ true) ↔ Any (Matches frame addr2) (searched type fc))
unfolding classify
classify_decides type fc frame own addr2 vo va h =
    let (room, room') = ends_in type fc (length frame) h in
    let (b, e, i) = any_addr_equal_decides frame (seen_ends type fc) own vo room in
    let (b', e', i') = any_addr_equal_decides frame (searched type fc) addr2 va room' in
    (b, b', rw (compared-ends type fc, compared-searched type fc) (rw e (rw e')), i, i')
