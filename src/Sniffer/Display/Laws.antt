-- ===== src/Sniffer/Display/Laws.antt =====
-- What is told of a packet is what its frame says.
use wifi_sniffer.Prelude.{
  ℕ, ◌+◌, ◌*◌, ◌/◌, ◌%◌, ◌<◌, ◌≤◌, ◌≡◌, refl, ap, ◌∙◌, ◌↔◌, ◌⊎◌, inl, inr, Bool, true, false, some,
  [], ◌∷◌, length, arith,
}
use mathlib.Core.Bool.{false≢true}
use wifi_sniffer.Prelude.Int.{ℤ, pos, negsuc, int16, ◌≤ℤ◌}
use wifi_sniffer.Prelude.Bytes.{Bytes}
use wifi_sniffer.Prelude.Results.{done}
use wifi_sniffer.Nvs.Api.{NvsApi}
use wifi_sniffer.Capture.{RxCtrl, record_of}
use wifi_sniffer.Sniffer.Frames.{get_seq}
use wifi_sniffer.Sniffer.Frames.Laws.{get_seq_fields}
use wifi_sniffer.Sniffer.Filter.{is_addr_equal, any_addr_equal, pkt_mgmt}
use wifi_sniffer.Sniffer.Filter.Laws.{
  IsFilter, Matches, Any, ends, is_addr_equal_decides, any_addr_equal_decides,
}
use wifi_sniffer.Sniffer.State.{Kernel, Sniffer}
use wifi_sniffer.Sniffer.Display.{
  mac_text, in_20, sniffer_to_packet_data, filter_packet, colour_of, red,
}

-- Of a record that was made over a frame of a frame control field, a duration, three addresses and a
-- sequence control field, the packet data are the frame's fragment and sequence numbers, the texts of its
-- second and third address, its frame control field, and the strength and channel that the driver reported.
pub sniffer_to_packet_data-record_of :
    (snap_len : ℕ) (ctrl : RxCtrl) (junk rest : Bytes)
    (f₀ f₁ d₀ d₁ r₀ r₁ r₂ r₃ r₄ r₅ t₀ t₁ t₂ t₃ t₄ t₅ s₀ s₁ s₂ s₃ s₄ s₅ frag seq : ℕ)
    → frag < 16
    → seq < 4096
    → sniffer_to_packet_data junk (
        record_of snap_len ctrl (
          f₀
          ∷ f₁
          ∷ d₀
          ∷ d₁
          ∷ r₀
          ∷ r₁
          ∷ r₂
          ∷ r₃
          ∷ r₄
          ∷ r₅
          ∷ t₀
          ∷ t₁
          ∷ t₂
          ∷ t₃
          ∷ t₄
          ∷ t₅
          ∷ s₀
          ∷ s₁
          ∷ s₂
          ∷ s₃
          ∷ s₄
          ∷ s₅
          ∷ ((frag + 16 * seq) % 256)
          ∷ ((frag + 16 * seq) / 256)
          ∷ rest))
      ≡ some (record {
        sq = record { frag = frag; seq = seq };
        ta = in_20 (mac_text (t₀ ∷ t₁ ∷ t₂ ∷ t₃ ∷ t₄ ∷ t₅ ∷ [])) junk;
        addr3 = in_20 (mac_text (s₀ ∷ s₁ ∷ s₂ ∷ s₃ ∷ s₄ ∷ s₅ ∷ [])) junk;
        rssi = ctrl.rssi;
        fctl = int16 (pos (f₀ + f₁ * 256));
        channel = ctrl.channel;
      })
unfolding sniffer_to_packet_data record_of
sniffer_to_packet_data-record_of snap_len ctrl junk rest f₀ f₁ d₀ d₁ r₀ r₁ r₂ r₃ r₄ r₅ t₀ t₁ t₂ t₃
      t₄ t₅ s₀ s₁ s₂ s₃ s₄ s₅ frag seq hf hs =
    ap
      (λ q. some (record {
        sq = q;
        ta = in_20 (mac_text (t₀ ∷ t₁ ∷ t₂ ∷ t₃ ∷ t₄ ∷ t₅ ∷ [])) junk;
        addr3 = in_20 (mac_text (s₀ ∷ s₁ ∷ s₂ ∷ s₃ ∷ s₄ ∷ s₅ ∷ [])) junk;
        rssi = ctrl.rssi;
        fctl = int16 (pos (f₀ + f₁ * 256));
        channel = ctrl.channel;
      }))
      (ap (λ n. get_seq (int16 (pos n))) whole ∙ get_seq_fields frag seq hf hs)
  where
    whole : (frag + 16 * seq) % 256 + (frag + 16 * seq) / 256 * 256 ≡ frag + 16 * seq
    whole = omega arith

reversed : (P : ℕ → Type 0) (a b c : ℕ) → Any P (a ∷ b ∷ c ∷ []) → Any P (c ∷ b ∷ a ∷ [])
reversed P a b c (inl p) = inr (inr (inl p))
reversed P a b c (inr (inl p)) = inr (inl p)
reversed P a b c (inr (inr (inl p))) = inl p
reversed P a b c (inr (inr (inr e))) = absurd e

module _ {N : NvsApi} (k : Kernel) where
  -- With the semaphore, on a frame of 24 octets at least and filters of six octets of which at most six
  -- count: `filter_packet` lets a frame through exactly if it is between other stations, its third address
  -- begins with the one filter and its second with the other. Nothing changes.
  pub filter_packet_decides :
      (frame : Bytes) (s : Sniffer N)
      → k.take ≡ true
      → 24 ≤ length frame
      → IsFilter s.addr_own_mac
      → IsFilter s.addr2_filter
      → IsFilter s.addr3_filter
      → (b : Bool) × (filter_packet k frame s ≡ done b s)
        × ((b ≡ true)
            ↔ (¬ (Any (Matches frame s.addr_own_mac) (ends pkt_mgmt 0)))
              × Matches frame s.addr3_filter 16
              × Matches frame s.addr2_filter 10)
  unfolding filter_packet
  filter_packet_decides frame s taken long vo v2 v3 =
      let (o, eo, io) =
        any_addr_equal_decides frame (16 ∷ 4 ∷ 10 ∷ []) s.addr_own_mac vo
          (omega arith, (omega arith, (omega arith, tt))) in
      let (x, ex, ix) = is_addr_equal_decides frame 16 s.addr3_filter v3 (omega arith) in
      let (y, ey, iy) = is_addr_equal_decides frame 10 s.addr2_filter v2 (omega arith) in
      go o eo io x ex ix y ey iy
    where
      Own : ℕ → Type 0
      Own = Matches frame s.addr_own_mac

      Foreign : Type 0
      Foreign = ¬ (Any Own (10 ∷ 4 ∷ 16 ∷ []))

      go :
          (o : Bool)
          → any_addr_equal frame (16 ∷ 4 ∷ 10 ∷ []) s.addr_own_mac ≡ some o
          → ((o ≡ true) ↔ Any (Matches frame s.addr_own_mac) (16 ∷ 4 ∷ 10 ∷ []))
          → (x : Bool) → is_addr_equal frame 16 s.addr3_filter ≡ some x
          → ((x ≡ true) ↔ Matches frame s.addr3_filter 16)
          → (y : Bool) → is_addr_equal frame 10 s.addr2_filter ≡ some y
          → ((y ≡ true) ↔ Matches frame s.addr2_filter 10)
          → (b : Bool) × (filter_packet k frame s ≡ done b s)
            × ((b ≡ true)
                ↔ Foreign × Matches frame s.addr3_filter 16 × Matches frame s.addr2_filter 10)
      go true eo io x ex ix y ey iy = (
        false,
        rw (taken, eo) refl,
        (λ e. absurd (false≢true e), λ h. absurd (h.0 (reversed Own 16 4 10 (io.0 refl)))),
      )
      go false eo io true ex ix true ey iy = (
        true,
        rw (taken, eo, ex, ey) refl,
        (λ _. (λ a. false≢true (io.1 (reversed Own 10 4 16 a)), ix.0 refl, iy.0 refl), λ _. refl),
      )
      go false eo io true ex ix false ey iy =
          (false, rw (taken, eo, ex, ey) refl, (λ e. absurd (false≢true e), λ h. iy.1 h.2))
      go false eo io false ex ix y ey iy =
          (false, rw (taken, eo, ex) refl, (λ e. absurd (false≢true e), λ h. ix.1 h.1))

-- Red is the colour of the weak packets, from -70 down, and of those of -50 and of -51.
pub colour_of-red :
    (z : ℤ) → (colour_of z ≡ red) ↔ (z ≡ negsuc 49) ⊎ (z ≡ negsuc 50) ⊎ (z ≤ℤ negsuc 69)
unfolding colour_of
colour_of-red (pos n) = ground arith
colour_of-red (negsuc n) = ground arith
