-- ===== src/Sniffer/Frames/Laws.antt =====
-- The bit manipulation of wifi_sniffer.c and wifi_sniffer.h against the layout of IEEE 802.11.
use wifi_sniffer.Prelude.{ℕ, ◌+◌, ◌*◌, ◌/◌, ◌%◌, ◌^◌, ◌<◌, bit_and, ◌≡◌, ap, ◌∙◌, arith}
use wifi_sniffer.Prelude.Bits.{bit_or-shl, bit_and-shl, bit_and-mask}
use wifi_sniffer.Prelude.Int.{ℤ, pos, int16, uint16, pattern_of}
use wifi_sniffer.Sniffer.Frames.{fc_subtype, fc_to_ds, fc_from_ds, rotate, get_seq}

-- The frame control field of IEEE 802.11: two bits of version and two of type, four of subtype, and
-- flags, To DS and From DS first. The macros take the parts out of any field that is put together so.
pub frame_control_fields :
    (version kind subtype to from flags : ℕ)
    → version < 4
    → kind < 4
    → subtype < 16
    → to < 2
    → from < 2
    → let fc = version + 4 * kind + 16 * subtype + 256 * to + 512 * from + 1024 * flags in
      (fc_subtype fc ≡ subtype) × (fc_to_ds fc ≡ to) × (fc_from_ds fc ≡ from)
unfolding fc_subtype fc_to_ds fc_from_ds
frame_control_fields version kind subtype to from flags a b c d e =
    (bit_and-mask 4 _ ∙ omega arith, bit_and-mask 1 _ ∙ omega arith, bit_and-mask 1 _ ∙ omega arith)

rotate_lem : (x : ℕ) → x < 65536 → rotate x 4 ≡ x * 4096 + x / 16
unfolding rotate
rotate_lem x h = omega (arith, bit_or-shl 12 (x / 16) x (omega arith))

-- Sign extension does not change the low 16 bits.
low_half : (x : ℕ) → pattern_of 4294967296 (int16 (pos x)) % 65536 ≡ x % 65536
low_half x = ground arith

uint16-int16 : (x : ℕ) → x < 65536 → uint16 (int16 (pos x)) ≡ x
uint16-int16 x h = ground arith

mask_high : (p r : ℕ) → p % 65536 ≡ r % 65536 → bit_and p 0xF000 / 2 ^ 12 ≡ r / 4096 % 16
mask_high p r h = omega (arith, bit_and-shl 12 p 15, bit_and-mask 4 (p / 2 ^ 12))

mask_low : (p r : ℕ) → p % 65536 ≡ r % 65536 → bit_and p 0x0FFF ≡ r % 4096
mask_low p r h = omega (arith, bit_and-mask 12 p)

get_seq_of :
    (z : ℤ) (x : ℕ) → x < 65536 → uint16 z ≡ x → get_seq z ≡ record { frag = x % 16; seq = x / 16 }
unfolding get_seq
get_seq_of z x h e = λ i. record { frag = frag_path i; seq = seq_path i }
  where
    r : ℕ
    r = rotate (uint16 z) 4

    r-eq : r ≡ x * 4096 + x / 16
    r-eq = ap (λ t. rotate t 4) e ∙ rotate_lem x h

    frag_path : bit_and (pattern_of (2 ^ 32) (int16 (pos r))) 0xF000 / 2 ^ 12 ≡ x % 16
    frag_path = mask_high (pattern_of (2 ^ 32) (int16 (pos r))) r (low_half r) ∙ omega (arith, r-eq)

    seq_path : bit_and (pattern_of (2 ^ 32) (int16 (pos r))) 0x0FFF ≡ x / 16
    seq_path = mask_low (pattern_of (2 ^ 32) (int16 (pos r))) r (low_half r) ∙ omega (arith, r-eq)

-- A sequence control field is a fragment number in the low four bits and a sequence number in the
-- other twelve: the rotation and the masks give back both, whatever sign the `int16_t` has.
pub get_seq_fields :
    (frag seq : ℕ)
    → frag < 16
    → seq < 4096
    → get_seq (int16 (pos (frag + 16 * seq))) ≡ record { frag = frag; seq = seq }
get_seq_fields frag seq hf hs =
    get_seq_of (int16 (pos (frag + 16 * seq))) (frag + 16 * seq) (omega arith)
      (uint16-int16 (frag + 16 * seq) (omega arith))
    ∙ (λ i. record { frag = low i; seq = high i })
  where
    low : (frag + 16 * seq) % 16 ≡ frag
    low = omega arith

    high : (frag + 16 * seq) / 16 ≡ seq
    high = omega arith
