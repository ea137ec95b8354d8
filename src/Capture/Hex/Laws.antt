-- ===== src/Capture/Hex/Laws.antt =====
-- What `hex_to_byte_array` does with digits, with an invalid character and with a short array.
use wifi_sniffer.Prelude.{
  ℕ, zero, suc, ◌+◌, ◌-◌, ◌*◌, ◌/◌, ◌%◌, ◌≤◌, ◌<◌, ◌≡◌, refl, ◌∙◌, ◌⊎◌, inl, inr, false, ◌&&◌, leb,
  Bool-cases, ltb→lt, none, some, [], ◌∷◌, ◌++◌, arith, length, length-append, drop, get_elem?,
  get_elem?-append, ltb, if◌then◌else◌,
}
use mathlib.Core.List.{append_assoc}
use mathlib.Core.Path.{ap₂}
use wifi_sniffer.Prelude.Bits.{shl-bit_or}
use wifi_sniffer.Prelude.Int.{pos, negsuc}
use wifi_sniffer.Prelude.Bytes.{Bytes, store}
use wifi_sniffer.Prelude.Partial.{◌>>=◌}
use wifi_sniffer.Capture.Hex.{hex_to_decimal, join_nibbles, hex_loop, hex_to_byte_array, size_max}

-- A digit of the value `d`, in the upper case of `%X` and in the lower case of `%x`.
abbrev pub hex_digit : ℕ → ℕ
hex_digit d = if ltb d 10 then b'0' + d else b'A' + (d - 10)

abbrev lower_hex_digit : ℕ → ℕ
lower_hex_digit d = if ltb d 10 then b'0' + d else b'a' + (d - 10)

-- The character `c` is a hexadecimal digit of the value `d`, in either case.
abbrev IsDigit : ℕ → ℕ → Type 0
IsDigit d c = (c ≡ hex_digit d) ⊎ (c ≡ lower_hex_digit d)

-- The character `c` is a hexadecimal digit.
abbrev pub IsHexDigit : ℕ → Type 0
IsHexDigit c = (d : ℕ) × (d < 16) × IsDigit d c

-- The text is two hexadecimal digits for every byte, the upper one first, each in either case.
abbrev pub IsHex : Bytes → Bytes → Type 0
IsHex [] [] = Unit
IsHex (c ∷ d ∷ digits) (b ∷ bs) = IsDigit (b / 16) c × IsDigit (b % 16) d × IsHex digits bs
IsHex _ _ = ⊥

abbrev pub AllBytes : Bytes → Type 0
AllBytes [] = Unit
AllBytes (b ∷ bs) = (b < 256) × AllBytes bs

length-IsHex : (digits bs : Bytes) → IsHex digits bs → length digits ≡ 2 * length bs
length-IsHex [] [] h = refl
length-IsHex [] (b ∷ bs) h = absurd h
length-IsHex (c ∷ []) [] h = absurd h
length-IsHex (c ∷ []) (b ∷ bs) h = absurd h
length-IsHex (c ∷ d ∷ digits) [] h = absurd h
length-IsHex (c ∷ d ∷ digits) (b ∷ bs) h = omega (arith, length-IsHex digits bs h.2)

hex_to_decimal-IsDigit : (d c : ℕ) → d < 16 → IsDigit d c → hex_to_decimal c ≡ pos d
unfolding hex_to_decimal
hex_to_decimal-IsDigit d c h (inl e) = rw e (ground arith)
hex_to_decimal-IsDigit d c h (inr e) = rw e (ground arith)

-- What is no digit in either case is invalid.
hex_to_decimal_invalid : (c : ℕ) → ¬ IsHexDigit c → hex_to_decimal c ≡ negsuc 0
unfolding hex_to_decimal
hex_to_decimal_invalid c none_is = rw (decimal, lower, upper) refl
  where
    decimal : (leb b'0' c && leb c b'9') ≡ false
    decimal = elim (Bool-cases (leb b'0' c && leb c b'9')) [
      | inl yes_between ↦
          absurd
            (none_is (c - b'0', ground (arith, yes_between), inl (ground (arith, yes_between))))
      | inr outside ↦ outside
    ]

    lower : (leb b'a' c && leb c b'f') ≡ false
    lower = elim (Bool-cases (leb b'a' c && leb c b'f')) [
      | inl yes_between ↦
          absurd (
            none_is (c - b'a' + 10, ground (arith, yes_between), inr (ground (arith, yes_between))))
      | inr outside ↦ outside
    ]

    upper : (leb b'A' c && leb c b'F') ≡ false
    upper = elim (Bool-cases (leb b'A' c && leb c b'F')) [
      | inl yes_between ↦
          absurd (
            none_is (c - b'A' + 10, ground (arith, yes_between), inl (ground (arith, yes_between))))
      | inr outside ↦ outside
    ]

join_nibbles_lem : (b : ℕ) → b < 256 → join_nibbles (pos (b / 16)) (pos (b % 16)) ≡ b
unfolding join_nibbles
join_nibbles_lem b h = omega (arith, shl-bit_or 4 (b / 16) (b % 16) (omega arith))

store-append :
    (done : Bytes) (x : ℕ) (old : Bytes) (v : ℕ)
    → store (done ++ x ∷ old) (length done) v ≡ some (done ++ v ∷ old)
store-append [] x old v = refl
store-append (d ∷ done) x old v = rw (store-append done x old v)

store_out : (b : Bytes) (i v : ℕ) → length b ≤ i → store b i v ≡ none
store_out [] i v h = refl
store_out (x ∷ b) zero v h = absurd (omega arith)
store_out (x ∷ b) (suc i) v h = rw (store_out b i v (omega arith))

-- The two digits of each byte of `bs` stand in `hex` from round `i` on.
abbrev DigitsAt : Bytes → ℕ → Bytes → Type 0
DigitsAt hex i [] = Unit
DigitsAt hex i (b ∷ bs) =
    (c d : ℕ) × (get_elem? hex (i * 2) ≡ some c)
    × (get_elem? hex (i * 2 + 1) ≡ some d)
    × IsDigit (b / 16) c
    × IsDigit (b % 16) d
    × DigitsAt hex (i + 1) bs

get_elem?-at :
    (pre l : Bytes) (i k : ℕ) → length pre + k ≡ i → get_elem? (pre ++ l) i ≡ get_elem? l k
get_elem?-at pre l i k h = rw (← h) (get_elem?-append pre l k)

IsHex-DigitsAt :
    (pre digits bs rest : Bytes) (i : ℕ)
    → IsHex digits bs
    → length pre ≡ i * 2
    → DigitsAt (pre ++ (digits ++ rest)) i bs
IsHex-DigitsAt pre [] [] rest i v h = tt
IsHex-DigitsAt pre (c ∷ []) [] rest i v h = tt
IsHex-DigitsAt pre (c ∷ d ∷ digits) [] rest i v h = tt
IsHex-DigitsAt pre [] (b ∷ bs) rest i v h = absurd v
IsHex-DigitsAt pre (c ∷ []) (b ∷ bs) rest i v h = absurd v
IsHex-DigitsAt pre (c ∷ d ∷ digits) (b ∷ bs) rest i v h = (
  c,
  d,
  get_elem?-at pre _ (i * 2) 0 (omega arith),
  get_elem?-at pre _ (i * 2 + 1) 1 (omega arith),
  v.0,
  v.1,
  rw (append_assoc pre (c ∷ d ∷ []) (digits ++ rest)) at (
      IsHex-DigitsAt (pre ++ (c ∷ d ∷ [])) digits bs rest (i + 1) v.2
        (omega (arith, length-append pre (c ∷ d ∷ [])))),
)

module _ (hex : Bytes) where
  -- One round at the two digits of a byte is a store.
  round :
      (b c d left i : ℕ) (arr : Bytes)
      → b < 256
      → get_elem? hex (i * 2) ≡ some c
      → get_elem? hex (i * 2 + 1) ≡ some d
      → IsDigit (b / 16) c
      → IsDigit (b % 16) d
      → hex_loop hex (suc left) i arr ≡ (store arr i b >>= hex_loop hex left (i + 1))
  unfolding hex_loop
  round b c d left i arr h p q v w =
      rw
        (
          p,
          q,
          hex_to_decimal-IsDigit (b / 16) c (omega arith) v,
          hex_to_decimal-IsDigit (b % 16) d (omega arith) w,
          join_nibbles_lem b h,
        )
        (ground arith)

  -- The rounds over the digits of `bs` fill that much of the array.
  rounds :
      (bs : Bytes) (n left i j : ℕ) (filled old : Bytes)
      → AllBytes bs
      → DigitsAt hex i bs
      → length filled ≡ i
      → length bs ≤ length old
      → n ≡ length bs + left
      → j ≡ i + length bs
      → hex_loop hex n i (filled ++ old)
        ≡ hex_loop hex left j (filled ++ (bs ++ drop (length bs) old))
  rounds [] n left i j filled old a d f h e k =
      ap₂ (λ m t. hex_loop hex m t (filled ++ old)) (omega arith) (omega arith)
  rounds (b ∷ bs) n left i j filled [] a d f h e k = absurd (omega arith)
  rounds (b ∷ bs) zero left i j filled (x ∷ old) a d f h e k = absurd (omega arith)
  rounds (b ∷ bs) (suc n) left i j filled (x ∷ old) a (c, c', p, q, v, w, d) f h e k =
      rw (round b c c' n i (filled ++ x ∷ old) a.0 p q v w, ← f, store-append filled x old b, f)
        (grow (
          rounds bs n left (i + 1) j (filled ++ b ∷ []) old a.1 d
            (omega (arith, length-append filled (b ∷ []))) (omega arith) (omega arith)
            (omega arith)))
    where
      grow :
          hex_loop hex n (i + 1) ((filled ++ b ∷ []) ++ old)
            ≡ hex_loop hex left j ((filled ++ b ∷ []) ++ (bs ++ drop (length bs) old))
          → hex_loop hex n (i + 1) (filled ++ b ∷ old)
            ≡ hex_loop hex left j (filled ++ b ∷ (bs ++ drop (length bs) old))
      grow p = simp append_assoc at p

  -- They run past the end of an array that is shorter.
  rounds_out :
      (bs : Bytes) (n left i : ℕ) (filled old : Bytes)
      → AllBytes bs
      → DigitsAt hex i bs
      → length filled ≡ i
      → length old < length bs
      → n ≡ length bs + left
      → hex_loop hex n i (filled ++ old) ≡ none
  rounds_out [] n left i filled old a d f h e = absurd (omega arith)
  rounds_out (b ∷ bs) zero left i filled old a d f h e = absurd (omega arith)
  rounds_out (b ∷ bs) (suc n) left i filled [] a (c, c', p, q, v, w, d) f h e = rw (
    round b c c' n i (filled ++ []) a.0 p q v w,
    store_out (filled ++ []) i b (omega (arith, length-append filled [])),
  )
  rounds_out (b ∷ bs) (suc n) left i filled (x ∷ old) a (c, c', p, q, v, w, d) f h e =
      rw (round b c c' n i (filled ++ x ∷ old) a.0 p q v w, ← f, store-append filled x old b, f)
        (rw (append_assoc filled (b ∷ []) old) at (
          rounds_out bs n left (i + 1) (filled ++ b ∷ []) old a.1 d
            (omega (arith, length-append filled (b ∷ []))) (omega arith) (omega arith)))

module _ (digits bs rest arr : Bytes) (hex_length : ℕ) (octets : AllBytes bs)
    (written : IsHex digits bs) where
  -- A text of two hexadecimal digits for every byte, each in upper or in lower case, with text behind it.
  -- With `2 * length bs` characters to read, the function returns the number of bytes, with the
  -- array filled from its start and unchanged behind them; where the array has fewer elements than
  -- there are bytes, it writes out of range.
  pub hex_to_byte_array_decodes :
      hex_length ≡ 2 * length bs
      → hex_to_byte_array (digits ++ rest) hex_length arr ≡ (
          if ltb (length arr) (length bs)
          then none
          else some (length bs, bs ++ drop (length bs) arr))
  unfolding hex_to_byte_array
  hex_to_byte_array_decodes h = elim (Bool-cases (ltb (length arr) (length bs))) [
    | inl short ↦ rw short (
        rounds_out (digits ++ rest) bs (hex_length / 2) 0 0 [] arr octets
          (IsHex-DigitsAt [] digits bs rest 0 written refl) refl (ltb→lt _ _ short) (omega arith))
    | inr long ↦ rw long (
        rounds (digits ++ rest) bs (hex_length / 2) 0 0 (length bs) [] arr octets
          (IsHex-DigitsAt [] digits bs rest 0 written refl) refl (ground arith) (omega arith)
          (omega arith))
  ]

module _ (hex : Bytes) where
  -- A round at a pair of characters of which one is no digit ends the loop.
  invalid_round :
      (c d left i : ℕ) (arr : Bytes)
      → get_elem? hex (i * 2) ≡ some c
      → get_elem? hex (i * 2 + 1) ≡ some d
      → (hex_to_decimal c ≡ negsuc 0) ⊎ (hex_to_decimal d ≡ negsuc 0)
      → hex_loop hex (suc left) i arr ≡ some (size_max, arr)
  unfolding hex_loop
  invalid_round c d left i arr p q (inl e) = rw (p, q, e)
  invalid_round c d left i arr p q (inr e) = rw (p, q, e) (ground arith)

-- After the digits of `bs`, each in upper or in lower case, stand two characters, one of which is a
-- hexadecimal digit in neither case, within the length that is read; the array has room for `bs`. The
-- function returns `(size_t)-1`, and `bs` has been written.
pub hex_to_byte_array_invalid :
    (digits bs tail arr : Bytes) (c d hex_length : ℕ)
    → AllBytes bs
    → IsHex digits bs
    → length bs < hex_length / 2
    → length bs ≤ length arr
    → (¬ IsHexDigit c) ⊎ (¬ IsHexDigit d)
    → hex_to_byte_array (digits ++ c ∷ d ∷ tail) hex_length arr
      ≡ some (size_max, bs ++ drop (length bs) arr)
unfolding hex_to_byte_array
hex_to_byte_array_invalid digits bs tail arr c d hex_length octets v h room bad =
    rounds (digits ++ c ∷ d ∷ tail) bs (hex_length / 2) (suc (hex_length / 2 - length bs - 1)) 0
      (length bs) [] arr octets (IsHex-DigitsAt [] digits bs (c ∷ d ∷ tail) 0 v refl) refl room
      (omega arith) (omega arith)
    ∙ invalid_round (digits ++ c ∷ d ∷ tail) c d (hex_length / 2 - length bs - 1) (length bs) _
        (get_elem?-at digits (c ∷ d ∷ tail) (length bs * 2) 0
          (omega (arith, length-IsHex digits bs v)))
        (get_elem?-at digits (c ∷ d ∷ tail) (length bs * 2 + 1) 1
          (omega (arith, length-IsHex digits bs v)))
        (elim bad [
          | inl left_bad ↦ inl (hex_to_decimal_invalid c left_bad)
          | inr right_bad ↦ inr (hex_to_decimal_invalid d right_bad)
        ])
