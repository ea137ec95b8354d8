-- ===== src/Nvs/Format.antt =====
-- Esp32Sniffer/components/nvs_lib/nvs_lib.c: `nvs_bytes_to_hex`, a byte array as text with a
-- delimiter, into a buffer of `sz` characters.
use wifi_sniffer.Prelude.{
  ℕ, zero, suc, ◌+◌, ◌/◌, ◌%◌, ◌≤◌, ◌<◌, ◌≡◌, refl, ◌∙◌, true, false, Option, none, some, [], ◌∷◌,
  arith, length, get_elem?, ltb, if◌then◌else◌, Bool-cases, inl, inr, ltb→lt,
}
use wifi_sniffer.Prelude.Bytes.{Bytes, store}
use wifi_sniffer.Prelude.Partial.{◌>>=◌}
use wifi_sniffer.Capture.Hex.Laws.{hex_digit}

-- `sprintf` of a text at a position: its characters and a terminating zero.
write_at : Bytes → ℕ → Bytes → Option Bytes
write_at out pos [] = store out pos 0
write_at out pos (c ∷ cs) = store out pos c >>= λ out'. write_at out' (pos + 1) cs

-- `%02X`
abbrev byte_text : ℕ → Bytes
byte_text b = hex_digit (b / 16) ∷ hex_digit (b % 16) ∷ []

module _ (buf delimiter : Bytes) (delimiter_sz sz : ℕ) where
  abbrev spacing : ℕ
  spacing = 2 + delimiter_sz + 1

  -- The body of the loop where there is room: the new position and the buffer.
  print_byte : ℕ → ℕ → Bytes → Option (ℕ × Bytes)
  print_byte i pos out = do
    out₁ ← if ltb 0 i then write_at out pos delimiter else some out
    let pos₁ = if ltb 0 i then pos + length delimiter else pos
    b ← get_elem? buf i
    out₂ ← write_at out₁ pos₁ (byte_text b)
    some (pos₁ + 2, out₂)

  print_loop : ℕ → ℕ → ℕ → Bytes → Option Bytes
  print_loop zero i pos out = some out
  print_loop (suc left) i pos out = elim (ltb (pos + spacing) sz) [
    | true ↦ elim (print_byte i pos out) [
      | none ↦ none
      | some (pos', out') ↦ print_loop left (i + 1) pos' out'
    ]
    | false ↦ print_loop left (i + 1) pos out
  ]

-- `none`: a read past the end of `buf`, or a write past the end of the buffer.
unfoldable pub nvs_bytes_to_hex : Bytes → ℕ → Bytes → ℕ → Bytes → ℕ → Option Bytes
unfolding print_loop print_byte write_at
nvs_bytes_to_hex buf buf_sz delimiter delimiter_sz out sz =
    print_loop buf delimiter delimiter_sz sz buf_sz 0 0 out

store_in :
    (b : Bytes) (i v : ℕ)
    → i < length b
    → (r : Bytes) × (store b i v ≡ some r) × (length r ≡ length b)
store_in [] i v h = absurd (omega arith)
store_in (x ∷ b) zero v h = (v ∷ b, refl, refl)
store_in (x ∷ b) (suc i) v h =
    let (r, e, l) = store_in b i v (omega arith) in (x ∷ r, rw e, omega arith)

write_at_in :
    (out : Bytes) (pos : ℕ) (cs : Bytes)
    → pos + length cs < length out
    → (r : Bytes) × (write_at out pos cs ≡ some r) × (length r ≡ length out)
unfolding write_at
write_at_in out pos [] h = store_in out pos 0 (omega arith)
write_at_in out pos (c ∷ cs) h =
    let (out', e, l) = store_in out pos c (omega arith) in
    let (r, e', l') = write_at_in out' (pos + 1) cs (omega arith) in (r, rw e e', omega arith)

get_elem?_in : (b : Bytes) (i : ℕ) → i < length b → (x : ℕ) × (get_elem? b i ≡ some x)
get_elem?_in [] i h = absurd (omega arith)
get_elem?_in (x ∷ b) zero h = (x, refl)
get_elem?_in (x ∷ b) (suc i) h = get_elem?_in b i (omega arith)

module _ (buf delimiter : Bytes) (sz : ℕ) where
  print_byte_in :
      (i pos : ℕ) (out : Bytes)
      → i < length buf
      → length out ≡ sz
      → pos + (2 + length delimiter + 1) < sz
      → (p : ℕ × Bytes) × (print_byte buf delimiter (length delimiter) sz i pos out ≡ some p)
        × (length p.1 ≡ sz)
  unfolding print_byte
  print_byte_in zero pos out hi hl hp =
      let (b, eb) = get_elem?_in buf 0 hi in
      let (r, er, lr) = write_at_in out pos (byte_text b) (omega arith) in
      ((pos + 2, r), ground (arith, eb, er), omega arith)
  print_byte_in (suc i) pos out hi hl hp =
      let (o, eo, lo) = write_at_in out pos delimiter (omega arith) in
      let (b, eb) = get_elem?_in buf (suc i) hi in
      let (r, er, lr) = write_at_in o (pos + length delimiter) (byte_text b) (omega arith) in
      ((pos + length delimiter + 2, r), ground (arith, eo, eb, er), omega arith)

  print_loop_room :
      (left i pos : ℕ) (out : Bytes) {p : ℕ × Bytes}
      → ltb (pos + (2 + length delimiter + 1)) sz ≡ true
      → print_byte buf delimiter (length delimiter) sz i pos out ≡ some p
      → print_loop buf delimiter (length delimiter) sz (suc left) i pos out
        ≡ print_loop buf delimiter (length delimiter) sz left (i + 1) p.0 p.1
  unfolding print_loop
  print_loop_room left i pos out room e = rw (room, print_loop) (rw (e, print_loop))

  print_loop_full :
      (left i pos : ℕ) (out : Bytes)
      → ltb (pos + (2 + length delimiter + 1)) sz ≡ false
      → print_loop buf delimiter (length delimiter) sz (suc left) i pos out
        ≡ print_loop buf delimiter (length delimiter) sz left (i + 1) pos out
  unfolding print_loop
  print_loop_full left i pos out full = rw (full, print_loop)

  print_loop_in :
      (left i pos : ℕ) (out : Bytes)
      → i + left ≤ length buf
      → length out ≡ sz
      → (r : Bytes) × (print_loop buf delimiter (length delimiter) sz left i pos out ≡ some r)
        × (length r ≡ sz)
  unfolding print_loop
  print_loop_in zero i pos out hi hl = (out, refl, hl)
  print_loop_in (suc left) i pos out hi hl =
      elim (Bool-cases (ltb (pos + (2 + length delimiter + 1)) sz)) [
        | inl room ↦
            let (p, e, l) = print_byte_in i pos out (omega arith) hl (ltb→lt _ _ room) in
            let (r, e', l') = print_loop_in left (i + 1) p.0 p.1 (omega arith) l in
            (r, print_loop_room left i pos out room e ∙ e', l')
        | inr full ↦
            let (r, e', l') = print_loop_in left (i + 1) pos out (omega arith) hl in
            (r, print_loop_full left i pos out full ∙ e', l')
      ]

-- With a delimiter of the length that is given, and no more bytes than the array has, the text never
-- leaves a buffer of `sz` characters, however small: the function returns, with a buffer of that size.
pub nvs_bytes_to_hex_in_bounds :
    (buf : Bytes) (buf_sz : ℕ) (delimiter out : Bytes) (sz : ℕ)
    → buf_sz ≤ length buf
    → length out ≡ sz
    → (r : Bytes) × (nvs_bytes_to_hex buf buf_sz delimiter (length delimiter) out sz ≡ some r)
      × (length r ≡ sz)
unfolding nvs_bytes_to_hex
nvs_bytes_to_hex_in_bounds buf buf_sz delimiter out sz h k =
    print_loop_in buf delimiter sz buf_sz 0 0 out (omega arith) k
