-- ===== src/Capture/Hex.antt =====
-- Esp32Sniffer/components/wifi_sniffer/capture_lib.c: hexadecimal digits into bytes.
pub mod Laws
use wifi_sniffer.Prelude.{
  ℕ, zero, suc, ◌+◌, ◌-◌, ◌*◌, ◌/◌, ◌%◌, ◌^◌, bit_or, Bool, ◌&&◌, ◌||◌, Option, none, some, leb,
  if◌then◌else◌, get_elem?,
}
use wifi_sniffer.Prelude.Int.{ℤ, pos, negsuc, eq_ℤ, pos_part}
use wifi_sniffer.Prelude.Bytes.{Bytes, store}
use wifi_sniffer.Prelude.Partial.{◌>>=◌}

-- `negsuc 0` is -1, an invalid character.
unfoldable pub hex_to_decimal : ℕ → ℤ
hex_to_decimal c =
    if leb b'0' c && leb c b'9'
    then pos (c - b'0')
    else if leb b'a' c && leb c b'f'
    then pos (c - b'a' + 10)
    else if leb b'A' c && leb c b'F'
    then pos (c - b'A' + 10)
    else negsuc 0

-- `(size_t)-1`
abbrev pub size_max : ℕ
size_max = 2 ^ 32 - 1

-- `(unsigned char)((highNibble << 4) | lowNibble)`, reached with both in 0..15.
unfoldable pub join_nibbles : ℤ → ℤ → ℕ
join_nibbles hi lo = bit_or (pos_part hi * 2 ^ 4) (pos_part lo) % 256

abbrev is_invalid : ℤ → Bool
is_invalid d = eq_ℤ d (negsuc 0)

module _ (hex : Bytes) where
  -- The loop at index `i`, with `left` rounds to go: the return value, and the array.
  hex_loop : ℕ → ℕ → Bytes → Option (ℕ × Bytes)
  hex_loop zero i arr = some (i, arr)
  hex_loop (suc left) i arr = do
    high ← get_elem? hex (i * 2)
    low ← get_elem? hex (i * 2 + 1)
    let hi = hex_to_decimal high
    let lo = hex_to_decimal low
    if is_invalid hi || is_invalid lo
        then some (size_max, arr)
        else (store arr i (join_nibbles hi lo) >>= hex_loop left (i + 1))

-- `none`: a read past the end of `hex`, or a write past the end of the array.
unfoldable pub hex_to_byte_array : Bytes → ℕ → Bytes → Option (ℕ × Bytes)
unfolding hex_loop hex_to_decimal join_nibbles
hex_to_byte_array hex hex_length arr = hex_loop hex (hex_length / 2) 0 arr
