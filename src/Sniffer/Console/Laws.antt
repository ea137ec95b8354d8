-- ===== src/Sniffer/Console/Laws.antt =====
-- What the `filter` command makes of its arguments.
use wifi_sniffer.Prelude.{
  ℕ, ◌-◌, ◌*◌, ◌%◌, ◌≤◌, ◌<◌, ◌≡◌, refl, ap, ◌∙◌, Bool, true, false, none, some, ◌++◌, ◌==◌, arith,
  length, drop, ltb, if◌then◌else◌,
}
use wifi_sniffer.Prelude.Int.{pos, negsuc, int8, ltb_ℤ}
use wifi_sniffer.Prelude.Bytes.{Bytes}
use wifi_sniffer.Prelude.Partial.{◌>>=?◌}
use wifi_sniffer.Nvs.Api.{NvsApi}
use wifi_sniffer.Capture.Hex.Laws.{AllBytes, IsHex, hex_to_byte_array_decodes}
use wifi_sniffer.Sniffer.Settings.{AddrFilter}
use wifi_sniffer.Sniffer.State.{Kernel, Sniffer}
use wifi_sniffer.Sniffer.Control.{sniffer_set_rssi_filter}
use wifi_sniffer.Sniffer.Console.{console_read_filter, console_sniffer_filter_rssi_arg}

-- The hexadecimal digits of one to six octets, each in upper or in lower case, become a filter of that
-- many octets, with the rest of the address as it was; the digits of more octets are written past the
-- end of the address.
pub console_read_filter_decodes :
    (digits bs rest : Bytes) (f : AddrFilter)
    → AllBytes bs
    → IsHex digits bs
    → 0 < length bs
    → length f.addr ≡ 6
    → console_read_filter (digits ++ rest) (2 * length bs) f ≡ (
        if ltb 6 (length bs)
        then none
        else some (true, record { addr = bs ++ drop (length bs) f.addr; size = length bs }))
unfolding console_read_filter
console_read_filter_decodes digits bs rest f octets written some_digits six =
    rw (even, positive)
      (ap (λ o. o >>=? λ r. some (true, record { addr = r.1; size = r.0 }))
          (hex_to_byte_array_decodes digits bs rest f.addr (2 * length bs) octets written refl)
        ∙ rw six (either (ltb 6 (length bs))))
  where
    either :
        (b : Bool)
        → ◌>>=?◌ {A = ℕ × Bytes} {B = Bool × AddrFilter}
            (if b then none else some (length bs, bs ++ drop (length bs) f.addr))
            (λ r. some (true, record { addr = r.1; size = r.0 }))
          ≡ (if b
              then none
              else some (true, record { addr = bs ++ drop (length bs) f.addr; size = length bs }))
    either true = refl
    either false = refl

    even : ((2 * length bs % 2) == 0) ≡ true
    even = ground arith

    positive : ltb 0 (2 * length bs) ≡ true
    positive = ground arith

-- A number from 128 to 255 is not refused as positive: it sets the filter by 256 less.
pub console_sniffer_filter_rssi_arg_narrowed :
    {N : NvsApi} (k : Kernel) (n : ℕ) (s : Sniffer N)
    → 128 ≤ n
    → n < 256
    → console_sniffer_filter_rssi_arg k (some (pos n)) s
      ≡ sniffer_set_rssi_filter k (negsuc (255 - n)) s
unfolding console_sniffer_filter_rssi_arg
console_sniffer_filter_rssi_arg_narrowed {N} k n s h l = rw (narrowed, negative (255 - n)) refl
  where
    negative : (m : ℕ) → ltb_ℤ (pos 0) (negsuc m) ≡ false
    negative m = ground arith

    narrowed : int8 (pos n) ≡ negsuc (255 - n)
    narrowed = ground arith
