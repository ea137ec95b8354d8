-- ===== src/Sniffer/Console.antt =====
-- Esp32Sniffer/components/wifi_sniffer/console_sniffer_cmd.c: the `filter` command. The parser of the
-- arguments is the argtable library's; an argument that was not given is `none`.
pub mod Laws
use wifi_sniffer.Prelude.{
  ℕ, ◌%◌, Bool, true, false, ◌||◌, Option, none, some, [], ◌∷◌, ◌++◌, ◌==◌, length, ltb,
  if◌then◌else◌,
}
use wifi_sniffer.Prelude.Int.{ℤ, pos, int8, ltb_ℤ}
use wifi_sniffer.Prelude.Bytes.{Bytes}
use wifi_sniffer.Prelude.Partial.{◌>>=?◌}
use wifi_sniffer.Prelude.Results.{Exec, pure, checked, ◌>>=◌, ◌>>◌}
use wifi_sniffer.Nvs.Api.{NvsApi}
use wifi_sniffer.Capture.Hex.{hex_to_byte_array}
use wifi_sniffer.Sniffer.Settings.{AddrFilter, no_filter}
use wifi_sniffer.Sniffer.State.{Kernel, Sniffer}
use wifi_sniffer.Sniffer.Control.{
  sniffer_set_addr2_filter, sniffer_set_no_filter, sniffer_set_filter_data, sniffer_set_rssi_filter,
}

-- Whether the text is taken, and the filter afterwards. `none`: the digits leave the array or the text.
unfoldable pub console_read_filter : Bytes → ℕ → AddrFilter → Option (Bool × AddrFilter)
unfolding hex_to_byte_array
console_read_filter mac read_bytes f =
    if ltb 0 read_bytes
    then (if (read_bytes % 2) == 0
        then (hex_to_byte_array mac read_bytes f.addr >>=? λ r.
            some (true, record { addr = r.1; size = r.0 }))
        else if ltb 12 read_bytes
        then some (false, f)
        else some (false, f))
    else some (true, record f { size = 0 })

-- `!strncmp(c, text, 1)`, for a text without its terminating zero.
abbrev starts_with : ℕ → Bytes → Bool
starts_with c [] = false
starts_with c (x ∷ _) = x == c

module _ {N : NvsApi} (k : Kernel) where
  abbrev set_if_read : Bool × AddrFilter → Exec (Sniffer N) (Unit {0})
  set_if_read (true, f) = sniffer_set_addr2_filter k f
  set_if_read (false, f) = pure tt

  unfoldable pub console_sniffer_filter_source_arg : Option Bytes → Exec (Sniffer N) (Unit {0})
  unfolding console_read_filter
  console_sniffer_filter_source_arg none = pure tt
  console_sniffer_filter_source_arg (some addr2) =
      checked (console_read_filter (addr2 ++ (0 ∷ [])) (length addr2) no_filter) >>= set_if_read

  unfoldable pub console_sniffer_filter_frame_arg : Option Bytes → Exec (Sniffer N) (Unit {0})
  console_sniffer_filter_frame_arg none = pure tt
  console_sniffer_filter_frame_arg (some frame_type) =
      if (length frame_type == 0) || starts_with b'a' frame_type
      then sniffer_set_no_filter k
      else if starts_with b'd' frame_type
      then sniffer_set_filter_data k
      else pure tt

  -- The argument is an `int`; `rssi_t` is `int8_t`.
  unfoldable pub console_sniffer_filter_rssi_arg : Option ℤ → Exec (Sniffer N) (Unit {0})
  console_sniffer_filter_rssi_arg none = pure tt
  console_sniffer_filter_rssi_arg (some arg) =
      let rssi = int8 arg in if ltb_ℤ (pos 0) rssi then pure tt else sniffer_set_rssi_filter k rssi

-- `console_sniffer_filter` after arg_parse found no error. Each argument has its own kernel answers.
unfoldable pub console_sniffer_filter :
    {N : NvsApi} → (ℕ → Kernel) → ℕ → Option Bytes → Option Bytes → Option ℤ → Exec (Sniffer N) ℕ
unfolding console_sniffer_filter_source_arg console_sniffer_filter_frame_arg
    console_sniffer_filter_rssi_arg
console_sniffer_filter k nerrors source frame_type rssi =
    if nerrors == 0
    then (do
      console_sniffer_filter_source_arg (k 0) source
      console_sniffer_filter_frame_arg (k 1) frame_type
      console_sniffer_filter_rssi_arg (k 2) rssi
      pure 0)
    else pure nerrors
