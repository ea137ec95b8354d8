-- ===== src/Nvs/Parse.antt =====
-- Esp32Sniffer/components/nvs_lib/nvs_lib.c: `nvs_set_num_from_string`. The functions of stdlib.h are
-- a parameter: what they return at the width of their result, and whether they set errno to ERANGE.
pub mod Laws
use wifi_sniffer.Prelude.{
  ◌-◌, ◌≡◌, String, Bool, true, not, ◌&&◌, ◌||◌, Option, none, some, arith, if◌then◌else◌,
}
use wifi_sniffer.Prelude.Int.{ℤ, pos, negsuc, leb_ℤ}
use wifi_sniffer.Prelude.Bytes.{Bytes}
use wifi_sniffer.Prelude.Results.{Err, done, Exec, pure, ◌>>=◌, ◌>>◌}
use wifi_sniffer.Nvs.Api.{
  NvsApi, NvsType, OpenMode, number, Got, Store, got, failed, nvs_open, nvs_close, nvs_set,
}
use wifi_sniffer.Nvs.Num.{store_value, commit_if}

pub record NumParser : Type 0 where
  pub strtol : Bytes → ℤ × Bool
  pub strtoul : Bytes → ℤ × Bool
  pub strtoll : Bytes → ℤ × Bool
  pub strtoull : Bytes → ℤ × Bool

-- The function that the switch calls for a type; `none` in the default case.
abbrev parsed : NumParser → NvsType → Bytes → Option (ℤ × Bool)
parsed C NvsType.i8 str = some (C.strtol str)
parsed C NvsType.u8 str = some (C.strtoul str)
parsed C NvsType.i16 str = some (C.strtol str)
parsed C NvsType.u16 str = some (C.strtoul str)
parsed C NvsType.i32 str = some (C.strtol str)
parsed C NvsType.u32 str = some (C.strtoul str)
parsed C NvsType.i64 str = some (C.strtoll str)
parsed C NvsType.u64 str = some (C.strtoull str)
parsed C _ str = none

-- The limits that the switch tests: none for the types as wide as the function's result.
unfoldable pub in_limits : NvsType → ℤ → Bool
in_limits NvsType.i8 z = leb_ℤ (negsuc 127) z && leb_ℤ z (pos 127)
in_limits NvsType.u8 z = leb_ℤ z (pos 255)
in_limits NvsType.i16 z = leb_ℤ (negsuc 32767) z && leb_ℤ z (pos 32767)
in_limits NvsType.u16 z = leb_ℤ z (pos 65535)
in_limits _ z = true

module _ (N : NvsApi) (C : NumParser) where
  -- What is done with the value, with `errno == ERANGE` as it is after the conversion.
  abbrev store_parsed : N.Handle → String → NvsType → ℤ → Bool → Exec (Store N) Err
  store_parsed h key type z erange =
      if not erange && in_limits type z
      then (do e ← nvs_set N h key (number type z); r ← commit_if N e h; nvs_close N h; pure r)
      else (do nvs_close N h; pure Err.nvs_value_too_long)

  -- The default case returns without closing the handle.
  abbrev parsed_opened :
      String → NvsType → Option (ℤ × Bool) → Bool → Got N.Handle → Exec (Store N) Err
  parsed_opened key type p errno (failed e) = pure e
  parsed_opened key type none errno (got h) = pure Err.nvs_type_mismatch
  parsed_opened key type (some (z, erange)) errno (got h) =
      store_parsed h key type z (errno || erange)

  -- `errno` is whether it is ERANGE before the call; nothing clears it.
  unfoldable pub nvs_set_num_from_string :
      Bool → String → String → NvsType → Bytes → Exec (Store N) Err
  unfolding nvs_open
  nvs_set_num_from_string errno ns key type str = do
    opened ← nvs_open N ns OpenMode.read_write
    parsed_opened key type (parsed C type str) errno opened

  -- The namespace is opened and closed.
  abbrev pub refused : String → Exec (Store N) Err
  refused ns s = elim (N.open_namespace ns OpenMode.read_write s.flash) [
    | failed e ↦ done e s
    | got (h, f) ↦ done Err.nvs_value_too_long (record { flash = f; open_handles = s.open_handles })
  ]

  -- With what the conversion returned, and errno.
  pub stored_or_refused :
      (errno erange : Bool) (ns key : String) (type : NvsType) (str : Bytes) (z : ℤ) (s : Store N)
      → parsed C type str ≡ some (z, erange)
      → nvs_set_num_from_string errno ns key type str s ≡ (
          if not (errno || erange) && in_limits type z
          then store_value N ns key (number type z) s
          else refused ns s)
  unfolding nvs_set_num_from_string store_value nvs_close
  stored_or_refused errno erange ns key type str z s e = rw e (ground arith)
