-- ===== src/Nvs/Array.antt =====
-- Esp32Sniffer/components/nvs_lib/nvs_lib.c: `nvs_set_array` and `nvs_get_array`.
pub mod Laws
use wifi_sniffer.Prelude.{
  ℕ, String, Bool, true, false, Option, none, some, length, leb, take, if◌then◌else◌,
}
use wifi_sniffer.Prelude.Bytes.{Bytes, memcpy, bytes_at}
use wifi_sniffer.Prelude.Results.{
  Err, is_ok, is_not_found, Exec, pure, gets, checked, undefined, ◌>>=◌, ◌>>◌,
}
use wifi_sniffer.Nvs.Api.{
  NvsApi, OpenMode, Value, Got, Store, got, failed, nvs_open, nvs_close, nvs_set,
}
use wifi_sniffer.Nvs.Num.{commit_if}

module _ (N : NvsApi) where
  -- `sz` octets from `value` on are stored; a size beyond the array reads out of range.
  unfoldable pub nvs_set_array : String → String → Bytes → ℕ → Exec (Store N) Err
  unfolding nvs_open nvs_set commit_if nvs_close
  nvs_set_array ns key value sz = do
    opened ← nvs_open N ns OpenMode.read_write
    elim opened [
      | failed e ↦ pure e
      | got h ↦ do
        v ← checked (bytes_at value 0 sz)
        e ← nvs_set N h key (Value.octets v)
        r ← commit_if N e h
        nvs_close N h
        pure r
    ]

  module _ (key : String) (value : Bytes) (sz : ℕ) (def : Bytes) (def_sz : ℕ) where
    -- `memcpy(value, src, n)` with the size set.
    abbrev pub copy_in : Bytes → ℕ → Exec (Store N) (Err × Bytes × ℕ)
    copy_in src n = do v ← checked (memcpy value src n); pure (Err.esp_ok, v, n)

    abbrev pub default_if_missing : Err → Exec (Store N) (Err × Bytes × ℕ)
    default_if_missing e = if is_not_found e then copy_in def def_sz else pure (e, value, sz)

    abbrev pub array_read : Got Bytes → Exec (Store N) (Err × Bytes × ℕ)
    array_read (got b) = copy_in b (length b)
    array_read (failed e) = default_if_missing e

    abbrev pub array_opened : Got N.Handle → Exec (Store N) (Err × Bytes × ℕ)
    array_opened (failed e) = default_if_missing e
    array_opened (got h) = do
      g ← gets (λ s. N.get_array h key s.flash)
      r ← array_read g
      nvs_close N h
      pure r

  -- The error, the array and the size afterwards. An array that is shorter than what is stored, or
  -- than the default, is written out of range.
  unfoldable pub nvs_get_array :
      String → String → Bytes → ℕ → Bytes → ℕ → Exec (Store N) (Err × Bytes × ℕ)
  unfolding nvs_open
  nvs_get_array ns key value sz def def_sz = do
    opened ← nvs_open N ns OpenMode.read_only
    array_opened key value sz def def_sz opened
