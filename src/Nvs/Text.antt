-- ===== src/Nvs/Text.antt =====
-- Esp32Sniffer/components/nvs_lib/nvs_lib.c: `nvs_set_string`, `nvs_get_string` and `nvs_get_num`.
-- A text has its terminating zero behind it where the C functions write it to memory.
pub mod Laws
use wifi_sniffer.Prelude.{
  ℕ, ◌+◌, String, Bool, true, false, Option, none, some, [], ◌∷◌, ◌++◌, length, if◌then◌else◌,
}
use wifi_sniffer.Prelude.Int.{ℤ}
use wifi_sniffer.Prelude.Bytes.{Bytes, memcpy}
use wifi_sniffer.Prelude.Results.{
  Err, is_not_found, Exec, pure, gets, checked, undefined, ◌>>=◌, ◌>>◌,
}
use wifi_sniffer.Nvs.Api.{
  NvsApi, NvsType, OpenMode, Value, number, chars, octets, Got, Store, got, failed, nvs_open,
  nvs_close,
}
use wifi_sniffer.Nvs.Num.{store_value}

module _ (N : NvsApi) where
  unfoldable pub nvs_set_string : String → String → Bytes → Exec (Store N) Err
  unfolding store_value
  nvs_set_string ns key str_value = store_value N ns key (chars str_value)

  module _ (key : String) (out def : Bytes) (def_sz : ℕ) where
    abbrev pub string_read : Got Bytes → Exec (Store N) (Err × Bytes)
    string_read (got b) = do
      v ← checked (memcpy out (b ++ (0 ∷ [])) (length b + 1))
      pure (Err.esp_ok, v)
    string_read (failed e) =
        if is_not_found e
        then (do v ← checked (memcpy out def def_sz); pure (Err.esp_ok, v))
        else pure (e, out)

    -- A namespace that cannot be opened leaves the handle unset, and it is used all the same.
    abbrev pub string_opened : Got N.Handle → Exec (Store N) (Err × Bytes)
    string_opened (failed e) = undefined
    string_opened (got h) = do
      g ← gets (λ s. N.get_text h key s.flash)
      r ← string_read g
      nvs_close N h
      pure r

  -- The error, and what `out_value` points to afterwards.
  unfoldable pub nvs_get_string : String → String → Bytes → Bytes → ℕ → Exec (Store N) (Err × Bytes)
  unfolding nvs_open
  nvs_get_string ns key out def def_sz = do
    opened ← nvs_open N ns OpenMode.read_only
    string_opened key out def def_sz opened

  module _ (key : String) (out : Value) where
    -- What `out_value` points to after a number was read.
    abbrev num_read : NvsType → Got ℤ → Err × Value
    num_read type (got z) = (Err.esp_ok, number type z)
    num_read type (failed e) = (e, out)

    -- A text that is not found is replaced by as many octets of the default as an unset length says.
    abbrev text_read : Value → Got Bytes → Exec (Store N) (Err × Value)
    text_read (octets buf) (got b) = do
      v ← checked (memcpy buf (b ++ (0 ∷ [])) (length b + 1))
      pure (Err.esp_ok, octets v)
    text_read _ (got b) = undefined
    text_read _ (failed e) = if is_not_found e then undefined else pure (e, out)

    abbrev read_and_close : N.Handle → Exec (Store N) (Err × Value) → Exec (Store N) (Err × Value)
    read_and_close h m = do r ← m; nvs_close N h; pure r

    -- The switch over the type; the case of an undefined type returns without closing.
    abbrev pub num_opened : NvsType → Got N.Handle → Exec (Store N) (Err × Value)
    num_opened NvsType.blob _ = pure (Err.nvs_type_mismatch, out)
    num_opened type (failed e) = undefined
    num_opened NvsType.str (got h) =
        read_and_close h (gets (λ s. N.get_text h key s.flash) >>= λ g. text_read out g)
    num_opened type (got h) =
        read_and_close h (gets (λ s. num_read type (N.get_num h key type s.flash)))

  -- `out_value` points to a number of the type, or to an array of characters.
  unfoldable pub nvs_get_num : String → String → NvsType → Value → Exec (Store N) (Err × Value)
  unfolding nvs_open
  nvs_get_num ns key type out = do
    opened ← nvs_open N ns OpenMode.read_only
    num_opened key out type opened
