-- ===== src/Nvs/Num.antt =====
-- Esp32Sniffer/components/nvs_lib/nvs_lib.c: `nvs_set_num32i`, `nvs_get_num32i` and `nvs_get_num`.
-- A value that the C functions write through `out_value` comes in and goes out.
pub mod Laws
use wifi_sniffer.Prelude.{ℕ, String, Bool, true, false, Option, none, some, if◌then◌else◌}
use wifi_sniffer.Prelude.Int.{ℤ}
use wifi_sniffer.Prelude.Bytes.{Bytes, memcpy}
use wifi_sniffer.Prelude.Results.{
  Err, is_ok, is_not_found, Outcome, done, fault, Exec, pure, gets, undefined, ◌>>=◌, ◌>>◌,
}
use wifi_sniffer.Nvs.Api.{
  NvsApi, NvsType, OpenMode, Value, Got, Store, got, failed, nvs_open, nvs_close, nvs_set,
  nvs_commit,
}

module _ (N : NvsApi) where
  -- The common end of the setters: commit what was stored, and close.
  unfoldable pub commit_if : Err → N.Handle → Exec (Store N) Err
  unfolding nvs_commit
  commit_if e h = if is_ok e then nvs_commit N h else pure e

  -- Open for writing, store one value, commit, close.
  unfoldable pub store_value : String → String → Value → Exec (Store N) Err
  unfolding nvs_open nvs_set commit_if nvs_close
  store_value ns key v = do
    opened ← nvs_open N ns OpenMode.read_write
    elim opened [
      | failed e ↦ pure e
      | got h ↦ do e ← nvs_set N h key v; r ← commit_if e h; nvs_close N h; pure r
    ]

  unfoldable pub nvs_set_num32i : String → String → ℤ → Exec (Store N) Err
  unfolding store_value
  nvs_set_num32i ns key value = store_value ns key (Value.number NvsType.i32 value)

  -- The error, and what `*out_value` is afterwards.
  unfoldable pub nvs_get_num32i : String → String → ℤ → ℤ → Exec (Store N) (Err × ℤ)
  unfolding nvs_open nvs_close
  nvs_get_num32i ns key out def = do
    opened ← nvs_open N ns OpenMode.read_write
    elim opened [
      | failed e ↦ pure (e, def)
      | got h ↦ do
        g ← gets (λ s. N.get_num h key NvsType.i32 s.flash)
        nvs_close N h
        pure (elim g [
          | got value ↦ (Err.esp_ok, value)
          | failed e ↦ if is_not_found e then (Err.esp_ok, def) else (e, out)
        ])
    ]
