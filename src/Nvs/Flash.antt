-- ===== src/Nvs/Flash.antt =====
-- Esp32Sniffer/components/nvs_lib/nvs_lib.c: `nvs_init_flash` and `nvs_erase_value`.
use wifi_sniffer.Prelude.{◌≡◌, ◌⊎◌, ◌↔◌, String, Bool, true, false, arith, if◌then◌else◌}
use wifi_sniffer.Prelude.Results.{Err, done, Exec, pure, error_check, ◌>>=◌, ◌>>◌}
use wifi_sniffer.Nvs.Api.{
  NvsApi, OpenMode, Got, Store, got, failed, nvs_open, nvs_close, nvs_erase_key,
}
use wifi_sniffer.Nvs.Num.{commit_if}

-- ESP_ERR_NVS_NO_FREE_PAGES or ESP_ERR_NVS_NEW_VERSION_FOUND
abbrev wants_erase : Err → Bool
wants_erase Err.nvs_no_free_pages = true
wants_erase Err.nvs_new_version_found = true
wants_erase _ = false

module _ (N : NvsApi) where
  -- nvs_flash_init and nvs_flash_erase
  abbrev on_flash : (N.Flash → Err × N.Flash) → Exec (Store N) Err
  on_flash f s = done (f s.flash).0 (record s { flash = (f s.flash).1 })

  -- What follows the first answer of nvs_flash_init.
  abbrev erase_and_retry : Err → Exec (Store N) (Unit {0})
  erase_and_retry ret =
      if wants_erase ret
      then (do
        e ← on_flash N.flash_erase
        error_check e
        ret' ← on_flash N.flash_init
        error_check ret')
      else error_check ret

  unfoldable pub nvs_init_flash : Exec (Store N) (Unit {0})
  nvs_init_flash = do ret ← on_flash N.flash_init; erase_and_retry ret

  abbrev erase_opened : String → Got N.Handle → Exec (Store N) Err
  erase_opened key (failed e) = pure e
  erase_opened key (got h) = do
    e ← nvs_erase_key N h key
    r ← commit_if N e h
    nvs_close N h
    pure r

  unfoldable pub nvs_erase_value : String → String → Exec (Store N) Err
  unfolding nvs_open
  nvs_erase_value ns key = do opened ← nvs_open N ns OpenMode.read_write; erase_opened key opened

  -- What the flash must have answered, from `f` on, for it to be `t` at the end.
  abbrev pub InitsTo : N.Flash → N.Flash → Type 0
  InitsTo f t =
      N.flash_init f ≡ (Err.esp_ok, t)
      ⊎ (((N.flash_init f).0 ≡ Err.nvs_no_free_pages)
          ⊎ ((N.flash_init f).0 ≡ Err.nvs_new_version_found))
        × ((N.flash_erase (N.flash_init f).1).0 ≡ Err.esp_ok)
        × (N.flash_init (N.flash_erase (N.flash_init f).1).1 ≡ (Err.esp_ok, t))

  -- `nvs_init_flash` returns exactly if nvs_flash_init answers ESP_OK, or if it answers
  -- ESP_ERR_NVS_NO_FREE_PAGES or ESP_ERR_NVS_NEW_VERSION_FOUND, nvs_flash_erase then answers ESP_OK, and so
  -- does nvs_flash_init on the erased flash. The flash is then as the last call left it, and no handle is
  -- opened or closed.
  pub nvs_init_flash_returns :
      (s t : Store N)
      → (nvs_init_flash s ≡ done tt t)
        ↔ ((t.open_handles ≡ s.open_handles) × InitsTo s.flash t.flash)
  unfolding nvs_init_flash
  nvs_init_flash_returns s t = (λ e. (ground arith, ground arith), λ e. ground arith)
