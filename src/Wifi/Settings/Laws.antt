-- ===== src/Wifi/Settings/Laws.antt =====
-- What is asked of the length of a text setting.
use wifi_sniffer.Prelude.{ℕ, ◌<◌, ◌≡◌, refl, ◌∙◌, arith, replicate}
use wifi_sniffer.Prelude.Bytes.{Bytes}
use wifi_sniffer.Prelude.Text.{strncpy, strncpy_short}
use wifi_sniffer.Prelude.Results.{
  Exec, undefined, bind_cong, bind_assoc, pure, checked, error_check, ◌>>=◌, ◌>>◌,
}
use wifi_sniffer.Nvs.Api.{NvsApi, Store}
use wifi_sniffer.Nvs.Text.{nvs_get_string}
use wifi_sniffer.Wifi.Settings.{
  wifi_ns, ssid_size, ssid_pass_size, Defaults, get_text, set_text, wifi_nvs_set_ap_ssid_pw,
  wifi_nvs_get_ap_ssid_pw,
}

module _ (N : NvsApi) (D : Defaults) where
  -- The read of the saved password, its check, and then behaviour that C leaves undefined.
  abbrev pub read_then_overrun : Exec (Store N) (Unit {0})
  read_then_overrun =
      nvs_get_string N wifi_ns "ap-ssid-pw" (replicate ssid_pass_size 0) D.ap_ssid_pw ssid_pass_size
      >>= λ r. error_check r.0 >> undefined

  overruns :
      (sz : ℕ) (rest : Bytes → Exec (Store N) (Unit {0})) (s : Store N)
      → 32 < sz
      → (get_text N D ssid_pass_size "ap-ssid-pw" (replicate ssid_size 0) D.ap_ssid_pw sz >>= rest)
          s
        ≡ read_then_overrun s
  unfolding get_text
  overruns sz rest s long =
      bind_assoc
        (nvs_get_string N wifi_ns "ap-ssid-pw" (replicate ssid_pass_size 0) D.ap_ssid_pw
          ssid_pass_size)
        (λ r. error_check r.0 >> checked (strncpy (replicate ssid_size 0) r.1 sz)) rest s
      ∙ bind_cong
          (nvs_get_string N wifi_ns "ap-ssid-pw" (replicate ssid_pass_size 0) D.ap_ssid_pw
            ssid_pass_size)
          (λ r. (error_check r.0 >> checked (strncpy (replicate ssid_size 0) r.1 sz)) >>= rest)
          (λ r. error_check r.0 >> undefined) s
          (λ r t.
            bind_assoc (error_check r.0) (λ _. checked (strncpy (replicate ssid_size 0) r.1 sz))
              rest t
            ∙ bind_cong (error_check r.0)
                (λ _. checked (strncpy (replicate ssid_size 0) r.1 sz) >>= rest) (λ _. undefined) t
                (λ _ u.
                  rw (strncpy_short (replicate ssid_size 0) r.1 sz (omega (arith, long))) refl))

  -- A password of the access point that is given with a length above 32: whatever the flash holds, all that
  -- the function does is to copy the password, to read the saved one and to check the read's result. Where
  -- that is ESP_OK, it then writes out of range, before anything is saved.
  pub wifi_nvs_set_ap_ssid_pw_long :
      (value : Bytes) (sz : ℕ) (s : Store N)
      → 32 < sz
      → wifi_nvs_set_ap_ssid_pw N D value sz s
        ≡ (checked (strncpy (replicate ssid_pass_size 0) value ssid_pass_size) >> read_then_overrun)
            s
  unfolding wifi_nvs_set_ap_ssid_pw set_text
  wifi_nvs_set_ap_ssid_pw_long value sz s long =
      bind_cong (checked (strncpy (replicate ssid_pass_size 0) value ssid_pass_size)) _ _ s
        (λ v t. overruns sz _ t long)

  -- An empty password of the access point is never saved: with the length 0, the comparison with the saved
  -- password is over no characters, and what the function does is to read the saved one.
  pub wifi_nvs_set_ap_ssid_pw_empty :
      (value : Bytes) (s : Store N)
      → wifi_nvs_set_ap_ssid_pw N D value 0 s
        ≡ (checked (strncpy (replicate ssid_pass_size 0) value ssid_pass_size)
              >> (wifi_nvs_get_ap_ssid_pw N D (replicate ssid_size 0) 0 >> pure tt))
            s
  unfolding wifi_nvs_set_ap_ssid_pw set_text wifi_nvs_get_ap_ssid_pw
  wifi_nvs_set_ap_ssid_pw_empty value s = refl
