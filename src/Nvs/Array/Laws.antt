-- ===== src/Nvs/Array/Laws.antt =====
-- What an array stored by `nvs_set_array` reads back as.
use text.Mathlib.TextPositions.{eq_refl}
use wifi_sniffer.Prelude.{
  ℕ, ◌≤◌, ◌≡◌, refl, ap, ◌∙◌, sym, subst, String, true, false, Option, none, some, arith, length,
  length-take, take-take_le, take, drop, ◌++◌,
}
use wifi_sniffer.Prelude.Bytes.{Bytes}
use wifi_sniffer.Prelude.Results.{Err, done}
use wifi_sniffer.Nvs.Api.{NvsApi, OpenMode, Value, Store, got, IsNvs, ArrayAnswer, nvs_close}
use wifi_sniffer.Nvs.Num.{store_value}
use wifi_sniffer.Nvs.Num.Laws.{Stored, store_value-Stored}
use wifi_sniffer.Nvs.Array.{nvs_set_array, nvs_get_array}

module _ (N : NvsApi) where
  nvs_set_array-store_value :
      (ns key : String) (value : Bytes) (sz : ℕ) (s : Store N)
      → sz ≤ length value
      → nvs_set_array N ns key value sz s ≡ store_value N ns key (Value.octets (take sz value)) s
  unfolding nvs_set_array store_value
  nvs_set_array-store_value ns key value sz s h = ground arith

  module _ (L : IsNvs N) where
    pub nvs_set_array-Stored :
        (ns key : String) (value : Bytes) (sz : ℕ) (s s' : Store N)
        → sz ≤ length value
        → nvs_set_array N ns key value sz s ≡ done Err.esp_ok s'
        → Stored N L ns key (Value.octets (take sz value)) s s'
    nvs_set_array-Stored ns key value sz s s' h e =
        store_value-Stored N L ns key (Value.octets (take sz value)) s s'
          (sym (nvs_set_array-store_value ns key value sz s h) ∙ e)

    module _ (ns key : String) (value : Bytes) (sz : ℕ) (def : Bytes) (def_sz : ℕ)
        (s : Store N) where
      -- A namespace that does not exist gives the default, and leaves no handle open.
      pub nvs_get_array_no_namespace :
          L.has_namespace s.flash ns ≡ false
          → def_sz ≤ length value
          → def_sz ≤ length def
          → nvs_get_array N ns key value sz def def_sz s
            ≡ done (Err.esp_ok, take def_sz def ++ drop def_sz value, def_sz) s
      unfolding nvs_get_array nvs_close
      nvs_get_array_no_namespace gone h k = ground (arith, L.open_missing ns s.flash gone)

      module _ (there : L.has_namespace s.flash ns ≡ true) where
        pub opened :
            (h : N.Handle) × (f : N.Flash) × (N.open_namespace ns OpenMode.read_only s.flash
              ≡ got (h, f))
        opened = L.open_existing ns OpenMode.read_only s.flash there

        answer :
            {v : Option Value}
            → L.lookup s.flash ns key ≡ v
            → ArrayAnswer v (N.get_array opened.0 key opened.1)
        answer e =
            subst (λ t. ArrayAnswer t (N.get_array opened.0 key opened.1))
              (L.open_lookup ns OpenMode.read_only s.flash opened.0 opened.1 ns key opened.2 ∙ e)
              (subst
                (λ t. ArrayAnswer (L.lookup opened.1 t key) (N.get_array opened.0 key opened.1))
                (L.open_namespace_of ns OpenMode.read_only s.flash opened.0 opened.1 opened.2)
                (L.get_array_answer opened.0 key opened.1))

        abbrev pub after_read : Store N
        after_read = record { flash = opened.1; open_handles = s.open_handles }

        pub nvs_get_array_found :
            (b : Bytes)
            → L.lookup s.flash ns key ≡ some (Value.octets b)
            → length b ≤ length value
            → nvs_get_array N ns key value sz def def_sz s
              ≡ done (Err.esp_ok, take (length b) b ++ drop (length b) value, length b) after_read
        unfolding nvs_get_array nvs_close
        nvs_get_array_found b e h = ground (arith, opened.2, answer e)

        pub nvs_get_array_missing :
            L.lookup s.flash ns key ≡ none
            → def_sz ≤ length value
            → def_sz ≤ length def
            → nvs_get_array N ns key value sz def def_sz s
              ≡ done (Err.esp_ok, take def_sz def ++ drop def_sz value, def_sz) after_read
        unfolding nvs_get_array nvs_close
        nvs_get_array_missing e h k = ground (arith, opened.2, answer e)

    module _ (ns key : String) (value : Bytes) (sz : ℕ) (out : Bytes) (out_sz : ℕ) (def : Bytes)
        (def_sz : ℕ) where
      -- An array of `sz` octets that was stored with ESP_OK reads back whole, into any array that has room
      -- for it; what follows in that array is left alone, and no handle stays open.
      pub nvs_get_array-nvs_set_array :
          (s s' : Store N)
          → sz ≤ length value
          → sz ≤ length out
          → nvs_set_array N ns key value sz s ≡ done Err.esp_ok s'
          → (t : Store N) × (nvs_get_array N ns key out out_sz def def_sz s'
              ≡ done (Err.esp_ok, take sz value ++ drop sz out, sz) t)
            × (t.open_handles ≡ s.open_handles)
      nvs_get_array-nvs_set_array s s' fits room e =
          let st = nvs_set_array-Stored ns key value sz s s' fits e in
          (
            after_read ns key out out_sz def def_sz s' st.exists,
            read st.exists (held st),
            st.handles,
          )
        where
          size : length (take sz value) ≡ sz
          size = length-take sz value fits

          held :
              Stored N L ns key (Value.octets (take sz value)) s s'
              → L.lookup s'.flash ns key ≡ some (Value.octets (take sz value))
          held st = rw (st.value_at ns key, eq_refl ns, eq_refl key) refl

          read :
              (there : L.has_namespace s'.flash ns ≡ true)
              → L.lookup s'.flash ns key ≡ some (Value.octets (take sz value))
              → nvs_get_array N ns key out out_sz def def_sz s'
                ≡ done
                    (Err.esp_ok, take sz value ++ drop sz out, sz)
                    (after_read ns key out out_sz def def_sz s' there)
          read there h =
              subst
                (λ n.
                  nvs_get_array N ns key out out_sz def def_sz s'
                  ≡ done (Err.esp_ok, take n (take sz value) ++ drop n out, n)
                      (after_read ns key out out_sz def def_sz s' there))
                size
                (nvs_get_array_found ns key out out_sz def def_sz s' there (take sz value) h
                  (ground (arith, size, room)))
              ∙ ap
                  (λ (b : Bytes).
                    done (Err.esp_ok, b ++ drop sz out, sz)
                      (after_read ns key out out_sz def def_sz s' there))
                  (take-take_le sz sz value (omega arith))
