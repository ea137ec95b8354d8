-- ===== src/Nvs/Text/Laws.antt =====
-- What a text stored by `nvs_set_string` reads back as.
use text.Mathlib.TextPositions.{eq_refl}
use mathlib.Core.List.{append_assoc}
use wifi_sniffer.Prelude.{
  ℕ, ◌+◌, ◌≤◌, ◌≡◌, refl, ap, ◌∙◌, subst, String, true, Option, some, [], ◌∷◌, arith, length, drop,
  ◌++◌, length-append, take-append_add,
}
use wifi_sniffer.Prelude.Bytes.{Bytes, memcpy}
use wifi_sniffer.Prelude.Results.{Err, done}
use wifi_sniffer.Nvs.Api.{NvsApi, OpenMode, Value, Store, got, IsNvs, TextAnswer, nvs_close}
use wifi_sniffer.Nvs.Num.Laws.{Stored, store_value-Stored}
use wifi_sniffer.Nvs.Text.{nvs_set_string, nvs_get_string}

module _ (N : NvsApi) (L : IsNvs N) where
  module _ (ns key : String) (out def : Bytes) (def_sz : ℕ) (s : Store N)
      (there : L.has_namespace s.flash ns ≡ true) where
    opened :
        (h : N.Handle) × (f : N.Flash) × (N.open_namespace ns OpenMode.read_only s.flash
          ≡ got (h, f))
    opened = L.open_existing ns OpenMode.read_only s.flash there

    answer :
        {v : Option Value}
        → L.lookup s.flash ns key ≡ v
        → TextAnswer v (N.get_text opened.0 key opened.1)
    answer e =
        subst (λ t. TextAnswer t (N.get_text opened.0 key opened.1))
          (L.open_lookup ns OpenMode.read_only s.flash opened.0 opened.1 ns key opened.2 ∙ e)
          (subst (λ t. TextAnswer (L.lookup opened.1 t key) (N.get_text opened.0 key opened.1))
            (L.open_namespace_of ns OpenMode.read_only s.flash opened.0 opened.1 opened.2)
            (L.get_text_answer opened.0 key opened.1))

    abbrev after_read : Store N
    after_read = record { flash = opened.1; open_handles = s.open_handles }

    copied_text :
        (b : Bytes)
        → length b + 1 ≤ length out
        → memcpy out (b ++ 0 ∷ []) (length b + 1) ≡ some (b ++ 0 ∷ drop (length b + 1) out)
    copied_text b room = rw (take-append_add b (0 ∷ []) 1) (
        ground (arith, length-append b (0 ∷ []), room)
        ∙ ap some (append_assoc b (0 ∷ []) (drop (length b + 1) out)))

    nvs_get_string_found :
        (b : Bytes)
        → L.lookup s.flash ns key ≡ some (Value.chars b)
        → length b + 1 ≤ length out
        → nvs_get_string N ns key out def def_sz s
          ≡ done (Err.esp_ok, b ++ 0 ∷ drop (length b + 1) out) after_read
    unfolding nvs_get_string nvs_close
    nvs_get_string_found b e room = ground (arith, opened.2, answer e, copied_text b room)

  -- A text that was stored with ESP_OK reads back with its terminating zero into any array that has
  -- room for both, whatever the default, and no handle stays open.
  pub nvs_get_string-nvs_set_string :
      (ns key : String) (b out def : Bytes) (def_sz : ℕ) (s s' : Store N)
      → length b + 1 ≤ length out
      → nvs_set_string N ns key b s ≡ done Err.esp_ok s'
      → (t : Store N) × (nvs_get_string N ns key out def def_sz s'
          ≡ done (Err.esp_ok, b ++ 0 ∷ drop (length b + 1) out) t)
        × (t.open_handles ≡ s.open_handles)
  unfolding nvs_set_string
  nvs_get_string-nvs_set_string ns key b out def def_sz s s' room e =
      let st = store_value-Stored N L ns key (Value.chars b) s s' e in
      (
        after_read ns key out def def_sz s' st.exists,
        nvs_get_string_found ns key out def def_sz s' st.exists b (held st) room,
        st.handles,
      )
    where
      held :
          Stored N L ns key (Value.chars b) s s' → L.lookup s'.flash ns key ≡ some (Value.chars b)
      held st = rw (st.value_at ns key, eq_refl ns, eq_refl key) refl
