-- ===== src/Nvs/Num/Laws.antt =====
-- What a value stored by nvs_lib.c reads back as.
use text.Mathlib.Text.{◌==◌}
use text.Mathlib.TextPositions.{eq_refl}
use wifi_sniffer.Prelude.{
  ◌≡◌, refl, ◌∙◌, sym, subst, String, true, false, ◌&&◌, Option, none, some, arith, inl, inr,
  if◌then◌else◌,
}
use wifi_sniffer.Prelude.Int.{ℤ}
use wifi_sniffer.Prelude.Results.{Err, is_ok, Outcome, done}
use wifi_sniffer.Nvs.Api.{
  NvsApi, NvsType, OpenMode, Value, Store, got, failed, IsNvs, Got-cases, NumAnswer,
}
use wifi_sniffer.Nvs.Num.{store_value, nvs_set_num32i, nvs_get_num32i}

module _ (N : NvsApi) (L : IsNvs N) where
  -- After an operation that returned ESP_OK: the key holds the value, no other key changed, every
  -- handle that it opened is closed, and its namespace can be opened.
  pub record Stored (ns key : String) (v : Value) (s s' : Store N) : Type 0 where
    pub value_at :
        (n k : String)
        → L.lookup s'.flash n k ≡ (if (n == ns) && (k == key) then some v else L.lookup s.flash n k)
    pub exists : L.has_namespace s'.flash ns ≡ true
    pub handles : s'.open_handles ≡ s.open_handles

  module _ (ns key : String) (v : Value) (s : Store N) (h : N.Handle) (f : N.Flash) where
    abbrev written : N.Flash
    written = (N.set_value h key v f).1

    abbrev committed : N.Flash
    committed = (N.commit h written).1

    store_value_inv :
        (s' : Store N)
        → N.open_namespace ns OpenMode.read_write s.flash ≡ got (h, f)
        → store_value N ns key v s ≡ done Err.esp_ok s'
        → (is_ok (N.set_value h key v f).0 ≡ true)
          × (s' ≡ record { flash = committed; open_handles = s.open_handles })
    unfolding store_value
    store_value_inv s' e r = (ground arith, ground arith)

    value_written :
        N.open_namespace ns OpenMode.read_write s.flash ≡ got (h, f)
        → is_ok (N.set_value h key v f).0 ≡ true
        → (n k : String)
        → L.lookup committed n k
          ≡ (if (n == ns) && (k == key) then some v else L.lookup s.flash n k)
    value_written e set n k = rw (
      L.commit_lookup h written n k,
      L.set_lookup h key v f n k set,
      L.open_namespace_of ns OpenMode.read_write s.flash h f e,
      L.open_lookup ns OpenMode.read_write s.flash h f n k e,
    )

    namespace_written :
        N.open_namespace ns OpenMode.read_write s.flash ≡ got (h, f)
        → L.has_namespace committed ns ≡ true
    namespace_written e = rw (
      L.commit_namespace h written ns,
      L.set_namespace h key v f ns,
      L.open_creates ns s.flash h f e,
    )

  store_value_failed :
      (ns key : String) (v : Value) (s : Store N) (e : Err)
      → N.open_namespace ns OpenMode.read_write s.flash ≡ failed e
      → store_value N ns key v s ≡ done e s
  unfolding store_value
  store_value_failed ns key v s e h = ground arith

  pub store_value-Stored :
      (ns key : String) (v : Value) (s s' : Store N)
      → store_value N ns key v s ≡ done Err.esp_ok s'
      → Stored ns key v s s'
  store_value-Stored ns key v s s' r =
      elim (Got-cases (N.open_namespace ns OpenMode.read_write s.flash)) [
        | inl ((h, f), e) ↦
            let (set, eq) = store_value_inv ns key v s h f s' e r in
            rw eq (record {
              value_at = value_written ns key v s h f e set;
              exists = namespace_written ns key v s h f e;
              handles = refl;
            })
        | inr (er, e) ↦ absurd (
            ok≢failed (L.open_failed ns OpenMode.read_write s.flash er e)
              (sym (store_value_failed ns key v s er e) ∙ r))
      ]
    where
      ok≢failed :
          {er : Err}
          → is_ok er ≡ false
          → ◌≡◌ {A = Outcome (Store N) Err} (done er s) (done Err.esp_ok s')
          → ⊥
      ok≢failed p q = ground arith

  -- What can be read through a namespace that exists: the answer for what the key holds, with every
  -- handle closed and no value changed.
  module _ (ns key : String) (out def : ℤ) (s : Store N)
      (there : L.has_namespace s.flash ns ≡ true) where
    pub opened :
        (h : N.Handle) × (f : N.Flash) × (N.open_namespace ns OpenMode.read_write s.flash
          ≡ got (h, f))
    opened = L.open_existing ns OpenMode.read_write s.flash there

    answer :
        {v : Option Value}
        → L.lookup s.flash ns key ≡ v
        → NumAnswer v NvsType.i32 (N.get_num opened.0 key NvsType.i32 opened.1)
    answer e =
        subst (λ t. NumAnswer t NvsType.i32 (N.get_num opened.0 key NvsType.i32 opened.1))
          (L.open_lookup ns OpenMode.read_write s.flash opened.0 opened.1 ns key opened.2 ∙ e)
          (subst
            (λ t.
              NumAnswer (L.lookup opened.1 t key) NvsType.i32
                (N.get_num opened.0 key NvsType.i32 opened.1))
            (L.open_namespace_of ns OpenMode.read_write s.flash opened.0 opened.1 opened.2)
            (L.get_num_answer opened.0 key NvsType.i32 opened.1))

    abbrev pub after_read : Store N
    after_read = record { flash = opened.1; open_handles = s.open_handles }

    pub nvs_get_num32i_found :
        {z : ℤ}
        → L.lookup s.flash ns key ≡ some (Value.number NvsType.i32 z)
        → nvs_get_num32i N ns key out def s ≡ done (Err.esp_ok, z) after_read
    unfolding nvs_get_num32i
    nvs_get_num32i_found e = ground (arith, opened.2, answer e refl)

    pub nvs_get_num32i_missing :
        L.lookup s.flash ns key ≡ none
        → nvs_get_num32i N ns key out def s ≡ done (Err.esp_ok, def) after_read
    unfolding nvs_get_num32i
    nvs_get_num32i_missing e = ground (arith, opened.2, answer e)

  -- A number that was stored with ESP_OK reads back, whatever the default, and no handle stays open.
  pub nvs_get_num32i-nvs_set_num32i :
      (ns key : String) (z out def : ℤ) (s s' : Store N)
      → nvs_set_num32i N ns key z s ≡ done Err.esp_ok s'
      → (t : Store N) × (nvs_get_num32i N ns key out def s' ≡ done (Err.esp_ok, z) t)
        × (t.open_handles ≡ s.open_handles)
  unfolding nvs_set_num32i
  nvs_get_num32i-nvs_set_num32i ns key z out def s s' e =
      let st = store_value-Stored ns key (Value.number NvsType.i32 z) s s' e in
      (
        after_read ns key out def s' st.exists,
        nvs_get_num32i_found ns key out def s' st.exists (held st),
        st.handles,
      )
    where
      held :
          Stored ns key (Value.number NvsType.i32 z) s s'
          → L.lookup s'.flash ns key ≡ some (Value.number NvsType.i32 z)
      held st = rw (st.value_at ns key, eq_refl ns, eq_refl key) refl
