-- ===== src/Sniffer/Settings/Laws.antt =====
-- What the sniffer's settings are after they were written and read.
use wifi_sniffer.Prelude.{
  ℕ, ◌≤◌, ◌≡◌, refl, String, some, length, take, drop, arith, ◌++◌, length-append, length-take,
  length-drop,
}
use wifi_sniffer.Prelude.Bytes.{Bytes, memcpy}
use wifi_sniffer.Prelude.Results.{Err, is_not_found, gets, error_check}
use wifi_sniffer.Prelude.Keeps.{Gives, Gives-bind, Gives-any, Gives-pure, Gives-checked, Gives-if}
use wifi_sniffer.Nvs.Api.{NvsApi, Got, got, failed, nvs_open, nvs_close, OpenMode}
use wifi_sniffer.Nvs.Array.{nvs_get_array, copy_in, default_if_missing, array_read, array_opened}
use wifi_sniffer.Sniffer.Settings.{get_filter_mac, no_filter, sniffer_ns}
use wifi_sniffer.Sniffer.Filter.Laws.{IsFilter}

memcpy_size :
    (dst src b : Bytes) (n : ℕ)
    → memcpy dst src n ≡ some b
    → (length b ≡ length dst) × (n ≤ length dst)
memcpy_size dst src b n e = (same, ground arith)
  where
    copy_in : b ≡ take n src ++ drop n dst
    copy_in = ground arith

    room : (n ≤ length dst) × (n ≤ length src)
    room = ground arith

    same : length b ≡ length dst
    same = rw copy_in (
        ground (
          arith,
          length-append (take n src) (drop n dst),
          length-take n src room.1,
          length-drop n dst,
          room,
        ))

-- An array that was read fits where it was read to.
abbrev Read : ℕ → Err × Bytes × ℕ → Type 0
Read room (e, v, n) = (length v ≡ room) × (n ≤ room)

module _ (N : NvsApi) (key : String) (value : Bytes) (sz : ℕ) (def : Bytes) (def_sz : ℕ)
    (fits : sz ≤ length value) where
  Gives-copied :
      (src : Bytes) (n : ℕ) → Gives (Read (length value)) (copy_in N key value sz def def_sz src n)
  Gives-copied src n =
      Gives-bind (Gives-checked (memcpy value src n) (λ v e. memcpy_size value src v n e))
        (λ v r. Gives-pure _ r)

  Gives-default :
      (e : Err) → Gives (Read (length value)) (default_if_missing N key value sz def def_sz e)
  Gives-default e =
      Gives-if (is_not_found e) (Gives-copied def def_sz) (Gives-pure (e, value, sz) (refl, fits))

  Gives-Read_got :
      (g : Got Bytes) → Gives (Read (length value)) (array_read N key value sz def def_sz g)
  Gives-Read_got (got b) = Gives-copied b (length b)
  Gives-Read_got (failed e) = Gives-default e

  Gives-opened :
      (g : Got N.Handle) → Gives (Read (length value)) (array_opened N key value sz def def_sz g)
  Gives-opened (failed e) = Gives-default e
  Gives-opened (got h) = Gives-bind (Gives-any (gets (λ s. N.get_array h key s.flash))) (λ g _.
      Gives-bind (Gives-Read_got g)
        (λ r fit. Gives-bind (Gives-any (nvs_close N h)) (λ _ _. Gives-pure r fit)))

  Gives-get_array :
      (ns : String) → Gives (Read (length value)) (nvs_get_array N ns key value sz def def_sz)
  unfolding nvs_get_array
  Gives-get_array ns =
      Gives-bind (Gives-any (nvs_open N ns OpenMode.read_only)) (λ opened _. Gives-opened opened)

module _ (N : NvsApi) where
  -- Whatever the flash holds, a filter that is read from it is one that the program could have built.
  pub Gives-get_filter_mac : (key : String) → Gives IsFilter (get_filter_mac N key)
  unfolding get_filter_mac
  Gives-get_filter_mac key =
      Gives-bind
        (Gives-get_array N key no_filter.addr no_filter.size no_filter.addr no_filter.size
          (omega arith) sniffer_ns)
        (λ (e, addr, size) r.
          Gives-bind (Gives-any (error_check e))
            (λ _ _. Gives-pure _ (record { octets = r.0; fits = r.1 })))
