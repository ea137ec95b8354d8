-- ===== src/Wifi/Address/Laws.antt =====
-- What is in flash after the static address was saved.
use wifi_sniffer.Prelude.{
  ℕ, ◌≡◌, refl, ◌∙◌, sym, ap, String, Bool, true, false, some, arith, ◌⊎◌, inl, inr,
}
use wifi_sniffer.Prelude.Bytes.{Bytes}
use wifi_sniffer.Prelude.Results.{Err, done, error_check, bind_inv, ◌>>=◌, ◌>>◌}
use wifi_sniffer.Nvs.Api.{NvsApi, Store, chars, IsNvs}
use wifi_sniffer.Nvs.Num.Laws.{Stored, store_value-Stored}
use wifi_sniffer.Nvs.Text.{nvs_set_string}
use wifi_sniffer.Wifi.Settings.{wifi_ns, Defaults, IpInfo, is_valid_ip_info, is_same_ip_info}
use wifi_sniffer.Wifi.Address.{
  save_text, save_static_ip_info, save_if_other, convert_to_ip_info, wifi_nvs_get_static_ip_info,
  wifi_nvs_set_static_ip_info,
}

checked_ok :
    {S : Type 0} (e : Err) (s t : S) → error_check e s ≡ done tt t → (e ≡ Err.esp_ok) × (s ≡ t)
checked_ok Err.esp_ok s t h = (refl, ground arith)
checked_ok Err.nvs_not_found s t h = absurd (ground arith)
checked_ok Err.nvs_type_mismatch s t h = absurd (ground arith)
checked_ok Err.nvs_value_too_long s t h = absurd (ground arith)
checked_ok Err.nvs_no_free_pages s t h = absurd (ground arith)
checked_ok Err.nvs_new_version_found s t h = absurd (ground arith)
checked_ok Err.timeout s t h = absurd (ground arith)
checked_ok (Err.other _) s t h = absurd (ground arith)

is_same_ip_info→eq : (i j : IpInfo) → is_same_ip_info i j ≡ true → i ≡ j
unfolding is_same_ip_info
is_same_ip_info→eq i j h = ground arith

module _ (N : NvsApi) (L : IsNvs N) (D : Defaults) (ipaddr_addr : Bytes → ℕ) where
  save_text-Stored :
      (key : String) (value : Bytes) (s t : Store N)
      → save_text N D ipaddr_addr key value s ≡ done tt t
      → Stored N L wifi_ns key (chars value) s t
  unfolding save_text nvs_set_string
  save_text-Stored key value s t h =
      let (e, u, p, q) =
        bind_inv (nvs_set_string N wifi_ns key value) (λ e. error_check e) s t tt h in
      let (ok, same) = checked_ok e u t q in
      store_value-Stored N L wifi_ns key (chars value) s t
        (p ∙ ap (λ x. done x u) ok ∙ ap (λ x. done Err.esp_ok x) same)

  -- The three texts of a static address, each under its key.
  abbrev pub Holds : Bytes → Bytes → Bytes → Store N → Type 0
  Holds ip netmask gw t =
      (L.lookup t.flash wifi_ns "ip" ≡ some (chars ip))
      × (L.lookup t.flash wifi_ns "netmask" ≡ some (chars netmask))
      × (L.lookup t.flash wifi_ns "gw" ≡ some (chars gw))

  save_static_ip_info-Holds :
      (ip netmask gw : Bytes) (s t : Store N)
      → save_static_ip_info N D ipaddr_addr ip netmask gw s ≡ done tt t
      → Holds ip netmask gw t
  unfolding save_static_ip_info
  save_static_ip_info-Holds ip netmask gw s t h =
      let (_, s₁, e₁, h₁) =
        bind_inv (save_text N D ipaddr_addr "ip" ip)
          (λ _. save_text N D ipaddr_addr "netmask" netmask >> save_text N D ipaddr_addr "gw" gw) s
          t tt h in
      let (_, s₂, e₂, e₃) =
        bind_inv (save_text N D ipaddr_addr "netmask" netmask)
          (λ _. save_text N D ipaddr_addr "gw" gw) s₁ t tt h₁ in
      let a = save_text-Stored "ip" ip s s₁ e₁ in
      let b = save_text-Stored "netmask" netmask s₁ s₂ e₂ in
      let c = save_text-Stored "gw" gw s₂ t e₃ in
      (
        c.value_at wifi_ns "ip" ∙ b.value_at wifi_ns "ip" ∙ a.value_at wifi_ns "ip",
        c.value_at wifi_ns "netmask" ∙ b.value_at wifi_ns "netmask",
        c.value_at wifi_ns "gw",
      )

  compared_lem :
      (same : Bool) (ip netmask gw : Bytes) (s t : Store N)
      → save_if_other N D ipaddr_addr same ip netmask gw s ≡ done tt t
      → (save_static_ip_info N D ipaddr_addr ip netmask gw s ≡ done tt t)
        ⊎ ((same ≡ true) × (s ≡ t))
  unfolding save_if_other
  compared_lem true ip netmask gw s t h = inr (refl, ground arith)
  compared_lem false ip netmask gw s t h = inl h

  entered :
      (ip netmask gw : Bytes) (s t : Store N)
      → is_valid_ip_info (convert_to_ip_info N D ipaddr_addr ip netmask gw) ≡ true
      → wifi_nvs_set_static_ip_info N D ipaddr_addr ip netmask gw s ≡ done tt t
      → (wifi_nvs_get_static_ip_info N D ipaddr_addr >>= λ prev.
            save_if_other N D ipaddr_addr
              (is_same_ip_info (convert_to_ip_info N D ipaddr_addr ip netmask gw) prev)
              ip
              netmask
              gw)
          s
        ≡ done tt t
  unfolding wifi_nvs_set_static_ip_info
  entered ip netmask gw s t valid h = rw valid at h

  -- Where `wifi_nvs_set_static_ip_info` returns after three valid addresses, the flash holds their texts, each
  -- under its key, or the addresses that could be read from the flash before were the same.
  pub wifi_nvs_set_static_ip_info_saves :
      (ip netmask gw : Bytes) (s t : Store N)
      → is_valid_ip_info (convert_to_ip_info N D ipaddr_addr ip netmask gw) ≡ true
      → wifi_nvs_set_static_ip_info N D ipaddr_addr ip netmask gw s ≡ done tt t
      → Holds ip netmask gw t
        ⊎ (wifi_nvs_get_static_ip_info N D ipaddr_addr s
            ≡ done (convert_to_ip_info N D ipaddr_addr ip netmask gw) t)
  wifi_nvs_set_static_ip_info_saves ip netmask gw s t valid h =
      let info = convert_to_ip_info N D ipaddr_addr ip netmask gw in
      let (prev, u, e, k) =
        bind_inv (wifi_nvs_get_static_ip_info N D ipaddr_addr)
          (λ prev. save_if_other N D ipaddr_addr (is_same_ip_info info prev) ip netmask gw) s t tt
          (entered ip netmask gw s t valid h) in
      elim (compared_lem (is_same_ip_info info prev) ip netmask gw u t k) [
        | inl saved ↦ inl (save_static_ip_info-Holds ip netmask gw u t saved)
        | inr (same, stays) ↦ inr (
            e
            ∙ ap (λ x. done x u) (sym (is_same_ip_info→eq info prev same))
            ∙ ap (λ x. done info x) stays)
      ]
