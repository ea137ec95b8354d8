-- ===== src/Wifi/Connection/Laws.antt =====
-- The name of the access point, and one network interface at a time.
use wifi_sniffer.Prelude.{
  ℕ, suc, ◌%◌, ◌<◌, ◌+◌, ◌-◌, ◌≡◌, refl, ◌∙◌, sym, ap, subst, ◌&&◌, none, some, List, [], ◌∷◌, ◌++◌,
  ◌==◌, leb, length, replicate, drop, arith, if◌then◌else◌, take-all, take-append, length-append,
}
use wifi_sniffer.Prelude.Bytes.{Bytes, memcpy}
use wifi_sniffer.Prelude.Text.{text_at}
use wifi_sniffer.Prelude.Results.{Err, done, fault, error_check, Exec, pure, bind_done, ◌>>=◌, ◌>>◌}
use wifi_sniffer.Nvs.Api.{NvsApi}
use wifi_sniffer.Wifi.Settings.{SsidCfg}
use wifi_sniffer.Wifi.Driver.{
  Interface, WifiConf, ap_conf, Call, Driver, WifiLib, called, ask, must,
}
use wifi_sniffer.Wifi.Connection.{
  ssid_text, mac_suffix, snprintf, wifi_generate_ssid, wifi_set_conf, wifi_soft_ap,
  create_default_wifi, set_conf_or, named_by, soft_ap_named, soft_ap_with,
}

length-ssid_text :
    (prefix : Bytes) (m₀ m₁ m₂ a b c : ℕ)
    → length (ssid_text prefix (m₀ ∷ m₁ ∷ m₂ ∷ a ∷ b ∷ c ∷ [])) ≡ length prefix + 9
length-ssid_text prefix m₀ m₁ m₂ a b c = length-append prefix (mac_suffix a b c)

-- A text that fits with its zero is copied as it stands.
snprintf_fits :
    (room : ℕ) (t : Bytes) → length t < room → snprintf room t ≡ t ++ replicate (room - length t) 0
snprintf_fits room t h =
    ap (λ u. u ++ replicate (room - length u) 0) (take-all (room - 1) t (omega arith))

memcpy_name :
    (t : Bytes)
    → length t < 32
    → memcpy (replicate 32 0) (snprintf 32 t) (length t)
      ≡ some (t ++ drop (length t) (replicate 32 0))
memcpy_name t h = rw (snprintf_fits 32 t h) (
    subst
      (λ u.
        (if leb (length t) 32 && leb (length t) (length (t ++ replicate (32 - length t) 0))
          then some (u ++ drop (length t) (replicate 32 0))
          else none)
        ≡ some (t ++ drop (length t) (replicate 32 0)))
      (sym (take-append t (replicate (32 - length t) 0)))
      (ground (arith, length-append t (replicate (32 - length t) 0))))

memcpy_too_long : (dst src : Bytes) (n : ℕ) → length dst < n → memcpy dst src n ≡ none
memcpy_too_long dst src n h = ground arith

-- The calls of `wifi_set_conf` that every answer of ESP_OK leads to, and those before them.
abbrev pub configured : Interface → WifiConf → List Call → List Call
configured i conf cs = Call.set_config i conf ∷ Call.set_mode i ∷ Call.set_country ∷ cs

-- The configuration of the access point with a name that fits.
abbrev pub ap_named : SsidCfg → ℕ → Bytes → Bytes → WifiConf
ap_named cfg channel name password =
    ap_conf (name ++ drop (length name) (replicate 32 0)) (length name % 256) password channel
      (cfg.pass_sz == 0)

module _ {N : NvsApi} (d : Driver) where
  pub must_lem :
      (c : Call) (s : WifiLib N)
      → d.answer s.calls c ≡ Err.esp_ok
      → must d c s ≡ done tt (called c s)
  must_lem c s h = ap (λ e. error_check e (called c s)) h

  generated :
      (ssid prefix : Bytes) (m₀ m₁ m₂ a b c : ℕ) (s : WifiLib N)
      → text_at ssid ≡ some prefix
      → d.mac s.calls ≡ m₀ ∷ m₁ ∷ m₂ ∷ a ∷ b ∷ c ∷ []
      → d.answer s.calls Call.get_mac ≡ Err.esp_ok
      → wifi_generate_ssid d ssid s
        ≡ done (snprintf 32 (prefix ++ mac_suffix a b c), length prefix + 9) (called Call.get_mac s)
  unfolding wifi_generate_ssid named_by
  generated ssid prefix m₀ m₁ m₂ a b c s text mac ok =
      bind_done (must d Call.get_mac) (λ _. named_by d (d.mac s.calls) ssid) s
        (called Call.get_mac s) tt (must_lem Call.get_mac s ok)
      ∙ rw (text, mac, ← (length-ssid_text prefix m₀ m₁ m₂ a b c)) refl

  -- A prefix of more than 23 characters makes the name longer than the arrays that it is copied from and to,
  -- where the driver tells its address of six octets: the access point is not set up.
  pub wifi_soft_ap_overflow :
      (cfg : SsidCfg) (channel : ℕ) (prefix : Bytes) (m₀ m₁ m₂ a b c : ℕ) (s : WifiLib N)
      → text_at cfg.ssid ≡ some prefix
      → d.mac s.calls ≡ m₀ ∷ m₁ ∷ m₂ ∷ a ∷ b ∷ c ∷ []
      → d.answer s.calls Call.get_mac ≡ Err.esp_ok
      → 23 < length prefix
      → wifi_soft_ap d cfg channel s ≡ fault
  unfolding wifi_soft_ap soft_ap_named
  wifi_soft_ap_overflow cfg channel prefix m₀ m₁ m₂ a b c s text mac ok long =
      bind_done (wifi_generate_ssid d cfg.ssid) (soft_ap_named d cfg channel) s
        (called Call.get_mac s) (snprintf 32 (prefix ++ mac_suffix a b c), length prefix + 9)
        (generated cfg.ssid prefix m₀ m₁ m₂ a b c s text mac ok)
      ∙ rw
          (memcpy_too_long (replicate 32 0) (snprintf 32 (prefix ++ mac_suffix a b c))
            (length prefix + 9) (omega arith))
          refl

  module _ (ok : (cs : List Call) (c : Call) → d.answer cs c ≡ Err.esp_ok) where
    set_conf_lem :
        (i : Interface) (conf : WifiConf) (s : WifiLib N)
        → wifi_set_conf d i conf s
          ≡ done Err.esp_ok (record s { calls = configured i conf s.calls })
    unfolding wifi_set_conf set_conf_or
    set_conf_lem i conf s =
        bind_done (must d Call.set_country) (λ _. must d (Call.set_mode i) >> config) s s₁ tt
          (must_lem Call.set_country s (ok s.calls Call.set_country))
        ∙ bind_done (must d (Call.set_mode i)) (λ _. config) s₁ s₂ tt
            (must_lem (Call.set_mode i) s₁ (ok s₁.calls (Call.set_mode i)))
        ∙ ap (λ e. (set_conf_or d i e >> pure e) (called (Call.set_config i conf) s₂))
            (ok s₂.calls (Call.set_config i conf))
      where
        config : Exec (WifiLib N) Err
        config = ask d (Call.set_config i conf) >>= λ e. set_conf_or d i e >> pure e

        s₁ : WifiLib N
        s₁ = called Call.set_country s

        s₂ : WifiLib N
        s₂ = called (Call.set_mode i) s₁

    soft_ap_with_lem :
        (cfg : SsidCfg) (channel sz : ℕ) (ssid password : Bytes) (s : WifiLib N)
        → soft_ap_with d cfg channel sz ssid password s
          ≡ done
              (record { interface = Interface.ap; number = s.next_netif })
              (record s {
                next_netif = suc s.next_netif;
                calls =
                    Call.create_default_wifi Interface.ap s.next_netif
                    ∷ configured Interface.ap
                        (ap_conf ssid (sz % 256) password channel (cfg.pass_sz == 0))
                        s.calls;
              })
    unfolding soft_ap_with create_default_wifi
    soft_ap_with_lem cfg channel sz ssid password s =
        bind_done
          (wifi_set_conf d Interface.ap
            (ap_conf ssid (sz % 256) password channel (cfg.pass_sz == 0)))
          (λ _. create_default_wifi d Interface.ap) s
          (record s {
            calls =
                configured Interface.ap
                  (ap_conf ssid (sz % 256) password channel (cfg.pass_sz == 0)) s.calls;
          })
          Err.esp_ok
          (set_conf_lem Interface.ap (ap_conf ssid (sz % 256) password channel (cfg.pass_sz == 0))
            s)

    -- Where the driver accepts every call, an access point whose prefix has at most 22 characters and whose
    -- password fits is set up with the prefix, the last three octets of the address in hexadecimal, the
    -- length of that name, the given channel, and no authentication exactly if the password is empty.
    pub wifi_soft_ap_lem :
        (cfg : SsidCfg) (channel : ℕ) (prefix password : Bytes) (m₀ m₁ m₂ a b c : ℕ) (s : WifiLib N)
        → text_at cfg.ssid ≡ some prefix
        → memcpy (replicate 64 0) cfg.password cfg.pass_sz ≡ some password
        → d.mac s.calls ≡ m₀ ∷ m₁ ∷ m₂ ∷ a ∷ b ∷ c ∷ []
        → length prefix < 23
        → wifi_soft_ap d cfg channel s
          ≡ done
              (record { interface = Interface.ap; number = s.next_netif })
              (record s {
                next_netif = suc s.next_netif;
                calls =
                    Call.create_default_wifi Interface.ap s.next_netif
                    ∷ configured Interface.ap
                        (ap_named cfg channel (prefix ++ mac_suffix a b c) password)
                        (Call.get_mac ∷ s.calls);
              })
    unfolding wifi_soft_ap soft_ap_named
    wifi_soft_ap_lem cfg channel prefix password m₀ m₁ m₂ a b c s text pw mac short =
        bind_done (wifi_generate_ssid d cfg.ssid) (soft_ap_named d cfg channel) s
          (called Call.get_mac s) (snprintf 32 name, length prefix + 9)
          (generated cfg.ssid prefix m₀ m₁ m₂ a b c s text mac (ok s.calls Call.get_mac))
        ∙ rw (← (length-ssid_text prefix m₀ m₁ m₂ a b c), memcpy_name name fits, pw)
            (soft_ap_with_lem cfg channel (length name)
              (name ++ drop (length name) (replicate 32 0)) password (called Call.get_mac s))
      where
        name : Bytes
        name = prefix ++ mac_suffix a b c

        fits : length name < 32
        fits = ground (arith, length-ssid_text prefix m₀ m₁ m₂ a b c)
