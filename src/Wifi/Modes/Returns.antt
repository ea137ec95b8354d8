-- ===== src/Wifi/Modes/Returns.antt =====
-- The access point comes up: `wifi_ap` gets to its end.
use wifi_sniffer.Prelude.{
  ℕ, suc, ◌-◌, ◌<◌, ◌≡◌, refl, ap, sym, subst, ◌∙◌, ◌&&◌, ◌||◌, Bool, true, false, String, Option,
  none, some, List, [], ◌∷◌, length, replicate, if◌then◌else◌,
}
use wifi_sniffer.Prelude.Int.{ℤ, pos, eq_ℤ}
use wifi_sniffer.Prelude.Bytes.{Bytes, memcpy}
use wifi_sniffer.Prelude.Text.{text_at}
use wifi_sniffer.Prelude.Does.{Does, Does-bind}
use wifi_sniffer.Prelude.Results.{
  Err, is_not_found, Outcome, done, aborted, fault, Exec, pure, gets, bind_done, ◌>>=◌, ◌>>◌,
}
use wifi_sniffer.Nvs.Api.{NvsApi, NvsType, Store, Got, got, failed, OpenMode, nvs_open, nvs_close}
use wifi_sniffer.Nvs.Num.{nvs_get_num32i}
use wifi_sniffer.Wifi.Settings.{
  Defaults, IpInfo, DnsServers, SsidCfg, is_valid_ip_info, wifi_nvs_get_mode, wifi_nvs_set_mode,
  wifi_nvs_set_ap_channel, wifi_nvs_set_ap_ssid, wifi_nvs_set_ap_ssid_pw,
}
use wifi_sniffer.Wifi.Driver.{
  Interface, Call, Driver, Netif, WifiLib, on_flash, called, must, ip_text,
}
use wifi_sniffer.Wifi.Events.{ap_start_bit, wifi_events}
use wifi_sniffer.Wifi.Events.Posts.{any_ap_start, wifi_events_lem}
use wifi_sniffer.Wifi.Connection.{
  destroy, destroy_net_if, wifi_soft_ap, wait_bit, wifi_get_ip, get_ip_of, snprintf,
}
use wifi_sniffer.Wifi.Connection.Laws.{wifi_soft_ap_lem}
use wifi_sniffer.Wifi.Modes.{
  save_ap, ap_started, conf_static_ip, wifi_conf_static_ip, wifi_ap, set_static_ip,
}
use wifi_sniffer.Wifi.Modes.StaticIp.{accepting, on_flash_lem}

module _ {N : NvsApi} (d : Driver) (D : Defaults) (ipaddr_addr : Bytes → ℕ) where
  -- The interface, what is in flash, the number of the next interface, and an event loop.
  abbrev Has : Option Netif → Store N → ℕ → WifiLib N → Type 0
  Has o st n s = (s.net_if ≡ o) × (s.store ≡ st) × (s.next_netif ≡ n) × (s.event_loop_handle ≡ true)

  -- The four settings that `wifi_ap` saves.
  abbrev pub saved_settings : SsidCfg → ℕ → Exec (Store N) (Unit {0})
  saved_settings cfg channel = do
    mode ← wifi_nvs_set_mode N D (pos 2)
    wifi_nvs_set_ap_channel N D channel
    wifi_nvs_set_ap_ssid N D cfg.ssid cfg.ssid_sz
    wifi_nvs_set_ap_ssid_pw N D cfg.password cfg.pass_sz

  on_flash_bind :
      {A B : Type 0} (m : Exec (Store N) A) (k : A → Exec (Store N) B) (g : A → Exec (WifiLib N) B)
      (s : WifiLib N)
      → ((a : A) (t : WifiLib N) → g a t ≡ on_flash (k a) t)
      → (on_flash m >>= g) s ≡ on_flash (m >>= k) s
  on_flash_bind {A} {B} m k g s same =
      elim (m s.store)
        as (λ o.
          (elim (elim o as (λ _. Outcome (WifiLib N) A) [
            | done a t ↦ done a (record s { store = t })
            | aborted e t ↦ aborted e (record s { store = t })
            | fault ↦ fault
          ])
            as (λ _. Outcome (WifiLib N) B) [
              | done a t ↦ g a t
              | aborted e t ↦ aborted e t
              | fault ↦ fault
            ])
          ≡ (elim (elim o as (λ _. Outcome (Store N) B) [
            | done a t ↦ k a t
            | aborted e t ↦ aborted e t
            | fault ↦ fault
          ])
              as (λ _. Outcome (WifiLib N) B) [
                | done a t ↦ done a (record s { store = t })
                | aborted e t ↦ aborted e (record s { store = t })
                | fault ↦ fault
              ])) [ done a t ↦ same a (record s { store = t }) | aborted e t ↦ refl | fault ↦ refl ]

  save_ap_lem :
      (cfg : SsidCfg) (channel : ℕ) (s : WifiLib N)
      → save_ap d D ipaddr_addr cfg channel s ≡ on_flash (saved_settings cfg channel) s
  unfolding save_ap
  save_ap_lem cfg channel s = on_flash_bind (wifi_nvs_set_mode N D (pos 2)) _ _ s (λ _ t.
      on_flash_bind (wifi_nvs_set_ap_channel N D channel) _ _ t
        (λ _ u. on_flash_bind (wifi_nvs_set_ap_ssid N D cfg.ssid cfg.ssid_sz) _ _ u (λ _ v. refl)))

  -- A number can always be read: where the flash answers by an error, the default is taken.
  get_num32i_does :
      (ns key : String) (out def : ℤ) (st : Store N)
      → Does (nvs_get_num32i N ns key out def) st (λ _ _. Unit)
  unfolding nvs_get_num32i nvs_open nvs_close
  get_num32i_does ns key out def st =
      Does-bind (nvs_open N ns OpenMode.read_write) _ st
        (opened (N.open_namespace ns OpenMode.read_write st.flash) refl) read
    where
      opened :
          (g : Got (N.Handle × N.Flash))
          → N.open_namespace ns OpenMode.read_write st.flash ≡ g
          → Does (nvs_open N ns OpenMode.read_write) st (λ _ _. Unit)
      opened (failed e) h = (failed e, st, rw (nvs_open, h) refl, tt)
      opened (got (handle, f)) h = (
        got handle,
        record { flash = f; open_handles = suc st.open_handles },
        rw (nvs_open, h) refl,
        tt,
      )

      read :
          (g : Got N.Handle) (t : Store N)
          → Unit {0}
          → Does
              (elim g as (λ _. Exec (Store N) (Err × ℤ)) [
                | failed e ↦ pure (e, def)
                | got h ↦ gets (λ s. N.get_num h key NvsType.i32 s.flash) >>= λ v.
                    nvs_close N h
                    >> pure (elim v [
                      | got value ↦ (Err.esp_ok, value)
                      | failed e ↦ if is_not_found e then (Err.esp_ok, def) else (e, out)
                    ])
              ])
              t
              (λ _ _. Unit)
      read (failed e) t _ = ((e, def), t, refl, tt)
      read (got h) t _ = (
        elim (N.get_num h key NvsType.i32 t.flash) [
          | got value ↦ (Err.esp_ok, value)
          | failed e ↦ if is_not_found e then (Err.esp_ok, def) else (e, out)
        ],
        record t { open_handles = t.open_handles - 1 },
        refl,
        tt,
      )

  get_mode_does : (st : Store N) → Does (wifi_nvs_get_mode N D) st (λ _ _. Unit)
  unfolding wifi_nvs_get_mode
  get_mode_does st =
      Does-bind (nvs_get_num32i N "settings" "mode" (pos 2) (pos 2)) _ st
        (get_num32i_does "settings" "mode" (pos 2) (pos 2) st) (λ a t _. (a.1, t, refl, tt))

  destroy_does :
      (o : Option Netif) (st : Store N) (n : ℕ) (s : WifiLib N)
      → Has o st n s
      → Does (destroy_net_if (accepting d)) s (λ _. Has none st n)
  unfolding destroy_net_if destroy
  destroy_does o st n s p = go s.net_if refl
    where
      go :
          (o' : Option Netif)
          → s.net_if ≡ o'
          → Does (destroy (accepting d) o') s (λ _. Has none st n)
      go none e = (tt, s, refl, (e, p.1, p.2, p.3))
      go (some k) e = (
        tt,
        record s { net_if = none; calls = Call.destroy_default_wifi k.number ∷ s.calls },
        refl,
        (refl, p.1, p.2, p.3),
      )

  wait_does :
      (k : Netif) (s : WifiLib N)
      → s.net_if ≡ some k
      → s.event_loop_handle ≡ true
      → any_ap_start (d.arrive s.calls) ≡ true
      → Does
          (wait_bit (accepting d) ap_start_bit)
          s
          (λ b t. (b ≡ true) × (t.net_if ≡ some k) × (t.bits.ap_start ≡ true))
  unfolding wait_bit
  wait_does k s up live arrives = go s.bits.ap_start refl
    where
      go :
          (b : Bool)
          → s.bits.ap_start ≡ b
          → Does
              ((if b then pure tt else wifi_events (accepting d) (d.arrive s.calls))
                >> gets (λ t. t.bits.ap_start))
              s
              (λ b t. (b ≡ true) × (t.net_if ≡ some k) × (t.bits.ap_start ≡ true))
      go true e = (s.bits.ap_start, s, refl, (e, up, e))
      go false e =
          let (t, run, (live', posts, now, same)) =
            wifi_events_lem (accepting d) (λ _ _. refl) (d.arrive s.calls) s live in
          let set = now ∙ ap (λ b. b || any_ap_start (d.arrive s.calls)) e ∙ arrives in
          Does-bind (wifi_events (accepting d) (d.arrive s.calls))
            (λ _. gets (λ t. t.bits.ap_start)) s
            {R = λ _ u. (u.net_if ≡ some k) × (u.bits.ap_start ≡ true)}
            (tt, t, run, (same ∙ up, set)) (λ _ u q. (u.bits.ap_start, u, refl, (q.1, q.0, q.1)))

  static_does :
      (k : Netif) (ip : IpInfo) (dns : DnsServers) (s : WifiLib N)
      → s.net_if ≡ some k
      → is_valid_ip_info ip ≡ false
      → Does
          (wifi_conf_static_ip (accepting d) D ipaddr_addr ip dns)
          s
          (λ _ t. (t.net_if ≡ some k) × (t.bits ≡ s.bits))
  unfolding wifi_conf_static_ip conf_static_ip
  static_does k ip dns s up none_given =
      let (mode, st, e, _) = get_mode_does s.store in
      (
        tt,
        record s { store = st },
        ap (λ o. conf_static_ip (accepting d) D ipaddr_addr o ip dns s) up
            ∙ bind_done (on_flash (wifi_nvs_get_mode N D)) (after k) s (record s { store = st })
                mode (on_flash_lem d D ipaddr_addr (wifi_nvs_get_mode N D) s st mode e)
            ∙ ap
                (λ b.
                  (if b then set_static_ip (accepting d) D ipaddr_addr k.number ip dns else pure tt)
                    (record s { store = st }))
                (ap (λ b. eq_ℤ mode (pos 2) && b) none_given ∙ and_false (eq_ℤ mode (pos 2))),
        (up, refl),
      )
    where
      after : Netif → ℤ → Exec (WifiLib N) (Unit {0})
      after n mode =
          if eq_ℤ mode (pos 2) && is_valid_ip_info ip
          then set_static_ip (accepting d) D ipaddr_addr n.number ip dns
          else pure tt

      and_false : (b : Bool) → b && false ≡ false
      and_false true = refl
      and_false false = refl

  get_ip_does :
      (k : Netif) (s : WifiLib N)
      → s.net_if ≡ some k
      → Does
          (wifi_get_ip (accepting d) (replicate 50 0) 50)
          s
          (λ _ t. (t.net_if ≡ some k) × (t.bits ≡ s.bits))
  unfolding wifi_get_ip
  get_ip_does k s up =
      Does-bind (get_ip_of (accepting d) s.net_if)
        (λ ip. pure (elim ip [ none ↦ replicate 50 0 | some a ↦ snprintf 50 (ip_text a) ])) s
        {R = λ _ t. (t.net_if ≡ some k) × (t.bits ≡ s.bits)} (go s.net_if)
        (λ ip t q.
          (elim ip [ none ↦ replicate 50 0 | some a ↦ snprintf 50 (ip_text a) ], t, refl, q))
    where
      go :
          (o : Option Netif)
          → Does (get_ip_of (accepting d) o) s (λ _ t. (t.net_if ≡ some k) × (t.bits ≡ s.bits))
      go none = (none, s, refl, (up, refl))
      go (some n) = (
        some (d.ip_info s.calls n.number).ip,
        called (Call.get_ip_info n.number) s,
        refl,
        (up, refl),
      )

  started_does :
      (k : Netif) (ip : IpInfo) (dns : DnsServers) (s : WifiLib N)
      → s.net_if ≡ some k
      → is_valid_ip_info ip ≡ false
      → Does
          (ap_started (accepting d) D ipaddr_addr ip dns true)
          s
          (λ _ t. (t.net_if ≡ some k) × (t.bits ≡ s.bits))
  unfolding ap_started
  started_does k ip dns s up none_given =
      Does-bind (wifi_conf_static_ip (accepting d) D ipaddr_addr ip dns) _ s
        (static_does k ip dns s up none_given)
        (λ _ t q.
          Does-bind (wifi_get_ip (accepting d) (replicate 50 0) 50)
            (λ _. must (accepting d) Call.get_max_tx_power) t (get_ip_does k t q.0)
            (λ _ u r. (tt, called Call.get_max_tx_power u, refl, (r.0, r.1 ∙ q.1))))

  pub wifi_ap_returns :
      (cfg : SsidCfg) (channel : ℕ) (ip : IpInfo) (dns : DnsServers) (prefix password : Bytes)
      (m₀ m₁ m₂ a b c : ℕ) (s : WifiLib N) (st : Store N)
      → s.event_loop_handle ≡ true
      → ((cs : List Call) → d.mac cs ≡ m₀ ∷ m₁ ∷ m₂ ∷ a ∷ b ∷ c ∷ [])
      → ((cs : List Call) → any_ap_start (d.arrive cs) ≡ true)
      → text_at cfg.ssid ≡ some prefix
      → length prefix < 23
      → memcpy (replicate 64 0) cfg.password cfg.pass_sz ≡ some password
      → is_valid_ip_info ip ≡ false
      → saved_settings cfg channel s.store ≡ done tt st
      → (t : WifiLib N) × (wifi_ap (accepting d) D ipaddr_addr cfg channel ip dns s ≡ done tt t)
        × (t.net_if ≡ some (record { interface = Interface.ap; number = s.next_netif }))
        × (t.bits.ap_start ≡ true)
  unfolding wifi_ap
  wifi_ap_returns cfg channel ip dns prefix password m₀ m₁ m₂ a b c s st live mac arrives text short
        pw none_given saves =
      let (_, t, e, q) = whole in (t, e, q.0, q.1)
    where
      k : Netif
      k = record { interface = Interface.ap; number = s.next_netif }

      Started : WifiLib N → Type 0
      Started t = (t.net_if ≡ some k) × (t.bits.ap_start ≡ true)

      finish :
          (t : WifiLib N)
          → t.net_if ≡ some k
          → t.bits.ap_start ≡ true
          → Does (ap_started (accepting d) D ipaddr_addr ip dns true) t (λ _. Started)
      finish t up set =
          let (x, u, e, r) = started_does k ip dns t up none_given in
          (x, u, e, (r.0, ap (λ bits. bits.ap_start) r.1 ∙ set))

      from_saved :
          (u : WifiLib N)
          → u.net_if ≡ some k
          → u.event_loop_handle ≡ true
          → Does
              (wait_bit (accepting d) ap_start_bit
                >>= ap_started (accepting d) D ipaddr_addr ip dns)
              u
              (λ _. Started)
      from_saved u up going =
          Does-bind (wait_bit (accepting d) ap_start_bit)
            (ap_started (accepting d) D ipaddr_addr ip dns) u
            (wait_does k u up going (arrives u.calls))
            (λ w t q.
              subst (λ v. Does (ap_started (accepting d) D ipaddr_addr ip dns v) t (λ _. Started))
                (sym q.0) (finish t q.1 q.2))

      from_start :
          (n : Netif) (u : WifiLib N)
          → n ≡ k
          → u.store ≡ s.store
          → u.event_loop_handle ≡ true
          → Does
              (save_ap (accepting d) D ipaddr_addr cfg channel
                >> (wait_bit (accepting d) ap_start_bit
                    >>= ap_started (accepting d) D ipaddr_addr ip dns))
              (called Call.start (record u { net_if = some n }))
              (λ _. Started)
      from_start n u is_k same going =
          Does-bind (save_ap (accepting d) D ipaddr_addr cfg channel) _
            (called Call.start (record u { net_if = some n }))
            {R = λ _ v. (v.net_if ≡ some k) × (v.event_loop_handle ≡ true)}
            (
              tt,
              record (called Call.start (record u { net_if = some n })) { store = st },
              save_ap_lem cfg channel (called Call.start (record u { net_if = some n }))
                  ∙ on_flash_lem d D ipaddr_addr (saved_settings cfg channel)
                      (called Call.start (record u { net_if = some n })) st tt
                      (ap (saved_settings cfg channel) same ∙ saves),
              (ap some is_k, going),
            )
            (λ _ v q. from_saved v q.0 q.1)

      whole : Does (wifi_ap (accepting d) D ipaddr_addr cfg channel ip dns) s (λ _. Started)
      whole =
          Does-bind (destroy_net_if (accepting d)) _ (called Call.stop s)
            {R = λ _. Has none s.store s.next_netif}
            (destroy_does s.net_if s.store s.next_netif (called Call.stop s)
              (refl, refl, refl, live))
            (λ _ t p.
              Does-bind (wifi_soft_ap (accepting d) cfg channel) _ t
                {R = λ n u. (n ≡ k) × (u.store ≡ s.store) × (u.event_loop_handle ≡ true)}
                (
                  record { interface = Interface.ap; number = t.next_netif },
                  _,
                  wifi_soft_ap_lem (accepting d) (λ _ _. refl) cfg channel prefix password m₀ m₁ m₂
                      a b c t text pw (mac t.calls) short,
                  (ap (λ n. record { interface = Interface.ap; number = n }) p.2, p.1, p.3),
                )
                (λ n u q. from_start n u q.0 q.1 q.2))
