-- ===== src/Wifi/Connection/Single.antt =====
-- The interfaces that live: what the start of an access point or of a station makes of them.
use wifi_sniffer.Prelude.{
  ℕ, ◌%◌, ◌≡◌, refl, ap, sym, subst, length, replicate, ◌⊎◌, inl, inr, Option, none, some, List, [],
  ◌∷◌, ◌==◌, if◌then◌else◌, arith,
}
use wifi_sniffer.Prelude.Results.{is_ok}
use wifi_sniffer.Prelude.Keeps.{Keeps-bind, Keeps-pure, Keeps-gets, Keeps-checked, Keeps-if}
use wifi_sniffer.Prelude.Triples.{
  Triple, Triple-bind, Triple-pure, Triple-gets, Triple-modify, Triple-checked, Triple-error_check,
  Triple-Keeps,
}
use wifi_sniffer.Prelude.Bytes.{Bytes, memcpy}
use wifi_sniffer.Prelude.Text.{text_at}
use wifi_sniffer.Nvs.Api.{NvsApi}
use wifi_sniffer.Wifi.Settings.{SsidCfg}
use wifi_sniffer.Wifi.Driver.{
  Interface, WifiConf, ap_conf, sta_conf, Call, Driver, Netif, WifiLib, called, must,
}
use wifi_sniffer.Wifi.Events.Laws.{
  Effect, creates, destroys, switches, nothing, effect, Tolerates, Keeps-ask, Keeps-must,
}
use wifi_sniffer.Wifi.Connection.{
  ssid_text, snprintf, set_net_if, destroy, destroy_net_if, wifi_generate_ssid, named_by,
  wifi_set_conf, set_conf_or, create_default_wifi, soft_ap_with, soft_ap_named, wifi_soft_ap,
  wifi_set_sta,
}

-- The interfaces that were created and not destroyed, and the mode that was set last.
abbrev pub without : ℕ → List Netif → List Netif
without n [] = []
without n (k ∷ l) = if k.number == n then without n l else k ∷ without n l

abbrev pub live_after : Effect → List Netif → List Netif
live_after (creates k) l = k ∷ l
live_after (destroys n) l = without n l
live_after (switches i) l = l
live_after nothing l = l

abbrev pub mode_after : Effect → Option Interface → Option Interface
mode_after (creates k) m = m
mode_after (destroys n) m = m
mode_after (switches i) m = some i
mode_after nothing m = m

abbrev pub live : List Call → List Netif
live [] = []
live (c ∷ cs) = live_after (effect c) (live cs)

abbrev pub driver_mode : List Call → Option Interface
driver_mode [] = none
driver_mode (c ∷ cs) = mode_after (effect c) (driver_mode cs)

-- A condition on the variable, on the interfaces that live, and on the mode.
abbrev pub View : Type 1
View = Option Netif → List Netif → Option Interface → Type 0

abbrev pub At : {N : NvsApi} → View → WifiLib N → Type 0
At F s = F s.net_if (live s.calls) (driver_mode s.calls)

abbrev pub Free : View
Free n l m = (n ≡ none) × (l ≡ [])

abbrev pub Ready : Interface → View
Ready i n l m = (n ≡ none) × (l ≡ []) × (m ≡ some i)

abbrev pub Made : Interface → Netif → View
Made i k n l m = (l ≡ k ∷ []) × (m ≡ some i) × (k.interface ≡ i)

abbrev pub Up : Interface → View
Up i n l m = (k : Netif) × (n ≡ some k) × (l ≡ k ∷ []) × (m ≡ some i) × (k.interface ≡ i)

-- No interface, or the one of the variable, which is of the driver's mode.
abbrev pub Single : View
Single n l m = Free n l m ⊎ ((i : Interface) × Up i n l m)

pub At-Tolerates : {N : NvsApi} (F : View) → Tolerates {N = N} (At F)
At-Tolerates F = record {
  on_call = λ c h s p.
      subst (λ e. F s.net_if (live_after e (live s.calls)) (mode_after e (driver_mode s.calls)))
        (sym h) p;
  on_store = λ t s p. p;
  on_posted = λ l s p. p;
  on_bit = λ b s p. p;
  on_retry = λ n s p. p;
}

module _ {N : NvsApi} (d : Driver) where
  pub Triple-must :
      (F : View) (c : Call)
      → effect c ≡ nothing
      → Triple {S = WifiLib N} (At F) (must d c) (λ _. At F)
  Triple-must F c h = Triple-Keeps (Keeps-must d (At-Tolerates F) c h)

  Triple-destroy :
      (o : Option Netif)
      → Triple {S = WifiLib N} (λ s. At Single s × (o ≡ s.net_if)) (destroy d o) (λ _. At Free)
  unfolding destroy
  Triple-destroy none = Triple-pure tt (λ s p. only s p.0 p.1)
    where
      only : (s : WifiLib N) → At Single s → none ≡ s.net_if → At Free s
      only s (inl p) e = p
      only s (inr (i, (k, e', _, _, _))) e = absurd (ground (arith, e, e'))
  Triple-destroy (some k) = record { ends = λ s p. gone s p.0 p.1 }
    where
      gone :
          (s : WifiLib N)
          → At Single s
          → some k ≡ s.net_if
          → At Free
              (record s { net_if = none; calls = Call.destroy_default_wifi k.number ∷ s.calls })
      gone s (inl p) e = absurd (ground (arith, e, p.0))
      gone s (inr (i, (j, e', l, _, _))) e = (refl, ground (arith, e, e', l))

  pub Triple-destroy_net_if : Triple {S = WifiLib N} (At Single) (destroy_net_if d) (λ _. At Free)
  unfolding destroy_net_if
  Triple-destroy_net_if = Triple-bind (Triple-gets (λ s. s.net_if)) Triple-destroy

  Triple-wifi_generate_ssid :
      (F : View) (ssid : Bytes)
      → Triple {S = WifiLib N} (At F) (wifi_generate_ssid d ssid) (λ _. At F)
  unfolding wifi_generate_ssid named_by
  Triple-wifi_generate_ssid F ssid = Triple-Keeps (
      Keeps-bind (Keeps-gets (λ s. d.mac s.calls)) (λ mac.
        Keeps-bind (Keeps-must d (At-Tolerates F) Call.get_mac refl) (λ _.
          Keeps-bind (Keeps-checked (text_at ssid)) (λ prefix.
            Keeps-pure (snprintf 32 (ssid_text prefix mac), length (ssid_text prefix mac))))))

  Triple-wifi_set_conf :
      (i : Interface) (conf : WifiConf)
      → Triple {S = WifiLib N} (At Free) (wifi_set_conf d i conf) (λ _. At (Ready i))
  unfolding wifi_set_conf set_conf_or
  Triple-wifi_set_conf i conf = Triple-bind (Triple-must Free Call.set_country refl) (λ _.
      Triple-bind switch (λ _. Triple-Keeps (
        Keeps-bind (Keeps-ask d (At-Tolerates (Ready i)) (Call.set_config i conf) refl) (λ e.
          Keeps-bind
            (Keeps-if (is_ok e) (Keeps-pure tt) (
              Keeps-bind (Keeps-ask d (At-Tolerates (Ready i)) (Call.set_default_config i) refl)
                (λ _. Keeps-pure tt)))
            (λ _. Keeps-pure e)))))
    where
      switch : Triple {S = WifiLib N} (At Free) (must d (Call.set_mode i)) (λ _. At (Ready i))
      switch = Triple-bind (Triple-gets (λ s. d.answer s.calls (Call.set_mode i))) (λ e.
          Triple-bind
            (Triple-bind (Triple-modify (called (Call.set_mode i)) (λ s p. (p.0.0, p.0.1, refl)))
              (λ _. Triple-pure e (λ s p. p)))
            (λ e. Triple-error_check e))

  Triple-create_default_wifi :
      (i : Interface)
      → Triple {S = WifiLib N} (At (Ready i)) (create_default_wifi d i) (λ k. At (Made i k))
  unfolding create_default_wifi
  Triple-create_default_wifi i = record {
    ends = λ s p. (ap (λ l. record { interface = i; number = s.next_netif } ∷ l) p.1, p.2, refl);
  }

  pub Triple-wifi_soft_ap :
      (cfg : SsidCfg) (channel : ℕ)
      → Triple {S = WifiLib N}
          (At Free)
          (wifi_soft_ap d cfg channel)
          (λ k. At (Made Interface.ap k))
  unfolding wifi_soft_ap soft_ap_named soft_ap_with
  Triple-wifi_soft_ap cfg channel = Triple-bind (Triple-wifi_generate_ssid Free cfg.ssid) (λ gen.
      Triple-bind (Triple-checked (memcpy (replicate 32 0) gen.0 gen.1)) (λ ssid.
        Triple-bind (Triple-checked (memcpy (replicate 64 0) cfg.password cfg.pass_sz)) (λ password.
          Triple-bind
            (Triple-wifi_set_conf Interface.ap
              (ap_conf ssid (gen.1 % 256) password channel (cfg.pass_sz == 0)))
            (λ _. Triple-create_default_wifi Interface.ap))))

  pub Triple-wifi_set_sta :
      (cfg : SsidCfg)
      → Triple {S = WifiLib N} (At Free) (wifi_set_sta d cfg) (λ k. At (Made Interface.sta k))
  unfolding wifi_set_sta
  Triple-wifi_set_sta cfg =
      Triple-bind (Triple-checked (memcpy (replicate 32 0) cfg.ssid cfg.ssid_sz)) (λ ssid.
        Triple-bind (Triple-checked (memcpy (replicate 64 0) cfg.password cfg.pass_sz)) (λ password.
          Triple-bind (Triple-wifi_set_conf Interface.sta (sta_conf ssid password))
            (λ _. Triple-create_default_wifi Interface.sta)))

  pub Triple-set_net_if :
      (i : Interface) (k : Netif)
      → Triple {S = WifiLib N} (At (Made i k)) (set_net_if d (some k)) (λ _. At (Up i))
  Triple-set_net_if i k =
      Triple-modify (λ s. record s { net_if = some k }) (λ s p. (k, refl, p.0, p.1, p.2))
