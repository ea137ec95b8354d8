-- ===== src/Wifi/Events/Laws.antt =====
-- What the handlers of the events keep, and what a run of events posts.
use wifi_sniffer.Prelude.{ℕ, ◌≡◌, refl, List, [], ◌∷◌, ◌++◌}
use wifi_sniffer.Prelude.Results.{Err, Outcome, done, aborted, fault, Exec, ◌>>◌}
use wifi_sniffer.Prelude.Keeps.{
  Returns, Keeps, Keeps-bind, Keeps-pure, Keeps-gets, Keeps-modify, Keeps-error_check, Keeps-if,
}
use wifi_sniffer.Nvs.Api.{NvsApi, Store}
use wifi_sniffer.Wifi.Driver.{
  LibEvent, got_ip, joined_ssid, left_ssid, has_ssid, WifiEvent, sta_start, sta_stop, ap_start,
  ap_stop, ap_staconnected, ap_stadisconnected, sta_connected, sta_disconnected, sta_beacon_timeout,
  other_wifi, IpEvent, sta_got_ip, ap_staipassigned, sta_lost_ip, other_ip, Interface, Netif, Call,
  Driver, WifiLib, on_flash, called, ask, must,
}
use wifi_sniffer.Wifi.Events.{
  EventBit, set_bit, set_event_bit, posted_with, wifi_lib_post_event, ip_event_handler,
  wifi_event_handler, wifi_events,
}

-- What a call does to the interfaces and to the driver's mode.
pub data Effect : Type 0 where
  creates : Netif → Effect
  destroys : ℕ → Effect
  switches : Interface → Effect
  nothing : Effect

abbrev pub effect : Call → Effect
effect (Call.create_default_wifi i n) = creates (record { interface = i; number = n })
effect (Call.destroy_default_wifi n) = destroys n
effect (Call.set_mode i) = switches i
effect _ = nothing

-- A condition on the state that only the interfaces and the driver's mode can break.
pub record Tolerates {N : NvsApi} (P : WifiLib N → Type 0) : Type 0 where
  pub on_call : (c : Call) → effect c ≡ nothing → (s : WifiLib N) → P s → P (called c s)
  pub on_store : (t : Store N) (s : WifiLib N) → P s → P (record s { store = t })
  pub on_posted : (l : List LibEvent) (s : WifiLib N) → P s → P (record s { posted = l })
  pub on_bit : (b : EventBit) (s : WifiLib N) → P s → P (record s { bits = set_bit b s.bits })
  pub on_retry : (n : ℕ) (s : WifiLib N) → P s → P (record s { retry_num = n })

module _ {N : NvsApi} (d : Driver) {P : WifiLib N → Type 0} (T : Tolerates P) where
  pub Keeps-on_flash : {A : Type 0} (m : Exec (Store N) A) → Keeps P (on_flash m)
  Keeps-on_flash {A} m = record { keeps = λ s p. go s p (m s.store) }
    where
      go :
          (s : WifiLib N)
          → P s
          → (o : Outcome (Store N) A)
          → Returns P (elim o as (λ _. Outcome (WifiLib N) A) [
            | done a t ↦ done a (record s { store = t })
            | aborted e t ↦ aborted e (record s { store = t })
            | fault ↦ fault
          ])
      go s p (done a t) = T.on_store t s p
      go s p (aborted e t) = T.on_store t s p
      go s p fault = tt

  pub Keeps-ask : (c : Call) → effect c ≡ nothing → Keeps P (ask d c)
  Keeps-ask c h =
      Keeps-bind (Keeps-gets (λ s. d.answer s.calls c))
        (λ e. Keeps-bind (Keeps-modify (called c) (λ s p. T.on_call c h s p)) (λ _. Keeps-pure e))

  pub Keeps-must : (c : Call) → effect c ≡ nothing → Keeps P (must d c)
  Keeps-must c h = Keeps-bind (Keeps-ask c h) (λ e. Keeps-error_check e)

  Keeps-posted_with : (e : LibEvent) (err : Err) → Keeps P (posted_with d e err)
  unfolding posted_with
  Keeps-posted_with e Err.esp_ok =
      Keeps-modify (λ s. record s { posted = s.posted ++ (e ∷ []) })
        (λ s p. T.on_posted (s.posted ++ (e ∷ [])) s p)
  Keeps-posted_with e Err.timeout = Keeps-pure tt
  Keeps-posted_with e Err.nvs_not_found = Keeps-error_check Err.nvs_not_found
  Keeps-posted_with e Err.nvs_type_mismatch = Keeps-error_check Err.nvs_type_mismatch
  Keeps-posted_with e Err.nvs_value_too_long = Keeps-error_check Err.nvs_value_too_long
  Keeps-posted_with e Err.nvs_no_free_pages = Keeps-error_check Err.nvs_no_free_pages
  Keeps-posted_with e Err.nvs_new_version_found = Keeps-error_check Err.nvs_new_version_found
  Keeps-posted_with e (Err.other n) = Keeps-error_check (Err.other n)

  pub Keeps-wifi_lib_post_event : (e : LibEvent) → Keeps P (wifi_lib_post_event d e)
  unfolding wifi_lib_post_event
  Keeps-wifi_lib_post_event e = Keeps-bind (Keeps-gets (λ s. s.event_loop_handle)) (λ handle.
      Keeps-if handle
        (Keeps-bind (Keeps-ask (Call.post_to e) refl) (λ err. Keeps-posted_with e err))
        (Keeps-pure tt))

  Keeps-set_event_bit : (b : EventBit) → Keeps P (set_event_bit d b)
  Keeps-set_event_bit b =
      Keeps-modify (λ s. record s { bits = set_bit b s.bits }) (λ s p. T.on_bit b s p)

  Keeps-bit_and_post :
      (b : EventBit) (e : LibEvent) → Keeps P (set_event_bit d b >> wifi_lib_post_event d e)
  Keeps-bit_and_post b e = Keeps-bind (Keeps-set_event_bit b) (λ _. Keeps-wifi_lib_post_event e)

  pub Keeps-ip_event_handler : (e : IpEvent) → Keeps P (ip_event_handler d e)
  unfolding ip_event_handler
  Keeps-ip_event_handler sta_got_ip =
      Keeps-bind (Keeps-modify (λ s. record s { retry_num = 0 }) (λ s p. T.on_retry 0 s p)) (λ _.
        Keeps-bind (Keeps-wifi_lib_post_event got_ip) (λ _. Keeps-must Call.get_max_tx_power refl))
  Keeps-ip_event_handler ap_staipassigned = Keeps-must Call.get_max_tx_power refl
  Keeps-ip_event_handler sta_lost_ip = Keeps-pure tt
  Keeps-ip_event_handler (other_ip _) = Keeps-pure tt

  pub Keeps-wifi_event_handler : (e : WifiEvent) → Keeps P (wifi_event_handler d e)
  unfolding wifi_event_handler
  Keeps-wifi_event_handler sta_start = Keeps-set_event_bit EventBit.sta_start_bit
  Keeps-wifi_event_handler sta_stop = Keeps-set_event_bit EventBit.sta_stop_bit
  Keeps-wifi_event_handler ap_start = Keeps-bit_and_post EventBit.ap_start_bit has_ssid
  Keeps-wifi_event_handler ap_stop = Keeps-set_event_bit EventBit.ap_stop_bit
  Keeps-wifi_event_handler ap_staconnected = Keeps-pure tt
  Keeps-wifi_event_handler ap_stadisconnected = Keeps-wifi_lib_post_event left_ssid
  Keeps-wifi_event_handler sta_connected = Keeps-bit_and_post EventBit.sta_connected_bit joined_ssid
  Keeps-wifi_event_handler sta_disconnected =
      Keeps-bit_and_post EventBit.sta_disconnected_bit left_ssid
  Keeps-wifi_event_handler sta_beacon_timeout = Keeps-pure tt
  Keeps-wifi_event_handler (other_wifi _) = Keeps-pure tt

  pub Keeps-wifi_events : (es : List WifiEvent) → Keeps P (wifi_events d es)
  unfolding wifi_events
  Keeps-wifi_events [] = Keeps-pure tt
  Keeps-wifi_events (e ∷ es) = Keeps-bind (Keeps-wifi_event_handler e) (λ _. Keeps-wifi_events es)
