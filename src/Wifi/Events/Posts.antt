-- ===== src/Wifi/Events/Posts.antt =====
-- The events that the library announces, against those that the driver reports.
use wifi_sniffer.Prelude.{◌≡◌, refl, ◌∙◌, sym, ap, Bool, true, false, ◌||◌, List, [], ◌∷◌, ◌++◌}
use mathlib.Core.List.{append_assoc, append-nil}
use wifi_sniffer.Prelude.Results.{Err, done, bind_done}
use wifi_sniffer.Nvs.Api.{NvsApi}
use wifi_sniffer.Wifi.Driver.{
  LibEvent, joined_ssid, left_ssid, has_ssid, WifiEvent, sta_start, sta_stop, ap_start, ap_stop,
  ap_staconnected, ap_stadisconnected, sta_connected, sta_disconnected, sta_beacon_timeout,
  other_wifi, Call, Driver, WifiLib,
}
use wifi_sniffer.Wifi.Events.{
  EventBit, set_bit, wifi_lib_post_event, wifi_event_handler, wifi_events,
}

-- What the display is told of a driver's event.
abbrev pub announces : WifiEvent → List LibEvent
announces ap_start = has_ssid ∷ []
announces ap_stadisconnected = left_ssid ∷ []
announces sta_connected = joined_ssid ∷ []
announces sta_disconnected = left_ssid ∷ []
announces _ = []

abbrev pub announced : List WifiEvent → List LibEvent
announced [] = []
announced (e ∷ es) = announces e ++ announced es

abbrev pub is_ap_start : WifiEvent → Bool
is_ap_start ap_start = true
is_ap_start _ = false

abbrev pub any_ap_start : List WifiEvent → Bool
any_ap_start [] = false
any_ap_start (e ∷ es) = is_ap_start e || any_ap_start es

-- `t` follows `s` after the events `ls` were posted, and an access point started or not.
abbrev pub Follows : {N : NvsApi} → WifiLib N → List LibEvent → Bool → WifiLib N → Type 0
Follows s ls up t =
    (t.event_loop_handle ≡ true)
    × (t.posted ≡ s.posted ++ ls)
    × (t.bits.ap_start ≡ s.bits.ap_start || up)
    × (t.net_if ≡ s.net_if)

or_false : (b : Bool) → b ≡ b || false
or_false true = refl
or_false false = refl

or_true : (b : Bool) → true ≡ b || true
or_true true = refl
or_true false = refl

or_assoc : (a b c : Bool) → (a || b) || c ≡ a || (b || c)
or_assoc true b c = refl
or_assoc false b c = refl

module _ {N : NvsApi} (d : Driver)
    (took : (cs : List Call) (e : LibEvent) → d.answer cs (Call.post_to e) ≡ Err.esp_ok) where
  abbrev posted : LibEvent → WifiLib N → WifiLib N
  posted e s = record s { posted = s.posted ++ (e ∷ []); calls = Call.post_to e ∷ s.calls }

  post_lem :
      (e : LibEvent) (s : WifiLib N)
      → s.event_loop_handle ≡ true
      → wifi_lib_post_event d e s ≡ done tt (posted e s)
  unfolding wifi_lib_post_event
  post_lem e s h = rw (h, took s.calls e) refl

  quiet : (s : WifiLib N) → s.event_loop_handle ≡ true → Follows s [] false s
  quiet s h = (h, sym (append-nil s.posted), or_false s.bits.ap_start, refl)

  wifi_event_handler_lem :
      (e : WifiEvent) (s : WifiLib N)
      → s.event_loop_handle ≡ true
      → (t : WifiLib N) × (wifi_event_handler d e s ≡ done tt t)
        × Follows s (announces e) (is_ap_start e) t
  unfolding wifi_event_handler
  wifi_event_handler_lem sta_start s h =
      (record s { bits = set_bit EventBit.sta_start_bit s.bits }, refl, quiet s h)
  wifi_event_handler_lem sta_stop s h =
      (record s { bits = set_bit EventBit.sta_stop_bit s.bits }, refl, quiet s h)
  wifi_event_handler_lem ap_start s h =
      let u = record s { bits = set_bit EventBit.ap_start_bit s.bits } in
      (posted has_ssid u, post_lem has_ssid u h, (h, refl, or_true s.bits.ap_start, refl))
  wifi_event_handler_lem ap_stop s h =
      (record s { bits = set_bit EventBit.ap_stop_bit s.bits }, refl, quiet s h)
  wifi_event_handler_lem ap_staconnected s h = (s, refl, quiet s h)
  wifi_event_handler_lem ap_stadisconnected s h =
      (posted left_ssid s, post_lem left_ssid s h, (h, refl, or_false s.bits.ap_start, refl))
  wifi_event_handler_lem sta_connected s h =
      let u = record s { bits = set_bit EventBit.sta_connected_bit s.bits } in
      (posted joined_ssid u, post_lem joined_ssid u h, (h, refl, or_false s.bits.ap_start, refl))
  wifi_event_handler_lem sta_disconnected s h =
      let u = record s { bits = set_bit EventBit.sta_disconnected_bit s.bits } in
      (posted left_ssid u, post_lem left_ssid u h, (h, refl, or_false s.bits.ap_start, refl))
  wifi_event_handler_lem sta_beacon_timeout s h = (s, refl, quiet s h)
  wifi_event_handler_lem (other_wifi _) s h = (s, refl, quiet s h)

  -- While the event loop takes every event, any sequence of driver events is handled to its end: what is
  -- posted is what the sequence announces, in its order, the start bit is set if an access point was up or
  -- comes up, and the interface stays.
  pub wifi_events_lem :
      (es : List WifiEvent) (s : WifiLib N)
      → s.event_loop_handle ≡ true
      → (t : WifiLib N) × (wifi_events d es s ≡ done tt t)
        × Follows s (announced es) (any_ap_start es) t
  unfolding wifi_events
  wifi_events_lem [] s h = (s, refl, quiet s h)
  wifi_events_lem (e ∷ es) s h =
      let (u, run, (live, posts, up, same)) = wifi_event_handler_lem e s h in
      let (t, run', (live', posts', up', same')) = wifi_events_lem es u live in
      (
        t,
        bind_done (wifi_event_handler d e) (λ _. wifi_events d es) s u tt run ∙ run',
        (
          live',
          posts'
              ∙ ap (λ l. l ++ announced es) posts
              ∙ append_assoc s.posted (announces e) (announced es),
          up'
              ∙ ap (λ b. b || any_ap_start es) up
              ∙ or_assoc s.bits.ap_start (is_ap_start e) (any_ap_start es),
          same' ∙ same,
        ),
      )
