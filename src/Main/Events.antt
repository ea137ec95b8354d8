-- ===== src/Main/Events.antt =====
-- What the device shows of its events: the light, and the log of the connection.
use wifi_sniffer.Prelude.{
  ℕ, ◌+◌, ◌≡◌, refl, ap, ◌∙◌, false, inl, inr, some, List, [], ◌∷◌, replicate, ltb, Bool-cases,
  arith,
}
use wifi_sniffer.Prelude.Bytes.{Bytes}
use wifi_sniffer.Prelude.Results.{Err, Outcome, done, aborted, fault, Exec, pure, bind_done, ◌>>◌}
use wifi_sniffer.Nvs.Api.{NvsApi, got, failed}
use wifi_sniffer.Nvs.Format.{nvs_bytes_to_hex_in_bounds}
use wifi_sniffer.Sniffer.Settings.{AddrFilter, addr_filter_to_string}
use wifi_sniffer.Sniffer.Filter.Laws.{IsFilter}
use wifi_sniffer.Sniffer.State.{
  SnifferEvent, queue_full, capture_started, capture_stopped, is_up, filter_changed,
}
use wifi_sniffer.Sniffer.Control.Laws.{IsSniffer}
use wifi_sniffer.Wifi.Driver.{LibEvent, Driver, Netif, WifiLib}
use wifi_sniffer.Wifi.Modes.StaticIp.{accepting}
use wifi_sniffer.Wifi.Status.{mode_sta, WifiLibCfg, wifi_lib_get_curr_config}
use wifi_sniffer.Wifi.Status.Laws.{wifi_lib_get_curr_config_left}
use wifi_sniffer.Led.{LedLib, led_blink, led_blink_fast, led_blink_slow}
use wifi_sniffer.Led.Laws.{IsLight, led_blink_lem}
use wifi_sniffer.Main.{
  Device, Board, on_light, on_wifi, queue_full_message, sniffer_is_up_message,
  sniffer_capture_started, sniffer_display_filter, sniffer_display, sniffer_on_event_handler,
  on_wifi_lib_event_handler,
}

-- The text of a filter fits its buffer.
addr_filter_to_string_fits :
    (f : AddrFilter)
    → IsFilter f
    → (r : Bytes) × (addr_filter_to_string f (replicate 20 0) 20 ≡ some r)
unfolding addr_filter_to_string
addr_filter_to_string_fits f v = elim (Bool-cases (ltb 0 f.size)) [
  | inl some_count ↦
      let (r, e, l) =
        nvs_bytes_to_hex_in_bounds f.addr f.size (b':' ∷ []) (replicate 20 0) 20
          (omega (arith, v.octets, v.fits)) refl in
      (r, rw some_count e)
  | inr none_counts ↦ (replicate 20 0, rw none_counts refl)
]

module _ (b : Board) where
  -- The ticks for which the light is on by an event.
  abbrev pub ticks_of : SnifferEvent → ℕ
  ticks_of queue_full = b.ms_to_ticks 10
  ticks_of is_up = b.ms_to_ticks 200
  ticks_of capture_started = b.ms_to_ticks 200 + b.ms_to_ticks 200
  ticks_of filter_changed = 0
  ticks_of capture_stopped = 0

  abbrev pub ticks_of_all : List SnifferEvent → ℕ
  ticks_of_all [] = 0
  ticks_of_all (e ∷ es) = ticks_of e + ticks_of_all es

-- The light is off, and it was on for `n` ticks more.
abbrev pub Lit : {L : LedLib} → IsLight L → ℕ → L.Light → L.Light → Type 0
Lit V n l l' = (V.shines l' ≡ false) × (V.lit l' ≡ V.lit l + n)

module _ {N : NvsApi} (L : LedLib) (b : Board) where
  on_light_done :
      (m : Exec L.Light (Unit {0})) (s : Device N L) (l : L.Light)
      → m s.light ≡ done tt l
      → on_light m s ≡ done tt (record s { light = l })
  on_light_done m s l e =
      ap
        (λ (o : Outcome L.Light (Unit {0})). elim o as (λ _. Outcome (Device N L) (Unit {0})) [
          | done a t ↦ done a (record s { light = t })
          | aborted e t ↦ aborted e (record s { light = t })
          | fault ↦ fault
        ])
        e

  display_filter_done :
      (s : Device N L) → IsSniffer s.app.sniffer → sniffer_display_filter L b s ≡ done tt s
  unfolding sniffer_display_filter
  display_filter_done s v =
      let (r, e) = addr_filter_to_string_fits s.app.sniffer.addr2_filter v.addr2_fits in rw e refl

  -- The events in turn, as the event loop hands them over.
  abbrev pub on_events : List SnifferEvent → Exec (Device N L) (Unit {0})
  on_events [] = pure tt
  on_events (e ∷ es) = sniffer_on_event_handler L b e >> on_events es

  module _ (V : IsLight L) where
    on_event_lem :
        (e : SnifferEvent) (s : Device N L)
        → IsSniffer s.app.sniffer
        → V.shines s.light ≡ false
        → (l : L.Light) × (sniffer_on_event_handler L b e s ≡ done tt (record s { light = l }))
          × Lit V (ticks_of b e) s.light l
    unfolding sniffer_on_event_handler queue_full_message sniffer_is_up_message
        sniffer_capture_started led_blink_fast led_blink_slow
    on_event_lem queue_full s v off =
        let (l, e, dark, lit) = led_blink_lem L V b.led_pin b.ms_to_ticks 10 s.light in
        (l, on_light_done (led_blink L b.led_pin b.ms_to_ticks 10) s l e, (dark, lit))
    on_event_lem is_up s v off =
        let (l, e, dark, lit) = led_blink_lem L V b.led_pin b.ms_to_ticks 200 s.light in
        (l, on_light_done (led_blink L b.led_pin b.ms_to_ticks 200) s l e, (dark, lit))
    on_event_lem capture_started s v off =
        let (l, e, dark, lit) = led_blink_lem L V b.led_pin b.ms_to_ticks 200 s.light in
        let (l', e', dark', lit') = led_blink_lem L V b.led_pin b.ms_to_ticks 200 l in
        (
          l',
          bind_done (on_light slow) (λ _. on_light slow) s (record s { light = l }) tt
                (on_light_done slow s l e)
              ∙ on_light_done slow (record s { light = l }) l' e',
          (dark', omega (arith, lit, lit')),
        )
      where
        slow : Exec L.Light (Unit {0})
        slow = led_blink L b.led_pin b.ms_to_ticks 200
    on_event_lem filter_changed s v off = (s.light, display_filter_done s v, (off, omega arith))
    on_event_lem capture_stopped s v off = (s.light, refl, (off, omega arith))

    -- Whatever the events are, where the light works, is off, and the sniffer's invariant holds: the handler
    -- returns on each in turn, and nothing but the light changes. It is off again, and it was on for the
    -- ticks of 10 ms for each full queue, of 200 ms for the sniffer that is up and of twice 200 ms for
    -- each start of a capture.
    pub on_events_lem :
        (es : List SnifferEvent) (s : Device N L)
        → IsSniffer s.app.sniffer
        → V.shines s.light ≡ false
        → (l : L.Light) × (on_events es s ≡ done tt (record s { light = l }))
          × Lit V (ticks_of_all b es) s.light l
    on_events_lem [] s v off = (s.light, refl, (off, omega arith))
    on_events_lem (e ∷ es) s v off =
        let (l, q, (dark, lit)) = on_event_lem e s v off in
        let (l', q', (dark', lit')) = on_events_lem es (record s { light = l }) v dark in
        (
          l',
          bind_done (sniffer_on_event_handler L b e) (λ _. on_events es) s (record s { light = l })
                tt q
              ∙ q',
          (dark', omega (arith, lit, lit')),
        )

-- On every event of the library, while the device is a station that has left its access point and the driver
-- answers all else: the log's text is read past the end of the name, which has no terminating zero.
pub on_wifi_lib_event_handler_left :
    {N : NvsApi} (L : LedLib) (b : Board) (d : Driver) (event : LibEvent) (netif : Netif)
    (conf : Bytes) (e : Err) (c : ℕ) (s : Device N L)
    → s.wifi.net_if ≡ some netif
    → b.air.mode ≡ got mode_sta
    → b.air.sta_ssid ≡ got conf
    → b.air.joined ≡ failed e
    → b.air.channel ≡ got c
    → on_wifi_lib_event_handler L (record b { driver = accepting d }) event s ≡ fault
unfolding on_wifi_lib_event_handler sniffer_display
on_wifi_lib_event_handler_left {N} L b d event netif conf e c s up mode sta left channel =
    let (cfg, t, q, m, ch, ip, unended) =
      wifi_lib_get_curr_config_left {N = N} d b.air b.junk_cfg netif conf e c
        (record (s.wifi) { store = s.flash }) up mode sta left channel in
    bind_done (on_wifi {N = N} {L = L} (wifi_lib_get_curr_config (accepting d) b.air b.junk_cfg))
      (sniffer_display L (record b { driver = accepting d })) s
      (record s { wifi = t; flash = t.store }) cfg
      (ap
        (λ (o : Outcome (WifiLib N) WifiLibCfg). elim o as (λ _. Outcome (Device N L) WifiLibCfg) [
          | done a t ↦ done a (record s { wifi = t; flash = t.store })
          | aborted e t ↦ aborted e (record s { wifi = t; flash = t.store })
          | fault ↦ fault
        ])
        q)
    ∙ rw unended refl
