-- ===== src/Main.antt =====
-- Esp32Sniffer/main/main.c: the device, its start, and what it does on the events of its parts.

pub mod Run
pub mod Safe
pub mod Laws
pub mod Events
use wifi_sniffer.Prelude.{ℕ, Bool, true, false, List, [], ◌∷◌, replicate, if◌then◌else◌}
use wifi_sniffer.Prelude.Bytes.{Bytes}
use wifi_sniffer.Prelude.Text.{text_at}
use wifi_sniffer.Prelude.Results.{
  Err, Outcome, done, aborted, fault, Exec, pure, checked, error_check, gets, modify, ◌>>=◌, ◌>>◌,
}
use wifi_sniffer.Nvs.Api.{NvsApi, Store}
use wifi_sniffer.Nvs.Flash.{nvs_init_flash}
use wifi_sniffer.Sniffer.Settings.{AddrFilter, addr_filter_to_string}
use wifi_sniffer.Sniffer.State.{
  SnifferEvent, queue_full, capture_started, capture_stopped, is_up, filter_changed, Kernel,
}
use wifi_sniffer.Sniffer.Control.{sniffer_start, sniffer_set_no_filter, sniffer_init_config}
use wifi_sniffer.Wifi.Settings.{Defaults, SsidCfg}
use wifi_sniffer.Wifi.Driver.{LibEvent, Driver, WifiLib}
use wifi_sniffer.Wifi.Connection.{wifi_get_mac}
use wifi_sniffer.Wifi.Modes.{config_wifi_init}
use wifi_sniffer.Wifi.Status.{Air, WifiLibCfg, wifi_lib_get_curr_config}
use wifi_sniffer.Led.{LedLib, led_init_default, led_blink_fast, led_blink_slow}
use wifi_sniffer.Console.{Console, ConsoleAnswers, console_init}
use wifi_sniffer.App.{App, on_sniffer}

-- The static variables of every part. The flash is one: what `wifi` and `app` hold of it is replaced
-- before they run. `server` and `button` tell that the task of the server runs and that the button has its
-- callback; `capture_cb` that capture_set_cb was called.
pub record Device (N : NvsApi) (L : LedLib) : Type 0 where
  pub flash : Store N
  pub wifi : WifiLib N
  pub app : App N
  pub light : L.Light
  pub console : Console
  pub server : Bool
  pub button : Bool
  pub capture_cb : Bool

-- What the parts of the device ask of: ESP-IDF's Wi-Fi, console and button driver, the board's
-- configuration, and lwIP's ipaddr_addr. `liligo` is CONFIG_LILIGO_S3. `junk_ssid` and `junk_cfg` are what
-- stands in memory where local variables are put.
pub record Board : Type 0 where
  pub driver : Driver
  pub air : Air
  pub defaults : Defaults
  pub ipaddr_addr : Bytes → ℕ
  pub console_answer : ConsoleAnswers
  pub button_answer : Err
  pub liligo : Bool
  pub led_pin : ℕ
  pub ms_to_ticks : ℕ → ℕ
  pub queue_size : ℕ
  pub junk_ssid : SsidCfg
  pub junk_cfg : WifiLibCfg

module _ {N : NvsApi} {L : LedLib} where
  abbrev pub on_store : {A : Type 0} → Exec (Store N) A → Exec (Device N L) A
  on_store {A} m s = elim (m s.flash) as (λ _. Outcome (Device N L) A) [
    | done a t ↦ done a (record s { flash = t })
    | aborted e t ↦ aborted e (record s { flash = t })
    | fault ↦ fault
  ]

  abbrev pub on_wifi : {A : Type 0} → Exec (WifiLib N) A → Exec (Device N L) A
  on_wifi {A} m s =
      elim (m (record (s.wifi) { store = s.flash })) as (λ _. Outcome (Device N L) A) [
        | done a t ↦ done a (record s { wifi = t; flash = t.store })
        | aborted e t ↦ aborted e (record s { wifi = t; flash = t.store })
        | fault ↦ fault
      ]

  -- The application with the flash as it is now.
  abbrev pub with_flash : Device N L → App N
  with_flash s = record (s.app) { sniffer = record (s.app.sniffer) { store = s.flash } }

  abbrev pub on_app : {A : Type 0} → Exec (App N) A → Exec (Device N L) A
  on_app {A} m s = elim (m (with_flash s)) as (λ _. Outcome (Device N L) A) [
    | done a t ↦ done a (record s { app = t; flash = t.sniffer.store })
    | aborted e t ↦ aborted e (record s { app = t; flash = t.sniffer.store })
    | fault ↦ fault
  ]

  abbrev pub on_light : {A : Type 0} → Exec L.Light A → Exec (Device N L) A
  on_light {A} m s = elim (m s.light) as (λ _. Outcome (Device N L) A) [
    | done a t ↦ done a (record s { light = t })
    | aborted e t ↦ aborted e (record s { light = t })
    | fault ↦ fault
  ]

  abbrev pub on_console : {A : Type 0} → Exec Console A → Exec (Device N L) A
  on_console {A} m s = elim (m s.console) as (λ _. Outcome (Device N L) A) [
    | done a t ↦ done a (record s { console = t })
    | aborted e t ↦ aborted e (record s { console = t })
    | fault ↦ fault
  ]

module _ {N : NvsApi} (L : LedLib) (b : Board) where
  unfoldable pub queue_full_message : Exec (Device N L) (Unit {0})
  unfolding led_blink_fast
  queue_full_message = on_light (led_blink_fast L b.led_pin b.ms_to_ticks)

  unfoldable pub sniffer_is_up_message : Exec (Device N L) (Unit {0})
  unfolding led_blink_slow
  sniffer_is_up_message = on_light (led_blink_slow L b.led_pin b.ms_to_ticks)

  unfoldable pub sniffer_capture_started : Exec (Device N L) (Unit {0})
  unfolding led_blink_slow
  sniffer_capture_started = do
    on_light (led_blink_slow L b.led_pin b.ms_to_ticks)
    on_light (led_blink_slow L b.led_pin b.ms_to_ticks)

  -- The text that the log gets has a buffer of 20 characters.
  unfoldable pub sniffer_display_filter : Exec (Device N L) (Unit {0})
  sniffer_display_filter = do
    f ← gets (λ s. s.app.sniffer.addr2_filter)
    mac_filter ← checked (addr_filter_to_string f (replicate 20 0) 20)
    pure tt

  unfoldable pub sniffer_on_event_handler : SnifferEvent → Exec (Device N L) (Unit {0})
  unfolding queue_full_message sniffer_is_up_message sniffer_capture_started sniffer_display_filter
  sniffer_on_event_handler queue_full = queue_full_message
  sniffer_on_event_handler is_up = sniffer_is_up_message
  sniffer_on_event_handler capture_started = sniffer_capture_started
  sniffer_on_event_handler filter_changed = sniffer_display_filter
  sniffer_on_event_handler capture_stopped = pure tt

  -- The log reads the name up to its terminating zero.
  unfoldable pub sniffer_display : WifiLibCfg → Exec (Device N L) (Unit {0})
  unfolding sniffer_display_filter
  sniffer_display cfg = do ssid_name ← checked (text_at cfg.ssid_name); sniffer_display_filter

  -- The four events of the library are the four cases of the switch.
  unfoldable pub on_wifi_lib_event_handler : LibEvent → Exec (Device N L) (Unit {0})
  unfolding wifi_lib_get_curr_config sniffer_display
  on_wifi_lib_event_handler e = do
    cfg ← on_wifi (wifi_lib_get_curr_config b.driver b.air b.junk_cfg)
    sniffer_display cfg

  unfoldable pub init_button : Exec (Device N L) (Unit {0})
  init_button = do error_check b.button_answer; modify (λ s. record s { button = true })

  -- xTaskCreate, whose failure is not looked at.
  unfoldable pub tcp_server : Kernel → Exec (Device N L) (Unit {0})
  tcp_server k = modify (λ s. record s { server = k.alloc })

  -- The sniffer is started at once on the LilyGO board only.
  abbrev pub start_sniffer : (ℕ → Kernel) → Bytes → Exec (Device N L) (Unit {0})
  start_sniffer ks own_mac = do
    modify (λ s. record s { capture_cb = true })
    on_app (on_sniffer (sniffer_init_config ks b.queue_size (record { addr = own_mac; size = 6 })))
    on_app (on_sniffer (sniffer_set_no_filter (ks 8)))
    if b.liligo then on_app (on_sniffer (sniffer_start (ks 9))) else pure tt

  -- `setup`, without the display. Each call of the sniffer has its own kernel answers.
  unfoldable pub setup : (ℕ → Kernel) → Exec (Device N L) (Unit {0})
  unfolding nvs_init_flash init_button led_init_default console_init config_wifi_init tcp_server
      wifi_get_mac sniffer_init_config sniffer_set_no_filter sniffer_start
  setup ks = do
    on_store (nvs_init_flash N)
    if b.liligo then init_button else pure tt
    on_light (led_init_default L b.led_pin b.ms_to_ticks)
    on_console (console_init b.console_answer)
    on_wifi (config_wifi_init b.driver b.defaults b.ipaddr_addr b.junk_ssid)
    tcp_server (ks 10)
    own_mac ← on_wifi (wifi_get_mac b.driver (replicate 6 0))
    start_sniffer ks own_mac
