-- ===== src/Main/Laws.antt =====
-- What is true of the device whenever one of its parts has run.
use wifi_sniffer.Prelude.{ℕ, ◌≡◌, refl, subst, List, true, inl, length, ◌==◌, arith, replicate}
use wifi_sniffer.Prelude.Bytes.{Bytes}
use wifi_sniffer.Prelude.Text.{text_at}
use wifi_sniffer.Prelude.Results.{Exec, pure, ◌>>◌, ◌>>=◌}
use wifi_sniffer.Prelude.Keeps.{Keeps, Keeps-bind, Keeps-gets, Keeps-error_check, Keeps-modify}
use wifi_sniffer.Prelude.Triples.{
  Ends, Triple, Triple-bind, Triple-pure, Triple-if, Triple-Keeps, Triple-modify,
  Triple-error_check, Triple-checked,
}
use wifi_sniffer.Nvs.Api.{NvsApi}
use wifi_sniffer.Nvs.Flash.{nvs_init_flash}
use wifi_sniffer.Sniffer.Settings.{addr_filter_to_string}
use wifi_sniffer.Sniffer.State.{
  SnifferEvent, queue_full, capture_started, capture_stopped, is_up, filter_changed, Kernel,
  Sniffer,
}
use wifi_sniffer.Sniffer.Control.{sniffer_set_no_filter, sniffer_set_filter_packet_type}
use wifi_sniffer.Sniffer.Control.Laws.{IsSniffer, Keeps-set_rssi_filter}
use wifi_sniffer.Sniffer.Control.Channels.{Keeps-start}
use wifi_sniffer.Sniffer.Startup.{Keeps-init_config}
use wifi_sniffer.Sniffer.Steps.{boot-IsSniffer, run_call-IsSniffer}
use wifi_sniffer.Wifi.Connection.{wifi_get_mac}
use wifi_sniffer.Wifi.Driver.{Call, WifiLib, LibEvent}
use wifi_sniffer.Wifi.Connection.Single.{At, Single, At-Tolerates}
use wifi_sniffer.Wifi.Modes.Laws.{Triple-step}
use wifi_sniffer.Wifi.Modes.Start.{Triple-config_wifi_init, Triple-wifi_get_mac}
use wifi_sniffer.Wifi.Status.Laws.{Keeps-wifi_lib_get_curr_config}
use wifi_sniffer.Wifi.Console.Keeping.{Triple-exec_set_ap, Triple-exec_set_sta, Keeps-set_ip_ip_arg}
use wifi_sniffer.Led.{LedLib, led_init_default, led_blink_fast, led_blink_slow}
use wifi_sniffer.Console.{console_init, console_args_parse}
use wifi_sniffer.App.{on_sniffer}
use wifi_sniffer.App.Button.{button_single_click_cb, next_rssi}
use wifi_sniffer.App.Keeping.{
  Keeps-on_sniffer, Keeps-on_socket_accept_handler, Keeps-sniffer_round, Keeps-sniffer_task,
}
use wifi_sniffer.Main.{
  Device, Board, on_wifi, on_app, on_light, setup, init_button, tcp_server, start_sniffer,
  queue_full_message, sniffer_is_up_message, sniffer_capture_started, sniffer_display_filter,
  sniffer_display, sniffer_on_event_handler, on_wifi_lib_event_handler,
}
use wifi_sniffer.Main.Run.{
  Event, set_ap, set_sta, set_ip, connection, sniffing, client, task_start, task_round, click,
  sniffer_event, wifi_event, run_event, IsEvent, power_on, Runs, started, happens,
}
use wifi_sniffer.Main.Safe.{
  Safe, Triple-on_store, Triple-on_light, Triple-on_console, Triple-on_wifi, on_wifi-Safe,
  Triple-on_app,
}

module _ {N : NvsApi} (k : Kernel) where
  Keeps-set_no_filter : Keeps (IsSniffer {N = N}) (sniffer_set_no_filter k)
  unfolding sniffer_set_no_filter sniffer_set_filter_packet_type
  Keeps-set_no_filter =
      Keeps-bind (Keeps-error_check k.wifi)
        (λ _. Keeps-bind (Keeps-error_check k.wifi) (λ _. Keeps-modify _ (λ s p. p)))

  Keeps-click : Keeps (IsSniffer {N = N}) (button_single_click_cb k)
  unfolding button_single_click_cb
  Keeps-click =
      Keeps-bind (Keeps-gets (λ s. s.rssi_filter)) (λ z. Keeps-set_rssi_filter k (next_rssi z))

module _ {N : NvsApi} (L : LedLib) (b : Board) where
  slow :
      Triple {S = Device N L} Safe (on_light (led_blink_slow L b.led_pin b.ms_to_ticks)) (λ _. Safe)
  slow = Triple-on_light (led_blink_slow L b.led_pin b.ms_to_ticks)

  sniffs :
      {m : Exec (Sniffer N) (Unit {0})}
      → Keeps IsSniffer m
      → Triple {S = Device N L} Safe (on_app (on_sniffer m)) (λ _. Safe)
  sniffs k = Triple-on_app (Keeps-on_sniffer k)

  Triple-display_filter : Triple {S = Device N L} Safe (sniffer_display_filter L b) (λ _. Safe)
  unfolding sniffer_display_filter
  Triple-display_filter =
      Triple-bind (Triple-Keeps (Keeps-gets (λ s. s.app.sniffer.addr2_filter))) (λ f.
        Triple-bind (Triple-checked (addr_filter_to_string f (replicate 20 0) 20))
          (λ _. Triple-pure tt (λ s p. p)))

  Triple-on_event :
      (e : SnifferEvent) → Triple {S = Device N L} Safe (sniffer_on_event_handler L b e) (λ _. Safe)
  unfolding sniffer_on_event_handler queue_full_message sniffer_is_up_message
      sniffer_capture_started
  Triple-on_event queue_full = Triple-on_light (led_blink_fast L b.led_pin b.ms_to_ticks)
  Triple-on_event is_up = slow
  Triple-on_event capture_started = Triple-bind slow (λ _. slow)
  Triple-on_event filter_changed = Triple-display_filter
  Triple-on_event capture_stopped = Triple-pure tt (λ s p. p)

  Triple-on_wifi_event :
      (e : LibEvent) → Triple {S = Device N L} Safe (on_wifi_lib_event_handler L b e) (λ _. Safe)
  unfolding on_wifi_lib_event_handler sniffer_display
  Triple-on_wifi_event e =
      Triple-bind
        (on_wifi-Safe (
          Triple-Keeps
            (Keeps-wifi_lib_get_curr_config b.driver b.air (At-Tolerates Single) b.junk_cfg)))
        (λ cfg. Triple-bind (Triple-checked (text_at cfg.ssid_name)) (λ _. Triple-display_filter))

  Triple-args_parse :
      (nerrors : ℕ) {m : Exec (WifiLib N) (Unit {0})}
      → Triple (At Single) m (λ _. At Single)
      → Triple {S = Device N L} Safe (on_wifi (console_args_parse nerrors m) >> pure tt) (λ _. Safe)
  unfolding console_args_parse
  Triple-args_parse nerrors k =
      Triple-bind
        (on_wifi-Safe (
          Triple-if (nerrors == 0) (Triple-bind k (λ _. Triple-pure 0 (λ s p. p)))
            (Triple-pure nerrors (λ s p. p))))
        (λ _. Triple-pure tt (λ s p. p))

  Triple-run_event :
      (e : Event) → IsEvent e → Triple {S = Device N L} Safe (run_event L b e) (λ _. Safe)
  unfolding run_event
  Triple-run_event (set_ap nerrors ssid password channel) v =
      Triple-args_parse nerrors
        (Triple-exec_set_ap b.driver b.defaults b.ipaddr_addr b.junk_ssid ssid password channel)
  Triple-run_event (set_sta nerrors ssid password) v =
      Triple-args_parse nerrors
        (Triple-exec_set_sta b.driver b.defaults b.ipaddr_addr b.junk_ssid ssid password)
  Triple-run_event (set_ip nerrors ip) v =
      Triple-args_parse nerrors
        (Triple-Keeps (Keeps-set_ip_ip_arg b.driver b.defaults b.ipaddr_addr ip))
  Triple-run_event (connection x) v = on_wifi-Safe (Triple-step b.driver b.defaults b.ipaddr_addr x)
  Triple-run_event (sniffing k c) v = sniffs (run_call-IsSniffer k c v)
  Triple-run_event (client k sock) v = Triple-on_app (Keeps-on_socket_accept_handler k sock)
  Triple-run_event (task_start k written header_written snap_len) v =
      Triple-on_app (Keeps-sniffer_task k written header_written snap_len 0)
  Triple-run_event (task_round k written header_written) v =
      Triple-on_app (Keeps-sniffer_round k written header_written)
  Triple-run_event (click k) v = sniffs (Keeps-click k)
  Triple-run_event (sniffer_event e) v = Triple-on_event e
  Triple-run_event (wifi_event e) v = Triple-on_wifi_event e

  module _ (octets : (cs : List Call) (n : ℕ) → length (b.driver.netif_mac cs n) ≡ 6) where
    starts :
        (ks : ℕ → Kernel) (mac : Bytes)
        → length mac ≡ 6
        → Triple {S = Device N L} Safe (start_sniffer L b ks mac) (λ _. Safe)
    starts ks mac six =
        Triple-bind (Triple-modify (λ s. record s { capture_cb = true }) (λ s p. p)) (λ _.
          Triple-bind
            (sniffs (
              Keeps-init_config ks b.queue_size (record { addr = mac; size = 6 })
                (record { octets = six; fits = omega arith })))
            (λ _.
              Triple-bind (sniffs (Keeps-set_no_filter (ks 8))) (λ _.
                Triple-if b.liligo (sniffs (Keeps-start (ks 9))) (Triple-pure tt (λ s p. p)))))

    Triple-setup : (ks : ℕ → Kernel) → Triple {S = Device N L} Safe (setup L b ks) (λ _. Safe)
    unfolding setup init_button tcp_server
    Triple-setup ks = Triple-bind (Triple-on_store (nvs_init_flash N)) (λ _.
        Triple-bind
          (Triple-if b.liligo
            (Triple-bind (Triple-error_check b.button_answer)
              (λ _. Triple-modify (λ s. record s { button = true }) (λ s p. p)))
            (Triple-pure tt (λ s p. p)))
          (λ _. Triple-bind (Triple-on_light (led_init_default L b.led_pin b.ms_to_ticks)) (λ _.
            Triple-bind (Triple-on_console (console_init b.console_answer)) (λ _.
              Triple-bind
                (on_wifi-Safe
                  (Triple-config_wifi_init b.driver b.defaults b.ipaddr_addr b.junk_ssid))
                (λ _.
                  Triple-bind (Triple-modify (λ s. record s { server = (ks 10).alloc }) (λ s p. p))
                    (λ _. own_mac))))))
      where
        own_mac :
            Triple {S = Device N L} Safe
              (on_wifi (wifi_get_mac b.driver (replicate 6 0)) >>= start_sniffer L b ks)
              (λ _. Safe)
        own_mac =
            Triple-bind
              (Triple-on_wifi (λ m. length m ≡ 6)
                (Triple-wifi_get_mac b.driver b.defaults b.ipaddr_addr octets (replicate 6 0) refl))
              (λ m. record { ends = λ s p. (starts ks m p.0).ends s p.1 })

    -- After the start, and after every event that a run went through, in any order, whatever the flash, the
    -- drivers and the kernel answer: the sniffer's filters, queue and channel index are within their bounds, its
    -- filter by strength is set, and there is one network interface at most, which is the one that the library
    -- holds and fits the driver's mode. The filters that the events set have at most six octets, and an
    -- interface's address has six.
    pub Runs-Safe : (s : Device N L) → Runs L b s → Safe s
    Runs-Safe s (started st light ks e) =
        subst (Ends (λ _. Safe)) e
          ((Triple-setup ks).ends (power_on L st light) (boot-IsSniffer st, inl (refl, refl)))
    Runs-Safe s (happens {s = s'} e r v q) =
        subst (Ends (λ _. Safe)) q ((Triple-run_event e v).ends s' (Runs-Safe s' r))
