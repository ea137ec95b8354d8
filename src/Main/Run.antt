-- ===== src/Main/Run.antt =====
-- Esp32Sniffer/main/main.c: the device from the power on: its start, and then commands, packets, clients,
-- clicks and events in any order.
use wifi_sniffer.Prelude.{ℕ, ◌≡◌, false, Option, none, []}
use wifi_sniffer.Prelude.Int.{ℤ}
use wifi_sniffer.Prelude.Bytes.{Bytes}
use wifi_sniffer.Prelude.Results.{done, Exec, pure, ◌>>◌}
use wifi_sniffer.Nvs.Api.{NvsApi, Store}
use wifi_sniffer.Capture.{PcapRec}
use wifi_sniffer.Sniffer.State.{SnifferEvent, Kernel}
use wifi_sniffer.Sniffer.Steps.{boot, Call, run_call, IsCall}
use wifi_sniffer.Wifi.Driver.{LibEvent}
use wifi_sniffer.Wifi.Modes.{Step, step}
use wifi_sniffer.Wifi.Console.{
  console_wifi_exec_set_ap, console_wifi_exec_set_sta, console_wifi_set_ip_ip_arg,
}
use wifi_sniffer.Led.{LedLib}
use wifi_sniffer.Console.{console_args_parse}
use wifi_sniffer.App.{on_sniffer, on_socket_accept_handler}
use wifi_sniffer.App.Task.{sniffer_task, sniffer_round}
use wifi_sniffer.App.Button.{button_single_click_cb}
use wifi_sniffer.Main.{
  Device, Board, on_wifi, on_app, setup, sniffer_on_event_handler, on_wifi_lib_event_handler,
}

-- What happens after the start. A command comes with the number of errors of arg_parse and its arguments;
-- a record of the task with what `write` answers.
pub data Event : Type 0 where
  set_ap : ℕ → Option Bytes → Option Bytes → Option ℤ → Event
  set_sta : ℕ → Option Bytes → Option Bytes → Event
  set_ip : ℕ → Option Bytes → Event
  connection : Step → Event
  sniffing : Kernel → Call → Event
  client : Kernel → ℕ → Event
  task_start : Kernel → (PcapRec → Option ℕ) → Option ℕ → ℕ → Event
  task_round : Kernel → (PcapRec → Option ℕ) → Option ℕ → Event
  click : Kernel → Event
  sniffer_event : SnifferEvent → Event
  wifi_event : LibEvent → Event

module _ {N : NvsApi} (L : LedLib) (b : Board) where
  unfoldable pub run_event : Event → Exec (Device N L) (Unit {0})
  unfolding console_args_parse console_wifi_exec_set_ap console_wifi_exec_set_sta
      console_wifi_set_ip_ip_arg step run_call on_socket_accept_handler sniffer_task sniffer_round
      button_single_click_cb sniffer_on_event_handler on_wifi_lib_event_handler
  run_event (set_ap nerrors ssid password channel) =
      on_wifi (
        console_args_parse nerrors (
          console_wifi_exec_set_ap b.driver b.defaults b.ipaddr_addr b.junk_ssid ssid password
            channel))
      >> pure tt
  run_event (set_sta nerrors ssid password) =
      on_wifi (
        console_args_parse nerrors
          (console_wifi_exec_set_sta b.driver b.defaults b.ipaddr_addr b.junk_ssid ssid password))
      >> pure tt
  run_event (set_ip nerrors ip) =
      on_wifi (
        console_args_parse nerrors
          (console_wifi_set_ip_ip_arg b.driver b.defaults b.ipaddr_addr ip))
      >> pure tt
  run_event (connection x) = on_wifi (step b.driver b.defaults b.ipaddr_addr x)
  run_event (sniffing k c) = on_app (on_sniffer (run_call k c))
  run_event (client k sock) = on_app (on_socket_accept_handler k sock)
  run_event (task_start k written header_written snap_len) =
      on_app (sniffer_task k written header_written snap_len 0)
  run_event (task_round k written header_written) = on_app (sniffer_round k written header_written)
  run_event (click k) = on_app (on_sniffer (button_single_click_cb k))
  run_event (sniffer_event e) = sniffer_on_event_handler L b e
  run_event (wifi_event e) = on_wifi_lib_event_handler L b e

-- The filters that are set have at most six octets.
abbrev pub IsEvent : Event → Type 0
IsEvent (sniffing k c) = IsCall c
IsEvent _ = Unit

-- The static variables' initial values.
abbrev pub power_on : {N : NvsApi} (L : LedLib) → Store N → L.Light → Device N L
power_on L st light = record {
  flash = st;
  wifi = record {
    store = st;
    event_loop_handle = false;
    handler_registered = false;
    posted = [];
    bits = record {
      ap_start = false;
      sta_connected = false;
      sta_disconnected = false;
      sta_start = false;
      ap_stop = false;
      sta_stop = false;
    };
    net_if = none;
    retry_num = 0;
    next_netif = 0;
    calls = [];
  };
  app = record { sniffer = boot st; sock = 0; closed = []; sent = [] };
  light = light;
  console = record { commands = []; help = false; started = false };
  server = false;
  button = false;
  capture_cb = false;
}

module _ {N : NvsApi} (L : LedLib) (b : Board) where
  -- The states that the start, and then events one after the other, lead to.
  pub data Runs : Device N L → Type 0 where
    started :
        (st : Store N) (light : L.Light) (ks : ℕ → Kernel) {t : Device N L}
        → setup L b ks (power_on L st light) ≡ done tt t
        → Runs t
    happens :
        {s t : Device N L} (e : Event) → Runs s → IsEvent e → run_event L b e s ≡ done tt t → Runs t
