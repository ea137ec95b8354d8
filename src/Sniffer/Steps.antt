-- ===== src/Sniffer/Steps.antt =====
-- Esp32Sniffer/components/wifi_sniffer/wifi_sniffer.c: the operations of the sniffer in any order, as
-- the console, the tasks and the driver call them, from the moment the device starts.
use wifi_sniffer.Prelude.{ℕ, ◌≡◌, refl, subst, Bool, false, none, [], arith}
use wifi_sniffer.Prelude.Int.{ℤ}
use wifi_sniffer.Prelude.Results.{done, Exec, pure, ◌>>◌}
use wifi_sniffer.Prelude.Keeps.{Returns, Keeps, Keeps-bind, Keeps-pure}
use wifi_sniffer.Nvs.Api.{NvsApi, Store}
use wifi_sniffer.Capture.{Pkt}
use wifi_sniffer.Sniffer.Settings.{AddrFilter, default_rssi, no_filter}
use wifi_sniffer.Sniffer.Filter.{PktType}
use wifi_sniffer.Sniffer.Filter.Laws.{IsFilter}
use wifi_sniffer.Sniffer.State.{Kernel, Sniffer, mask_unset}
use wifi_sniffer.Sniffer.Control.{
  sniffer_set_own_mac_filter, sniffer_set_addr2_filter, sniffer_set_addr3_filter,
  sniffer_set_rssi_filter, sniffer_set_filter_channel, switch_channels, set_promiscuous,
  sniffer_start, sniffer_stop, sniffer_init_config, sniffer_receive,
}
use wifi_sniffer.Sniffer.Control.Laws.{
  IsSniffer, Keeps-set_own_mac_filter, Keeps-set_addr2_filter, Keeps-set_addr3_filter,
  Keeps-set_rssi_filter,
}
use wifi_sniffer.Sniffer.Control.Queue.{Keeps-receive}
use wifi_sniffer.Sniffer.Control.Channels.{
  Keeps-set_filter_channel, Keeps-switch_channels, Keeps-set_promiscuous, Keeps-start, Keeps-stop,
}
use wifi_sniffer.Sniffer.Startup.{Keeps-init_config}
use wifi_sniffer.Sniffer.Handler.{wifi_sniffer_packet_handler}
use wifi_sniffer.Sniffer.Handler.Invariant.{Keeps-handler}

-- The static variables' initial values.
abbrev pub boot : {N : NvsApi} → Store N → Sniffer N
boot st = record {
  store = st;
  addr_own_mac = no_filter;
  addr2_filter = no_filter;
  addr3_filter = no_filter;
  rssi_filter = default_rssi;
  packet_queue = none;
  queue_size = 0;
  event_loop = false;
  handler_registered = false;
  events = [];
  filter_channel = 0;
  ch_index = 0;
  promiscuous = false;
  channel = 0;
  packet_filter = mask_unset;
  rx_cb = false;
  tasks = [];
  next_task = 0;
  sniff_handle = none;
}

pub data Call : Type 0 where
  init : (ℕ → Kernel) → ℕ → AddrFilter → Call
  set_own set_addr2 set_addr3 : AddrFilter → Call
  set_rssi : ℤ → Call
  set_channel : ℕ → Call
  switch start stop receive : Call
  promiscuous : Bool → Call
  packet : ℕ → ℕ → Pkt → PktType → Call

-- A call of one of the operations, with what the kernel answers.
unfoldable pub run_call : {N : NvsApi} → Kernel → Call → Exec (Sniffer N) (Unit {0})
unfolding sniffer_init_config sniffer_set_own_mac_filter sniffer_set_addr2_filter
    sniffer_set_addr3_filter sniffer_set_rssi_filter sniffer_set_filter_channel switch_channels
    sniffer_start sniffer_stop sniffer_receive set_promiscuous wifi_sniffer_packet_handler
run_call k (init ks size own) = sniffer_init_config ks size own
run_call k (set_own f) = sniffer_set_own_mac_filter k f
run_call k (set_addr2 f) = sniffer_set_addr2_filter k f
run_call k (set_addr3 f) = sniffer_set_addr3_filter k f
run_call k (set_rssi z) = sniffer_set_rssi_filter k z
run_call k (set_channel c) = sniffer_set_filter_channel k c
run_call k switch = switch_channels k >> pure tt
run_call k start = sniffer_start k
run_call k stop = sniffer_stop k
run_call k receive = sniffer_receive k >> pure tt
run_call k (promiscuous on) = set_promiscuous k on
run_call k (packet snap_len len_mod pkt type) =
    wifi_sniffer_packet_handler k snap_len len_mod pkt type

-- The filters that are set have at most six octets.
abbrev pub IsCall : Call → Type 0
IsCall (init ks size own) = IsFilter own
IsCall (set_own f) = IsFilter f
IsCall (set_addr2 f) = IsFilter f
IsCall (set_addr3 f) = IsFilter f
IsCall _ = Unit

-- The states that calls lead to, one after the other.
pub data Reachable {N : NvsApi} (st : Store N) : Sniffer N → Type 0 where
  booted : Reachable st (boot st)
  called :
      {s t : Sniffer N} (k : Kernel) (c : Call)
      → Reachable st s
      → IsCall c
      → run_call k c s ≡ done tt t
      → Reachable st t

pub run_call-IsSniffer :
    {N : NvsApi} (k : Kernel) (c : Call) → IsCall c → Keeps (IsSniffer {N = N}) (run_call k c)
unfolding run_call
run_call-IsSniffer k (init ks size own) v = Keeps-init_config ks size own v
run_call-IsSniffer k (set_own f) v = Keeps-set_own_mac_filter k f v
run_call-IsSniffer k (set_addr2 f) v = Keeps-set_addr2_filter k f v
run_call-IsSniffer k (set_addr3 f) v = Keeps-set_addr3_filter k f v
run_call-IsSniffer k (set_rssi z) v = Keeps-set_rssi_filter k z
run_call-IsSniffer k (set_channel c) v = Keeps-set_filter_channel k c
run_call-IsSniffer k switch v = Keeps-bind (Keeps-switch_channels k) (λ _. Keeps-pure tt)
run_call-IsSniffer k start v = Keeps-start k
run_call-IsSniffer k stop v = Keeps-stop k
run_call-IsSniffer k receive v = Keeps-bind (Keeps-receive k) (λ _. Keeps-pure tt)
run_call-IsSniffer k (promiscuous on) v = Keeps-set_promiscuous k on
run_call-IsSniffer k (packet snap_len len_mod pkt type) v =
    Keeps-handler k snap_len len_mod pkt type

pub boot-IsSniffer : {N : NvsApi} (st : Store N) → IsSniffer (boot st)
boot-IsSniffer st = record {
  own_fits = record { octets = refl; fits = omega arith };
  addr2_fits = record { octets = refl; fits = omega arith };
  addr3_fits = record { octets = refl; fits = omega arith };
  rssi_set = refl;
  queue_fits = tt;
  index_fits = omega arith;
}

-- In every state that calls of the sniffer's operations lead to from the start, in any order and
-- whatever the flash, the kernel and the driver answer, if the filters that are set have at most six
-- octets: the three address filters have six octets of which at most six count, the filter by
-- strength is not 0 and so is never off, the queue holds no more records than it was created for, and
-- the channel index is within the list.
pub Reachable-IsSniffer : {N : NvsApi} (st : Store N) (s : Sniffer N) → Reachable st s → IsSniffer s
Reachable-IsSniffer st s booted = boot-IsSniffer st
Reachable-IsSniffer st s (called {s = s'} k c r v e) =
    subst (Returns IsSniffer) e ((run_call-IsSniffer k c v).keeps s' (Reachable-IsSniffer st s' r))
