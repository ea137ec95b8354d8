-- ===== src/Sniffer/Control.antt =====
-- Esp32Sniffer/components/wifi_sniffer/wifi_sniffer.c: everything but the packet handler.
pub mod Laws
pub mod Queue
pub mod Channels
use wifi_sniffer.Prelude.{
  ℕ, zero, suc, ◌+◌, ◌-◌, ◌%◌, String, Bool, true, false, Option, none, some, List, [], ◌∷◌, ◌++◌,
  length, ltb, ◌==◌, replicate, if◌then◌else◌, get_elem?,
}
use wifi_sniffer.Prelude.Int.{ℤ, pos, negsuc, eq_ℤ}
use wifi_sniffer.Prelude.Results.{
  Err, Outcome, done, aborted, fault, Exec, pure, gets, modify, undefined, checked, error_check,
  ◌>>=◌, ◌>>◌,
}
use wifi_sniffer.Nvs.Api.{NvsApi}
use wifi_sniffer.Capture.{PcapRec}
use wifi_sniffer.Sniffer.Settings.{
  AddrFilter, default_rssi, addr_filter_to_string, get_filter_mac, set_filter_mac, get_filter_rssi,
  set_filter_rssi,
}
use wifi_sniffer.Sniffer.State.{
  SnifferEvent, queue_full, is_up, filter_changed, PacketFilter, mask_all, mask_data, Kernel,
  Sniffer, on_store,
}

abbrev pub addr2_key : String
addr2_key = "filter.addr2"

abbrev pub addr3_key : String
addr3_key = "filter.addr3"

abbrev pub own_key : String
own_key = "filter.own"

-- The filter variable that a setter passes by address.
pub data FilterVar : Type 0 where
  own_mac addr2 addr3 : FilterVar

-- The elements of `list` without `x`.
abbrev without : ℕ → List ℕ → List ℕ
without x [] = []
without x (y ∷ list) = let rest = without x list in if x == y then rest else y ∷ rest

module _ {N : NvsApi} where
  abbrev put_filter : FilterVar → AddrFilter → Sniffer N → Sniffer N
  put_filter own_mac f s = record s { addr_own_mac = f }
  put_filter addr2 f s = record s { addr2_filter = f }
  put_filter addr3 f s = record s { addr3_filter = f }

  post_result : SnifferEvent → Err → Exec (Sniffer N) (Unit {0})
  post_result ev Err.esp_ok s = done tt (record s { events = s.events ++ (ev ∷ []) })
  post_result ev Err.timeout s = done tt s
  post_result ev e s = aborted e s

module _ {N : NvsApi} (k : Kernel) where
  -- A timeout is only logged.
  unfoldable pub sniffer_post_event : SnifferEvent → Exec (Sniffer N) (Unit {0})
  unfolding post_result
  sniffer_post_event ev s = if s.event_loop then post_result ev k.post s else done tt s

  unfoldable pub sniffer_start_event_loop : Exec (Sniffer N) (Unit {0})
  sniffer_start_event_loop = do error_check k.wifi; modify (λ s. record s { event_loop = true })

  unfoldable pub sniffer_register_event_handler : Exec (Sniffer N) (Unit {0})
  sniffer_register_event_handler s =
      if s.event_loop
      then (error_check k.wifi >> modify (λ t. record t { handler_registered = true })) s
      else done tt s

  -- The text for the log is made too: it has a buffer of 20 characters.
  unfoldable pub sniffer_set_filter : String → AddrFilter → FilterVar → Exec (Sniffer N) Bool
  sniffer_set_filter key f var =
      if k.take
      then (do
        checked (addr_filter_to_string f (replicate 20 0) 20)
        modify (put_filter var f)
        on_store (set_filter_mac N key f)
        pure true)
      else pure false

  unfoldable pub sniffer_set_own_mac_filter : AddrFilter → Exec (Sniffer N) (Unit {0})
  unfolding sniffer_set_filter
  sniffer_set_own_mac_filter f = do sniffer_set_filter own_key f own_mac; pure tt

  unfoldable pub sniffer_set_addr2_filter : AddrFilter → Exec (Sniffer N) (Unit {0})
  unfolding sniffer_set_filter sniffer_post_event
  sniffer_set_addr2_filter f = do
    set ← sniffer_set_filter addr2_key f addr2
    if set then sniffer_post_event filter_changed else pure tt

  unfoldable pub sniffer_set_addr3_filter : AddrFilter → Exec (Sniffer N) (Unit {0})
  unfolding sniffer_set_filter sniffer_post_event
  sniffer_set_addr3_filter f = do
    set ← sniffer_set_filter addr3_key f addr3
    if set then sniffer_post_event filter_changed else pure tt

  unfoldable pub sniffer_set_rssi_filter : ℤ → Exec (Sniffer N) (Unit {0})
  unfolding sniffer_post_event
  sniffer_set_rssi_filter rssi = do
    let r = if eq_ℤ rssi (pos 0) then default_rssi else rssi
    modify (λ s. record s { rssi_filter = r })
    on_store (set_filter_rssi N r)
    sniffer_post_event filter_changed

  unfoldable pub sniffer_create_queue : ℕ → Exec (Sniffer N) Bool
  sniffer_create_queue size s =
      if k.alloc
      then done true (record s { packet_queue = some []; queue_size = size })
      else done false s

  -- xQueueSend with no time to wait fails exactly when the queue is full; a queue that was never
  -- created is a null pointer.
  unfoldable pub send_to : Option (List PcapRec) → PcapRec → Exec (Sniffer N) Bool
  unfolding sniffer_post_event
  send_to none r s = fault
  send_to (some q) r s =
      if ltb (length q) s.queue_size
      then done true (record s { packet_queue = some (q ++ (r ∷ [])) })
      else (sniffer_post_event queue_full >> pure false) s

  unfoldable pub sniffer_add_queue : PcapRec → Exec (Sniffer N) Bool
  unfolding send_to
  sniffer_add_queue r s = send_to s.packet_queue r s

  -- xQueueReceive in the loop of `sniffer_task`: the oldest record, if there is one.
  unfoldable receive_from : Option (List PcapRec) → Exec (Sniffer N) (Option PcapRec)
  receive_from none s = fault
  receive_from (some []) s = done none s
  receive_from (some (r ∷ q)) s = done (some r) (record s { packet_queue = some q })

  unfoldable pub sniffer_receive : Exec (Sniffer N) (Option PcapRec)
  unfolding receive_from
  sniffer_receive s = receive_from s.packet_queue s

  unfoldable pub wifi_sniffer_set_channel : ℕ → Exec (Sniffer N) (Unit {0})
  wifi_sniffer_set_channel c = do error_check k.wifi; modify (λ s. record s { channel = c })

  unfoldable pub sniffer_set_filter_channel : ℕ → Exec (Sniffer N) (Unit {0})
  unfolding wifi_sniffer_set_channel
  sniffer_set_filter_channel c = do
    modify (λ s. record s { filter_channel = c })
    if ltb 0 c then wifi_sniffer_set_channel c else pure tt

  -- `channel_scan_range`: channels 1, 6 and 11 in turn.
  unfoldable pub get_next_channel : Exec (Sniffer N) ℕ
  get_next_channel = do
    i ← gets (λ s. s.ch_index)
    let next = if i == 3 - 1 then 0 else i + 1
    modify (λ s. record s { ch_index = next })
    checked (get_elem? (1 ∷ 6 ∷ 11 ∷ []) next)

  unfoldable pub switch_channels : Exec (Sniffer N) ℕ
  unfolding get_next_channel wifi_sniffer_set_channel
  switch_channels = do c ← get_next_channel; wifi_sniffer_set_channel c; pure c

  -- `wifi_sniffer_init` and `wifi_sniffer_deinit`
  unfoldable pub set_promiscuous : Bool → Exec (Sniffer N) (Unit {0})
  set_promiscuous on = do error_check k.wifi; modify (λ s. record s { promiscuous = on })

  unfoldable pub sniffer_set_filter_packet_type : PacketFilter → Exec (Sniffer N) (Unit {0})
  sniffer_set_filter_packet_type m = do
    error_check k.wifi
    modify (λ s. record s { packet_filter = m })

  unfoldable pub sniffer_set_filter_data : Exec (Sniffer N) (Unit {0})
  unfolding sniffer_set_filter_packet_type
  sniffer_set_filter_data = sniffer_set_filter_packet_type mask_data

  unfoldable pub sniffer_set_no_filter : Exec (Sniffer N) (Unit {0})
  unfolding sniffer_set_filter_packet_type
  sniffer_set_no_filter = do error_check k.wifi; sniffer_set_filter_packet_type mask_all

  -- A task that could not be made leaves the handle as it was.
  unfoldable pub sniffer_start : Exec (Sniffer N) (Unit {0})
  sniffer_start s =
      if k.alloc
      then done tt (record s {
        tasks = s.next_task ∷ s.tasks;
        next_task = suc s.next_task;
        sniff_handle = some s.next_task;
      })
      else done tt s

  -- vTaskDelete of a null handle deletes the calling task, which has no number here.
  unfoldable pub sniffer_stop : Exec (Sniffer N) (Unit {0})
  unfolding set_promiscuous
  sniffer_stop = do
    set_promiscuous false
    modify (λ s. record s {
      tasks = elim s.sniff_handle [ none ↦ s.tasks | some h ↦ without h s.tasks ];
    })

-- Each call of another operation has its own kernel answers.
unfoldable pub sniffer_init_config :
    {N : NvsApi} → (ℕ → Kernel) → ℕ → AddrFilter → Exec (Sniffer N) (Unit {0})
unfolding sniffer_create_queue sniffer_set_own_mac_filter sniffer_start_event_loop
    sniffer_register_event_handler sniffer_post_event sniffer_set_rssi_filter
    sniffer_set_addr2_filter
sniffer_init_config {N} k queue_size own_mac_addr = do
  sniffer_create_queue (k 0) queue_size
  modify (λ s. record s { filter_channel = 1 })
  sniffer_set_own_mac_filter (k 1) own_mac_addr
  error_check (k 2).wifi
  modify (λ s. record s { rx_cb = true })
  sniffer_start_event_loop (k 3)
  sniffer_register_event_handler (k 4)
  sniffer_post_event (k 5) is_up
  rssi ← on_store (get_filter_rssi N)
  sniffer_set_rssi_filter (k 6) rssi
  f ← on_store (get_filter_mac N addr2_key)
  sniffer_set_addr2_filter (k 7) f
