-- ===== src/Sniffer/State.antt =====
-- Esp32Sniffer/components/wifi_sniffer/wifi_sniffer.c: its static variables as one record, and the
-- answers of the kernel and of the Wi-Fi driver to its calls.
use wifi_sniffer.Prelude.{ℕ, Bool, Option, List}
use wifi_sniffer.Prelude.Int.{ℤ}
use wifi_sniffer.Prelude.Results.{Err, done, aborted, fault, Exec}
use wifi_sniffer.Nvs.Api.{NvsApi, Store}
use wifi_sniffer.Capture.{PcapRec}
use wifi_sniffer.Sniffer.Settings.{AddrFilter}

-- `sniffer_event_types_t`
pub data SnifferEvent : Type 0 where
  queue_full capture_started capture_stopped is_up filter_changed : SnifferEvent

-- `wifi_promiscuous_filter_t`: all packets, or data packets only.
pub data PacketFilter : Type 0 where
  mask_unset mask_all mask_data : PacketFilter

-- What the calls of one operation answer: xSemaphoreTake, xSemaphoreGive, esp_event_post_to, an
-- esp_wifi function, and whether xQueueCreate or xTaskCreate finds memory.
pub record Kernel : Type 0 where
  pub take : Bool
  pub give : Bool
  pub post : Err
  pub wifi : Err
  pub alloc : Bool

pub record Sniffer (N : NvsApi) : Type 0 where
  pub store : Store N
  pub addr_own_mac : AddrFilter
  pub addr2_filter : AddrFilter
  pub addr3_filter : AddrFilter
  pub rssi_filter : ℤ
  -- `_packet_queue`, oldest record first, and the length that it was created with.
  pub packet_queue : Option (List PcapRec)
  pub queue_size : ℕ
  -- `sniffer_event_loop_handle` is set; the events that were posted to it, oldest first.
  pub event_loop : Bool
  pub handler_registered : Bool
  pub events : List SnifferEvent
  pub filter_channel : ℕ
  pub ch_index : ℕ
  -- What the driver was told: promiscuous mode, the channel, the packet filter, the receive callback.
  pub promiscuous : Bool
  pub channel : ℕ
  pub packet_filter : PacketFilter
  pub rx_cb : Bool
  -- The sniffing tasks that exist, by a number that no other has had, and `xHandle_sniff`.
  pub tasks : List ℕ
  pub next_task : ℕ
  pub sniff_handle : Option ℕ

module _ {N : NvsApi} where
  -- An operation on the flash.
  abbrev pub on_store : {A : Type 0} → Exec (Store N) A → Exec (Sniffer N) A
  on_store m s = elim (m s.store) [
    | done a t ↦ done a (record s { store = t })
    | aborted e t ↦ aborted e (record s { store = t })
    | fault ↦ fault
  ]
