-- ===== src/Sniffer/Startup.antt =====
-- Esp32Sniffer/components/wifi_sniffer/wifi_sniffer.c: what `sniffer_init_config` leaves.
use wifi_sniffer.Prelude.{ℕ, Bool, true, false, some, [], arith, if◌then◌else◌}
use wifi_sniffer.Prelude.Results.{
  Outcome, done, aborted, fault, Exec, modify, error_check, ◌>>=◌, ◌>>◌,
}
use wifi_sniffer.Prelude.Keeps.{
  Returns, Keeps, Keeps-bind, Keeps-pure, Keeps-modify, Keeps-error_check, Gives, Answers,
  Keeps-bind_with,
}
use wifi_sniffer.Nvs.Api.{NvsApi, Store}
use wifi_sniffer.Sniffer.Settings.{AddrFilter, get_filter_mac, get_filter_rssi}
use wifi_sniffer.Sniffer.Settings.Laws.{Gives-get_filter_mac}
use wifi_sniffer.Sniffer.Filter.Laws.{IsFilter}
use wifi_sniffer.Sniffer.State.{Kernel, Sniffer, on_store, is_up}
use wifi_sniffer.Sniffer.Control.{
  addr2_key, sniffer_set_addr2_filter, sniffer_set_rssi_filter, sniffer_create_queue,
  sniffer_start_event_loop, sniffer_register_event_handler, sniffer_init_config,
}
use wifi_sniffer.Sniffer.Control.Laws.{
  IsSniffer, Keeps-on_store, Keeps-post_event, Keeps-set_own_mac_filter, Keeps-set_addr2_filter,
  Keeps-set_rssi_filter,
}

module _ {N : NvsApi} where
  Keeps-create_queue :
      (k : Kernel) (size : ℕ) → Keeps (IsSniffer {N = N}) (sniffer_create_queue k size)
  unfolding sniffer_create_queue
  Keeps-create_queue k size = record { keeps = λ s p. go k.alloc s p }
    where
      go :
          (b : Bool) (s : Sniffer N)
          → IsSniffer s
          → Returns (IsSniffer {N = N}) (
              if b
              then done true (record s { packet_queue = some []; queue_size = size })
              else done false s)
      go true s p = record {
        own_fits = p.own_fits;
        addr2_fits = p.addr2_fits;
        addr3_fits = p.addr3_fits;
        rssi_set = p.rssi_set;
        queue_fits = omega arith;
        index_fits = p.index_fits;
      }
      go false s p = p

  Keeps-start_event_loop : (k : Kernel) → Keeps (IsSniffer {N = N}) (sniffer_start_event_loop k)
  unfolding sniffer_start_event_loop
  Keeps-start_event_loop k =
      Keeps-bind (Keeps-error_check k.wifi)
        (λ _. Keeps-modify (λ s. record s { event_loop = true }) (λ s p. p))

  Keeps-register : (k : Kernel) → Keeps (IsSniffer {N = N}) (sniffer_register_event_handler k)
  unfolding sniffer_register_event_handler
  Keeps-register k = record { keeps = λ s p. (go s.event_loop).keeps s p }
    where
      go :
          (b : Bool)
          → Keeps (IsSniffer {N = N}) (λ s.
            if b
            then (error_check k.wifi >> modify (λ t. record t { handler_registered = true })) s
            else done tt s)
      go true =
          Keeps-bind (Keeps-error_check k.wifi)
            (λ _. Keeps-modify (λ t. record t { handler_registered = true }) (λ s p. p))
      go false = Keeps-pure tt

  Gives-on_store :
      {A : Type 0} {Q : A → Type 0} {m : Exec (Store N) A} → Gives Q m → Gives Q (on_store m)
  Gives-on_store {A} {Q} {m} g = record { gives = λ s. go s (m s.store) (g.gives s.store) }
    where
      go :
          (s : Sniffer N) (o : Outcome (Store N) A)
          → Answers Q o
          → Answers Q (elim o as (λ _. Outcome (Sniffer N) A) [
            | done a t ↦ done a (record s { store = t })
            | aborted e t ↦ aborted e (record s { store = t })
            | fault ↦ fault
          ])
      go s (done a t) q = q
      go s (aborted e t) q = tt
      go s fault q = tt

  pub Keeps-init_config :
      (k : ℕ → Kernel) (size : ℕ) (own : AddrFilter)
      → IsFilter own
      → Keeps (IsSniffer {N = N}) (sniffer_init_config k size own)
  unfolding sniffer_init_config
  Keeps-init_config k size own v = Keeps-bind (Keeps-create_queue (k 0) size) (λ _.
      Keeps-bind (Keeps-modify (λ s. record s { filter_channel = 1 }) (λ s p. p)) (λ _.
        Keeps-bind (Keeps-set_own_mac_filter (k 1) own v) (λ _.
          Keeps-bind (Keeps-error_check (k 2).wifi) (λ _.
            Keeps-bind (Keeps-modify (λ s. record s { rx_cb = true }) (λ s p. p)) (λ _.
              Keeps-bind (Keeps-start_event_loop (k 3)) (λ _.
                Keeps-bind (Keeps-register (k 4))
                  (λ _. Keeps-bind (Keeps-post_event (k 5) is_up) (λ _. restored))))))))
    where
      restored : Keeps (IsSniffer {N = N}) (do
        rssi ← on_store (get_filter_rssi N)
        sniffer_set_rssi_filter (k 6) rssi
        f ← on_store (get_filter_mac N addr2_key)
        sniffer_set_addr2_filter (k 7) f)
      restored = Keeps-bind (Keeps-on_store (get_filter_rssi N)) (λ rssi.
          Keeps-bind (Keeps-set_rssi_filter (k 6) rssi) (λ _.
            Keeps-bind_with (Keeps-on_store (get_filter_mac N addr2_key))
              (Gives-on_store (Gives-get_filter_mac N addr2_key))
              (λ f w. Keeps-set_addr2_filter (k 7) f w)))
