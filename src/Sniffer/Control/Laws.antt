-- ===== src/Sniffer/Control/Laws.antt =====
-- What every operation of the sniffer keeps true of its state.
use wifi_sniffer.Prelude.{
  String, replicate, ℕ, ◌≤◌, ◌<◌, ◌≡◌, Bool, true, false, Option, none, some, List, length, arith,
  if◌then◌else◌,
}
use wifi_sniffer.Prelude.Int.{ℤ, pos, eq_ℤ}
use wifi_sniffer.Prelude.Results.{Err, Outcome, done, aborted, fault, Exec}
use wifi_sniffer.Prelude.Keeps.{
  Returns, Keeps, Keeps-bind, Keeps-pure, Keeps-modify, Keeps-checked, Keeps-if,
}
use wifi_sniffer.Nvs.Api.{NvsApi, Store}
use wifi_sniffer.Capture.{PcapRec}
use wifi_sniffer.Sniffer.Settings.{
  AddrFilter, addr_filter_to_string, set_filter_mac, set_filter_rssi, default_rssi,
}
use wifi_sniffer.Sniffer.Filter.Laws.{IsFilter}
use wifi_sniffer.Sniffer.State.{Kernel, Sniffer, on_store, SnifferEvent, filter_changed}
use wifi_sniffer.Sniffer.Control.{
  FilterVar, own_key, addr2_key, addr3_key, own_mac, addr2, addr3, put_filter, post_result,
  sniffer_post_event, sniffer_set_filter, sniffer_set_own_mac_filter, sniffer_set_addr2_filter,
  sniffer_set_addr3_filter, sniffer_set_rssi_filter,
}

-- A queue holds no more records than it was created for.
abbrev pub Fits : Option (List PcapRec) → ℕ → Type 0
Fits none n = Unit
Fits (some q) n = length q ≤ n

-- What is true of the sniffer's variables between two operations.
pub record IsKept (own_mac addr2 addr3 : AddrFilter) (rssi_filter : ℤ)
    (queue : Option (List PcapRec)) (size index : ℕ) : Type 0 where
  pub own_fits : IsFilter own_mac
  pub addr2_fits : IsFilter addr2
  pub addr3_fits : IsFilter addr3
  -- The filter by strength is never off: a packet has to be as strong as it says.
  pub rssi_set : eq_ℤ rssi_filter (pos 0) ≡ false
  pub queue_fits : Fits queue size
  pub index_fits : index < 3

abbrev pub IsSniffer : {N : NvsApi} → Sniffer N → Type 0
IsSniffer s =
    IsKept s.addr_own_mac s.addr2_filter s.addr3_filter s.rssi_filter s.packet_queue s.queue_size
      s.ch_index

module _ {N : NvsApi} where
  pub Keeps-on_store : {A : Type 0} (m : Exec (Store N) A) → Keeps (IsSniffer {N = N}) (on_store m)
  Keeps-on_store {A} m = record { keeps = λ s p. go s p (m s.store) }
    where
      go :
          (s : Sniffer N)
          → IsSniffer s
          → (o : Outcome (Store N) A)
          → Returns (IsSniffer {N = N}) (elim o as (λ _. Outcome (Sniffer N) A) [
            | done a t ↦ done a (record s { store = t })
            | aborted e t ↦ aborted e (record s { store = t })
            | fault ↦ fault
          ])
      go s p (done a t) = p
      go s p (aborted e t) = p
      go s p fault = tt

  put_filter-IsSniffer :
      (var : FilterVar) (f : AddrFilter) (s : Sniffer N)
      → IsFilter f
      → IsSniffer s
      → IsSniffer (put_filter var f s)
  put_filter-IsSniffer own_mac f s v p = record {
    own_fits = v;
    addr2_fits = p.addr2_fits;
    addr3_fits = p.addr3_fits;
    rssi_set = p.rssi_set;
    queue_fits = p.queue_fits;
    index_fits = p.index_fits;
  }
  put_filter-IsSniffer addr2 f s v p = record {
    own_fits = p.own_fits;
    addr2_fits = v;
    addr3_fits = p.addr3_fits;
    rssi_set = p.rssi_set;
    queue_fits = p.queue_fits;
    index_fits = p.index_fits;
  }
  put_filter-IsSniffer addr3 f s v p = record {
    own_fits = p.own_fits;
    addr2_fits = p.addr2_fits;
    addr3_fits = v;
    rssi_set = p.rssi_set;
    queue_fits = p.queue_fits;
    index_fits = p.index_fits;
  }

  Keeps-post_result : (ev : SnifferEvent) (e : Err) → Keeps (IsSniffer {N = N}) (post_result ev e)
  unfolding post_result
  Keeps-post_result ev e = record { keeps = λ s p. go e s p }
    where
      go :
          (e : Err) (s : Sniffer N) → IsSniffer s → Returns (IsSniffer {N = N}) (post_result ev e s)
      go Err.esp_ok s p = p
      go Err.nvs_not_found s p = p
      go Err.nvs_type_mismatch s p = p
      go Err.nvs_value_too_long s p = p
      go Err.nvs_no_free_pages s p = p
      go Err.nvs_new_version_found s p = p
      go Err.timeout s p = p
      go (Err.other _) s p = p

module _ {N : NvsApi} (k : Kernel) where
  pub Keeps-post_event : (ev : SnifferEvent) → Keeps (IsSniffer {N = N}) (sniffer_post_event k ev)
  unfolding sniffer_post_event
  Keeps-post_event ev = record { keeps = λ s p. (go s.event_loop).keeps s p }
    where
      go :
          (b : Bool)
          → Keeps (IsSniffer {N = N}) (λ s. if b then post_result ev k.post s else done tt s)
      go true = Keeps-post_result ev k.post
      go false = Keeps-pure tt

  pub Keeps-set_filter :
      (key : String) (f : AddrFilter) (var : FilterVar)
      → IsFilter f
      → Keeps (IsSniffer {N = N}) (sniffer_set_filter k key f var)
  unfolding sniffer_set_filter
  Keeps-set_filter key f var v =
      Keeps-if k.take
        (Keeps-bind (Keeps-checked (addr_filter_to_string f (replicate 20 0) 20)) (λ _.
          Keeps-bind (Keeps-modify (put_filter var f) (λ s. put_filter-IsSniffer var f s v))
            (λ _. Keeps-bind (Keeps-on_store (set_filter_mac N key f)) (λ _. Keeps-pure true))))
        (Keeps-pure false)

  pub Keeps-set_own_mac_filter :
      (f : AddrFilter) → IsFilter f → Keeps (IsSniffer {N = N}) (sniffer_set_own_mac_filter k f)
  unfolding sniffer_set_own_mac_filter
  Keeps-set_own_mac_filter f v =
      Keeps-bind (Keeps-set_filter own_key f own_mac v) (λ _. Keeps-pure tt)

  pub Keeps-set_addr2_filter :
      (f : AddrFilter) → IsFilter f → Keeps (IsSniffer {N = N}) (sniffer_set_addr2_filter k f)
  unfolding sniffer_set_addr2_filter
  Keeps-set_addr2_filter f v =
      Keeps-bind (Keeps-set_filter addr2_key f addr2 v)
        (λ set. Keeps-if set (Keeps-post_event filter_changed) (Keeps-pure tt))

  pub Keeps-set_addr3_filter :
      (f : AddrFilter) → IsFilter f → Keeps (IsSniffer {N = N}) (sniffer_set_addr3_filter k f)
  unfolding sniffer_set_addr3_filter
  Keeps-set_addr3_filter f v =
      Keeps-bind (Keeps-set_filter addr3_key f addr3 v)
        (λ set. Keeps-if set (Keeps-post_event filter_changed) (Keeps-pure tt))

  pub Keeps-set_rssi_filter :
      (rssi : ℤ) → Keeps (IsSniffer {N = N}) (sniffer_set_rssi_filter k rssi)
  unfolding sniffer_set_rssi_filter
  Keeps-set_rssi_filter rssi =
      let r = if eq_ℤ rssi (pos 0) then default_rssi else rssi in
      Keeps-bind
        (Keeps-modify (λ s. record s { rssi_filter = r })
          (λ s p. record {
            own_fits = p.own_fits;
            addr2_fits = p.addr2_fits;
            addr3_fits = p.addr3_fits;
            rssi_set = some_strength rssi;
            queue_fits = p.queue_fits;
            index_fits = p.index_fits;
          }))
        (λ _.
          Keeps-bind (Keeps-on_store (set_filter_rssi N r)) (λ _. Keeps-post_event filter_changed))
    where
      some_strength : (z : ℤ) → eq_ℤ (if eq_ℤ z (pos 0) then default_rssi else z) (pos 0) ≡ false
      some_strength z = ground arith
