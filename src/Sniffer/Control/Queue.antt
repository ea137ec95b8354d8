-- ===== src/Sniffer/Control/Queue.antt =====
-- The packet queue keeps the sniffer's invariant.
use wifi_sniffer.Prelude.{
  ◌≤◌, ◌≡◌, refl, ap, subst, Bool, true, false, Option, none, some, List, [], ◌∷◌, ◌++◌, length,
  arith, ltb, length-append, if◌then◌else◌,
}
use wifi_sniffer.Prelude.Results.{done, pure, ◌>>◌}
use wifi_sniffer.Prelude.Keeps.{Returns, Keeps, Keeps-bind, Keeps-pure}
use wifi_sniffer.Nvs.Api.{NvsApi}
use wifi_sniffer.Capture.{PcapRec}
use wifi_sniffer.Sniffer.Settings.{}
use wifi_sniffer.Sniffer.State.{Kernel, Sniffer, queue_full}
use wifi_sniffer.Sniffer.Control.{
  sniffer_post_event, send_to, receive_from, sniffer_receive, sniffer_add_queue,
}
use wifi_sniffer.Sniffer.Control.Laws.{Fits, IsSniffer, Keeps-post_event}

module _ {N : NvsApi} (k : Kernel) where
  Keeps-send_to :
      (q : Option (List PcapRec)) (r : PcapRec) (s : Sniffer N)
      → s.packet_queue ≡ q
      → IsSniffer s
      → Returns (IsSniffer {N = N}) (send_to k q r s)
  unfolding send_to
  Keeps-send_to none r s e p = tt
  Keeps-send_to (some q) r s e p = go (ltb (length q) s.queue_size) refl
    where
      go :
          (b : Bool)
          → ltb (length q) s.queue_size ≡ b
          → Returns (IsSniffer {N = N}) (
              if b
              then done true (record s { packet_queue = some (q ++ (r ∷ [])) })
              else (sniffer_post_event k queue_full >> pure false) s)
      go true room = record {
        own_fits = p.own_fits;
        addr2_fits = p.addr2_fits;
        addr3_fits = p.addr3_fits;
        rssi_set = p.rssi_set;
        queue_fits = rw (length-append q (r ∷ [])) (ground (arith, room));
        index_fits = p.index_fits;
      }
      go false full = (Keeps-bind (Keeps-post_event k queue_full) (λ _. Keeps-pure false)).keeps s p

  pub Keeps-add_queue : (r : PcapRec) → Keeps (IsSniffer {N = N}) (sniffer_add_queue k r)
  unfolding sniffer_add_queue
  Keeps-add_queue r = record { keeps = λ s p. Keeps-send_to s.packet_queue r s refl p }

  Keeps-receive_from :
      (q : Option (List PcapRec)) (s : Sniffer N)
      → s.packet_queue ≡ q
      → IsSniffer s
      → Returns (IsSniffer {N = N}) (receive_from k q s)
  unfolding receive_from
  Keeps-receive_from none s e p = tt
  Keeps-receive_from (some []) s e p = p
  Keeps-receive_from (some (r ∷ q)) s e p = record {
    own_fits = p.own_fits;
    addr2_fits = p.addr2_fits;
    addr3_fits = p.addr3_fits;
    rssi_set = p.rssi_set;
    queue_fits = omega (arith, rest_fits);
    index_fits = p.index_fits;
  }
    where
      rest_fits : length (r ∷ q) ≤ s.queue_size
      rest_fits = subst (λ o. Fits o s.queue_size) e p.queue_fits

  pub Keeps-receive : Keeps (IsSniffer {N = N}) (sniffer_receive k)
  unfolding sniffer_receive
  Keeps-receive = record { keeps = λ s p. Keeps-receive_from s.packet_queue s refl p }

  pub sniffer_receive_empty :
      (s : Sniffer N) → s.packet_queue ≡ some [] → sniffer_receive k s ≡ done none s
  unfolding sniffer_receive receive_from
  sniffer_receive_empty s e = ap (λ o. receive_from k o s) e

  pub sniffer_receive_oldest :
      (r : PcapRec) (q : List PcapRec) (s : Sniffer N)
      → s.packet_queue ≡ some (r ∷ q)
      → sniffer_receive k s ≡ done (some r) (record s { packet_queue = some q })
  unfolding sniffer_receive receive_from
  sniffer_receive_oldest r q s e = ap (λ o. receive_from k o s) e
