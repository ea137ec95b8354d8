-- ===== src/App/Task/Drain.antt =====
-- Enough rounds of the task empty the queue.
use wifi_sniffer.Prelude.{
  ℕ, zero, suc, ◌≤◌, ◌<◌, ◌≡◌, refl, ap, subst, sym, ◌∙◌, Option, some, List, [], ◌∷◌, ◌++◌, map,
  arith, length,
}
use mathlib.Core.List.{append_assoc, append-nil}
use wifi_sniffer.Prelude.Bytes.{Bytes}
use wifi_sniffer.Prelude.Results.{Err, done, bind_done}
use wifi_sniffer.Nvs.Api.{NvsApi}
use wifi_sniffer.Capture.{PcapRec, capture_get_size}
use wifi_sniffer.Sniffer.State.{Kernel}
use wifi_sniffer.App.{App}
use wifi_sniffer.App.Laws.{to_client}
use wifi_sniffer.App.Task.{sniffer_round, sniffer_rounds, act}
use wifi_sniffer.App.Task.Channel.{Channel, deliver, Implements}
use wifi_sniffer.App.Task.Refines.{round-Implements}

delivers : ℕ → Channel → Channel
delivers zero c = c
delivers (suc n) c = delivers n (deliver c)

emptied :
    (n : ℕ) (w l : List PcapRec)
    → length w ≤ n
    → delivers n (record { delivered = l; waiting = w })
      ≡ record { delivered = l ++ w; waiting = [] }
unfolding delivers
emptied zero [] l h = ap (λ d. record { delivered = d; waiting = [] }) (sym (append-nil l))
emptied zero (r ∷ w) l h = absurd (ground arith)
emptied (suc n) [] l h = emptied n [] l (omega arith)
emptied (suc n) (r ∷ w) l h =
    emptied n w (l ++ (r ∷ [])) (omega arith)
    ∙ ap (λ d. record { delivered = d; waiting = [] }) (append_assoc l (r ∷ []) w)

module _ {N : NvsApi} (k : Kernel) (posts : k.post ≡ Err.esp_ok) (written : PcapRec → Option ℕ)
    (header_written : Option ℕ)
    (whole : (r : PcapRec) → written r ≡ some (capture_get_size r.pcap_rec_hdr)) (sock size : ℕ)
    (before : List (ℕ × Bytes)) (is_sock : 0 < sock) where
  rounds-Implements :
      (n : ℕ) (c : Channel) (s : App N)
      → Implements sock size before c s
      → (t : App N) × (sniffer_rounds k written header_written n s ≡ done tt t)
        × Implements sock size before (delivers n c) t
  unfolding sniffer_rounds act delivers
  rounds-Implements zero c s p = (s, refl, p)
  rounds-Implements (suc n) c s p =
      let (u, e, q) =
        round-Implements k posts written header_written whole sock size before is_sock c s p in
      let (t, e', q') = rounds-Implements n (deliver c) u q in
      (
        t,
        bind_done (sniffer_round k written header_written)
              (λ _. sniffer_rounds k written header_written n) s u tt e
            ∙ e',
        q',
      )

  -- A queue is emptied by as many rounds of the task as it holds records, or more: every record is then with
  -- the client, once and in the order of the queue, after what was sent before. A client is connected, every
  -- `write` takes a whole record, the records have an original length above 0, and events can be posted.
  pub sniffer_rounds_drain :
      (n : ℕ) (w l : List PcapRec) (s : App N)
      → length w ≤ n
      → Implements sock size before (record { delivered = l; waiting = w }) s
      → (t : App N) × (sniffer_rounds k written header_written n s ≡ done tt t)
        × (t.sniffer.packet_queue ≡ some [])
        × (t.sent ≡ before ++ map (to_client sock) (l ++ w))
  sniffer_rounds_drain n w l s h p =
      let (t, e, q) = rounds-Implements n (record { delivered = l; waiting = w }) s p in
      let r = subst (λ c. Implements sock size before c t) (emptied n w l h) q in
      (t, e, r.queued, r.handed)
