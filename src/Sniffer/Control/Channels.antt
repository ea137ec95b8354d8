-- ===== src/Sniffer/Control/Channels.antt =====
-- The channels, and the start and end of sniffing, keep the sniffer's invariant; the order in which
-- the channels are scanned.
use wifi_sniffer.Prelude.{
  suc, ◌==◌, get_elem?, ℕ, ◌+◌, ◌<◌, ◌≡◌, refl, ◌⊎◌, inl, inr, Bool, true, false, some, [], ◌∷◌,
  arith, ltb, if◌then◌else◌,
}
use wifi_sniffer.Prelude.Results.{Err, done, Exec, pure, gets, ◌>>=◌, ◌>>◌}
use wifi_sniffer.Prelude.Keeps.{
  Returns, Keeps, Keeps-bind, Keeps-pure, Keeps-modify, Keeps-checked, Keeps-error_check, Keeps-if,
}
use wifi_sniffer.Nvs.Api.{NvsApi}
use wifi_sniffer.Sniffer.Settings.{}
use wifi_sniffer.Sniffer.State.{Kernel, Sniffer}
use wifi_sniffer.Sniffer.Control.{
  wifi_sniffer_set_channel, sniffer_set_filter_channel, get_next_channel, switch_channels,
  set_promiscuous, sniffer_start, sniffer_stop,
}
use wifi_sniffer.Sniffer.Control.Laws.{IsSniffer}

module _ {N : NvsApi} (k : Kernel) where
  pub Keeps-set_channel : (c : ℕ) → Keeps (IsSniffer {N = N}) (wifi_sniffer_set_channel k c)
  unfolding wifi_sniffer_set_channel
  Keeps-set_channel c =
      Keeps-bind (Keeps-error_check k.wifi)
        (λ _. Keeps-modify (λ s. record s { channel = c }) (λ s p. p))

  pub Keeps-set_filter_channel :
      (c : ℕ) → Keeps (IsSniffer {N = N}) (sniffer_set_filter_channel k c)
  unfolding sniffer_set_filter_channel
  Keeps-set_filter_channel c =
      Keeps-bind (Keeps-modify (λ s. record s { filter_channel = c }) (λ s p. p))
        (λ _. Keeps-if (ltb 0 c) (Keeps-set_channel c) (Keeps-pure tt))

  pub Keeps-get_next_channel : Keeps (IsSniffer {N = N}) (get_next_channel k)
  unfolding get_next_channel
  Keeps-get_next_channel = record {
    keeps = λ s p.
        (Keeps-checked (get_elem? (1 ∷ 6 ∷ 11 ∷ []) (next s))).keeps
          (record s { ch_index = next s })
          (record {
            own_fits = p.own_fits;
            addr2_fits = p.addr2_fits;
            addr3_fits = p.addr3_fits;
            rssi_set = p.rssi_set;
            queue_fits = p.queue_fits;
            index_fits = in_range s.ch_index p.index_fits;
          });
  }
    where
      next : Sniffer N → ℕ
      next s = if s.ch_index == 2 then 0 else s.ch_index + 1

      in_range : (i : ℕ) → i < 3 → (if i == 2 then 0 else i + 1) < 3
      in_range i h = ground arith

  pub Keeps-switch_channels : Keeps (IsSniffer {N = N}) (switch_channels k)
  unfolding switch_channels
  Keeps-switch_channels =
      Keeps-bind Keeps-get_next_channel (λ c. Keeps-bind (Keeps-set_channel c) (λ _. Keeps-pure c))

  pub Keeps-set_promiscuous : (on : Bool) → Keeps (IsSniffer {N = N}) (set_promiscuous k on)
  unfolding set_promiscuous
  Keeps-set_promiscuous on =
      Keeps-bind (Keeps-error_check k.wifi)
        (λ _. Keeps-modify (λ s. record s { promiscuous = on }) (λ s p. p))

  pub Keeps-start : Keeps (IsSniffer {N = N}) (sniffer_start k)
  unfolding sniffer_start
  Keeps-start = record { keeps = λ s p. go k.alloc s p }
    where
      go :
          (b : Bool) (s : Sniffer N)
          → IsSniffer s
          → Returns (IsSniffer {N = N}) (
              if b
              then done tt (record s {
                tasks = s.next_task ∷ s.tasks;
                next_task = suc s.next_task;
                sniff_handle = some s.next_task;
              })
              else done tt s)
      go true s p = p
      go false s p = p

  pub Keeps-stop : Keeps (IsSniffer {N = N}) (sniffer_stop k)
  unfolding sniffer_stop
  Keeps-stop = Keeps-bind (Keeps-set_promiscuous false) (λ _. Keeps-modify _ (λ s p. p))

  -- The channel that is tuned after a switch.
  abbrev switched : Exec (Sniffer N) ℕ
  switched = switch_channels k >> gets (λ s. s.channel)

  abbrev pub three_switches : Exec (Sniffer N) (ℕ × ℕ × ℕ)
  three_switches =
      switched >>= λ a. switched >>= λ b. switched >>= λ c. pure {A = ℕ × ℕ × ℕ} (a, b, c)

  -- Where the driver takes the channel, three switches in a row from any index of the list tune to the
  -- channels 1, 6 and 11, each once, in their order or a rotation of it. They end at the index that they
  -- started from, with the last channel tuned and nothing else changed.
  pub switch_channels_cycle :
      (s : Sniffer N)
      → k.wifi ≡ Err.esp_ok
      → s.ch_index < 3
      → (a b c : ℕ) × (three_switches s ≡ done (a, b, c) (record s { channel = c }))
        × ((a ∷ b ∷ c ∷ [] ≡ 1 ∷ 6 ∷ 11 ∷ [])
            ⊎ (a ∷ b ∷ c ∷ [] ≡ 6 ∷ 11 ∷ 1 ∷ [])
            ⊎ (a ∷ b ∷ c ∷ [] ≡ 11 ∷ 1 ∷ 6 ∷ []))
  unfolding switch_channels get_next_channel wifi_sniffer_set_channel
  switch_channels_cycle s tuned h = elim (cases s.ch_index h) [
    | inl zero_at ↦ (6, 11, 1, rw (tuned, zero_at) refl, inr (inl refl))
    | inr (inl one_at) ↦ (11, 1, 6, rw (tuned, one_at) refl, inr (inr refl))
    | inr (inr two_at) ↦ (1, 6, 11, rw (tuned, two_at) refl, inl refl)
  ]
    where
      cases : (i : ℕ) → i < 3 → (i ≡ 0) ⊎ (i ≡ 1) ⊎ (i ≡ 2)
      cases i h = ground arith
