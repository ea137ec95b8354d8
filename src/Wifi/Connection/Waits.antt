-- ===== src/Wifi/Connection/Waits.antt =====
-- What a wait for a bit that is never cleared does.
use wifi_sniffer.Prelude.{◌≡◌, ◌∙◌, ap, true, arith, if◌then◌else◌}
use wifi_sniffer.Prelude.Results.{done, Exec, pure, gets, bind_inv, ◌>>◌}
use wifi_sniffer.Nvs.Api.{NvsApi}
use wifi_sniffer.Wifi.Driver.{Driver, WifiLib}
use wifi_sniffer.Wifi.Events.{EventBit, has_bit, wifi_events}
use wifi_sniffer.Wifi.Connection.{wait_bit}

module _ {N : NvsApi} (d : Driver) where
  wait_bit_set :
      (b : EventBit) (s : WifiLib N) → has_bit b s.bits ≡ true → wait_bit d b s ≡ done true s
  unfolding wait_bit
  wait_bit_set b s h = rw (h) (ap (λ x. done x s) h)

  read_bit :
      (b : EventBit) (m : Exec (WifiLib N) (Unit {0})) (s t : WifiLib N)
      → (m >> gets (λ u. has_bit b u.bits)) s ≡ done true t
      → has_bit b t.bits ≡ true
  read_bit b m s t h =
      let (_, u, _, e) = bind_inv m (λ _. gets (λ u. has_bit b u.bits)) s t true h in
      ground (arith, e)

  -- Once a wait for a bit has returned with the bit, the next wait for it returns at once: it handles no event
  -- and changes nothing, whatever was called between that leaves the bits.
  pub wait_bit_again :
      (b : EventBit) (s t u : WifiLib N)
      → wait_bit d b s ≡ done true t
      → u.bits ≡ t.bits
      → wait_bit d b u ≡ done true u
  unfolding wait_bit
  wait_bit_again b s t u h same = wait_bit_set b u (
      ap (has_bit b) same
      ∙ read_bit b (if has_bit b s.bits then pure tt else wifi_events d (d.arrive s.calls)) s t h)
