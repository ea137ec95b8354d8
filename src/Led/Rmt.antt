-- ===== src/Led/Rmt.antt =====
-- Esp32Sniffer/components/led_lib/led_rmt.c, as the list of its calls.
use wifi_sniffer.Prelude.{ℕ, Bool, true, false, List, ◌∷◌}
use wifi_sniffer.Prelude.Results.{Exec, error_check, gets, modify, ◌>>=◌, ◌>>◌}
use wifi_sniffer.Led.{
  LedLib, LightCall, Answers, new_rmt_device, set_pixel, refresh, clear, task_delay,
}

-- The calls, latest first.
pub record Strip : Type 0 where
  pub calls : List LightCall

module _ (answer : Answers) where
  abbrev pub must : LightCall → Exec Strip (Unit {0})
  must c = gets (λ s. answer s.calls c) >>= λ e.
      modify (λ s. record s { calls = c ∷ s.calls }) >> error_check e

  unfoldable pub led_init : ℕ → Exec Strip (Unit {0})
  led_init pin = do must (new_rmt_device pin); must clear

  unfoldable pub led_set : Bool → Exec Strip (Unit {0})
  led_set true = do must (set_pixel 0 16 16 16); must refresh
  led_set false = must clear

  abbrev pub rmt_lib : LedLib
  rmt_lib = record {
    Light = Strip;
    led_init = led_init;
    led_set = led_set;
    delay = λ n. modify (λ s. record s { calls = task_delay n ∷ s.calls });
  }
