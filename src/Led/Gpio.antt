-- ===== src/Led/Gpio.antt =====
-- Esp32Sniffer/components/led_lib/led_gpio.c
use wifi_sniffer.Prelude.{ℕ, Bool, List, ◌∷◌, if◌then◌else◌}
use wifi_sniffer.Prelude.Results.{Exec, error_check, gets, modify, ◌>>=◌, ◌>>◌}
use wifi_sniffer.Led.{LedLib, LightCall, Answers, set_direction_output, set_level, task_delay}

-- `_led_pin`, and the calls, latest first.
pub record Pin : Type 0 where
  pub led_pin : ℕ
  pub calls : List LightCall

module _ (answer : Answers) where
  abbrev pub must : LightCall → Exec Pin (Unit {0})
  must c = gets (λ s. answer s.calls c) >>= λ e.
      modify (λ s. record s { calls = c ∷ s.calls }) >> error_check e

  unfoldable pub led_init : ℕ → Exec Pin (Unit {0})
  led_init pin = do modify (λ s. record s { led_pin = pin }); must (set_direction_output pin)

  unfoldable pub led_set : Bool → Exec Pin (Unit {0})
  led_set on = do pin ← gets (λ s. s.led_pin); must (set_level pin (if on then 1 else 0))

  abbrev pub gpio_lib : LedLib
  gpio_lib = record {
    Light = Pin;
    led_init = led_init;
    led_set = led_set;
    delay = λ n. modify (λ s. record s { calls = task_delay n ∷ s.calls });
  }
