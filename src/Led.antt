-- ===== src/Led.antt =====
-- Esp32Sniffer/components/led_lib: the light, on a pin (led_gpio.c) or as a strip of one pixel (led_rmt.c),
-- and the blinks of led_common.c over either. The answers of the drivers are a parameter.
pub mod Gpio
pub mod Rmt
pub mod Laws
use wifi_sniffer.Prelude.{ℕ, Bool, true, false, List, ◌∷◌, if◌then◌else◌}
use wifi_sniffer.Prelude.Results.{Err, Exec, error_check, gets, modify, ◌>>=◌, ◌>>◌}

-- What led_lib.h declares, and the delay of FreeRTOS, in ticks.
pub record LedLib : Type 1 where
  pub Light : Type 0
  pub led_init : ℕ → Exec Light (Unit {0})
  pub led_set : Bool → Exec Light (Unit {0})
  pub delay : ℕ → Exec Light (Unit {0})

-- A call of the driver of the pins or of the strip, or of vTaskDelay. GPIO_MODE_OUTPUT is the only mode.
pub data LightCall : Type 0 where
  set_direction_output : ℕ → LightCall
  set_level : ℕ → ℕ → LightCall
  new_rmt_device : ℕ → LightCall
  set_pixel : ℕ → ℕ → ℕ → ℕ → LightCall
  refresh clear : LightCall
  task_delay : ℕ → LightCall

-- What a driver answers, given the calls before.
abbrev pub Answers : Type 0
Answers = List LightCall → LightCall → Err

-- The pin of the board's configuration, and pdMS_TO_TICKS.
module _ (L : LedLib) (led_pin : ℕ) (ms_to_ticks : ℕ → ℕ) where
  unfoldable pub led_init_default : Exec L.Light (Unit {0})
  led_init_default = L.led_init led_pin

  unfoldable pub led_blink : ℕ → Exec L.Light (Unit {0})
  led_blink delay = do L.led_set false; L.led_set true; L.delay (ms_to_ticks delay); L.led_set false

  unfoldable pub led_blink_fast : Exec L.Light (Unit {0})
  unfolding led_blink
  led_blink_fast = led_blink 10

  unfoldable pub led_blink_slow : Exec L.Light (Unit {0})
  unfolding led_blink
  led_blink_slow = led_blink 200
