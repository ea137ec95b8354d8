-- ===== src/Console.antt =====
-- Esp32Sniffer/components/console_lib, and what console_sniffer_cmd.c and the three console_wifi_set_*_cmd.c
-- register: the commands of the console. The answers of ESP-IDF's console and the parser of the arguments
-- are parameters.
pub mod Laws
use wifi_sniffer.Prelude.{ℕ, String, Bool, true, List, [], ◌∷◌, ◌++◌, ◌==◌, if◌then◌else◌}
use wifi_sniffer.Prelude.Results.{Err, is_ok, Exec, pure, error_check, gets, modify, ◌>>=◌, ◌>>◌}

-- The functions that commands run.
pub data Func : Type 0 where
  sniffer_filter exec_set_sta exec_set_ip exec_set_ap get_version : Func

-- `esp_console_cmd_t`: the name and the function.
pub record ConsoleCmd : Type 0 where
  pub command : String
  pub func : Func

-- A call of ESP-IDF's console.
pub data ConsoleCall : Type 0 where
  cmd_register : ConsoleCmd → ConsoleCall
  register_help new_repl start_repl : ConsoleCall

-- The commands, oldest first; whether `help` is one; whether lines are read.
pub record Console : Type 0 where
  pub commands : List ConsoleCmd
  pub help : Bool
  pub started : Bool

abbrev pub ConsoleAnswers : Type 0
ConsoleAnswers = ConsoleCall → Err

-- CONSOLE_ARGS_PARSE before a command's body, which returns 0, by the number of errors of arg_parse.
unfoldable pub console_args_parse : {S : Type 0} → ℕ → Exec S (Unit {0}) → Exec S ℕ
console_args_parse nerrors body = if nerrors == 0 then (body >> pure 0) else pure nerrors

-- `info.model`
pub data ChipModel : Type 0 where
  esp32 esp32s2 esp32s3 esp32c3 esp32h2 esp32c2 other_chip : ChipModel

unfoldable pub model_name : ChipModel → String
model_name esp32 = "ESP32"
model_name esp32s2 = "ESP32-S2"
model_name esp32s3 = "ESP32-S3"
model_name esp32c3 = "ESP32-C3"
model_name esp32h2 = "ESP32-H2"
model_name esp32c2 = "ESP32-C2"
model_name other_chip = "Unknown"

module _ (answer : ConsoleAnswers) where
  unfoldable pub register : ConsoleCmd → Exec Console (Unit {0})
  register c = do
    error_check (answer (cmd_register c))
    modify (λ s. record s { commands = s.commands ++ (c ∷ []) })

  unfoldable pub console_sniffer_register_cmd : Exec Console (Unit {0})
  unfolding register
  console_sniffer_register_cmd = register (record { command = "filter"; func = sniffer_filter })

  unfoldable pub console_wifi_register_set_sta_cmd : Exec Console (Unit {0})
  unfolding register
  console_wifi_register_set_sta_cmd = register (record { command = "set-sta"; func = exec_set_sta })

  unfoldable pub console_wifi_register_set_ip_cmd : Exec Console (Unit {0})
  unfolding register
  console_wifi_register_set_ip_cmd = register (record { command = "set-ip"; func = exec_set_ip })

  unfoldable pub console_wifi_register_set_ap_cmd : Exec Console (Unit {0})
  unfolding register
  console_wifi_register_set_ap_cmd = register (record { command = "set-ap"; func = exec_set_ap })

  unfoldable pub console_wifi_register_cmd : Exec Console (Unit {0})
  unfolding console_wifi_register_set_sta_cmd console_wifi_register_set_ip_cmd
      console_wifi_register_set_ap_cmd
  console_wifi_register_cmd = do
    console_wifi_register_set_sta_cmd
    console_wifi_register_set_ip_cmd
    console_wifi_register_set_ap_cmd

  unfoldable pub console_register_version : Exec Console (Unit {0})
  unfolding register
  console_register_version = register (record { command = "version"; func = get_version })

  -- Nothing calls it.
  unfoldable pub console_register_nvs_values : Exec Console (Unit {0})
  unfolding register
  console_register_nvs_values = register (record { command = "nvs-value"; func = get_version })

  -- What the registration of `help` answers is not looked at.
  unfoldable pub console_register_common : Exec Console (Unit {0})
  unfolding console_register_version
  console_register_common = do
    modify (λ s. record s { help = is_ok (answer register_help) })
    console_register_version

  unfoldable pub console_begin : Exec Console (Unit {0})
  unfolding console_register_common
  console_begin = do
    console_register_common
    error_check (answer new_repl)
    error_check (answer start_repl)
    modify (λ s. record s { started = true })

  -- Esp32Sniffer/main/main.c
  unfoldable pub console_init : Exec Console (Unit {0})
  unfolding console_sniffer_register_cmd console_wifi_register_cmd console_begin
  console_init = do console_sniffer_register_cmd; console_wifi_register_cmd; console_begin
