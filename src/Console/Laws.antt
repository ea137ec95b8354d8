-- ===== src/Console/Laws.antt =====
-- Which commands the console has after the start.
use wifi_sniffer.Prelude.{
  ◌≡◌, String, true, Option, none, some, List, [], ◌∷◌, map, arith, if◌then◌else◌,
}
use text.Mathlib.Text.{◌==◌}
use wifi_sniffer.Prelude.Results.{Err, done}
use wifi_sniffer.Console.{
  Func, sniffer_filter, exec_set_sta, exec_set_ip, exec_set_ap, get_version, ConsoleCmd, Console,
  ConsoleAnswers, console_init, new_repl, start_repl,
}

-- The names of the console's commands in the order of their registration, `help` aside.
abbrev pub names : List String
names = "filter" ∷ "set-sta" ∷ "set-ip" ∷ "set-ap" ∷ "version" ∷ []

-- The function that is registered first under a name.
abbrev pub func_of : String → List ConsoleCmd → Option Func
func_of name [] = none
func_of name (c ∷ cs) =
    let rest = func_of name cs in if c.command == name then some c.func else rest

-- Where `console_init` returns, from a console without commands: the commands are those five, each under
-- a name of its own, every call of the console but the one for `help` was answered by ESP_OK, and lines are read.
pub console_init_returns :
    (answer : ConsoleAnswers) (s t : Console)
    → s.commands ≡ []
    → console_init answer s ≡ done tt t
    → (map (λ c. c.command) t.commands ≡ names)
      × (map (λ c. c.func) t.commands
          ≡ sniffer_filter ∷ exec_set_sta ∷ exec_set_ip ∷ exec_set_ap ∷ get_version ∷ [])
      × (map (λ n. func_of n t.commands) names ≡ map (λ c. some c.func) t.commands)
      × (t.started ≡ true)
      × (answer new_repl ≡ Err.esp_ok)
      × (answer start_repl ≡ Err.esp_ok)
unfolding console_init
console_init_returns answer s t none_yet e = ground arith
