-- ===== src/Arduino/Commands.antt =====
-- ArduinoWifiSniffer/src/main.cpp: the commands that arrive on the serial port, and the loop.
-- `parse_int` is Serial.parseInt: the number, and what it leaves.
use wifi_sniffer.Prelude.{
  ℕ, ◌-◌, true, false, [], ◌∷◌, ◌++◌, ◌==◌, leb, length, take, drop, replicate, if◌then◌else◌,
}
use wifi_sniffer.Prelude.Int.{ℤ, pos, negsuc}
use wifi_sniffer.Prelude.Bytes.{Bytes}
use wifi_sniffer.Prelude.Text.{strncmp_eq}
use wifi_sniffer.Prelude.Results.{Exec, pure, gets, modify, checked, ◌>>=◌, ◌>>◌}
use wifi_sniffer.Arduino.{
  HexFilter, Sketch, log_text, signal_start, change_channel, filter_channel, filter_addr,
}

-- Serial.readBytes: at most `n` of the characters that arrive.
unfoldable pub read_bytes : ℕ → Exec Sketch Bytes
read_bytes n = do
  got ← gets (λ s. take n s.input)
  modify (λ s. record s { input = drop n s.input })
  pure got

-- An array of 12 characters, of which the first ones are read.
abbrev mac_array : Bytes → Bytes
mac_array got = got ++ replicate (12 - length got) 0

unfoldable pub read_filter : Exec Sketch HexFilter
unfolding read_bytes filter_addr
read_filter = do got ← read_bytes 12; filter_addr (mac_array got) (length got)

-- A filter is set unless its size is negative; it is made a second time from the same characters.
abbrev set_unless_negative : (HexFilter → Sketch → Sketch) → HexFilter → Exec Sketch (Unit {0})
set_unless_negative set filter = elim filter.size as (λ _. Exec Sketch (Unit {0})) [
  | pos n ↦ modify (set filter)
  | negsuc n ↦ pure tt
]

module _ (parse_int : Bytes → ℤ × Bytes) where
  -- `if (isOpCode(op, code))`
  abbrev on_code : Bytes → Bytes → Exec Sketch (Unit {0}) → Exec Sketch (Unit {0})
  on_code op code m = checked (strncmp_eq op code 2) >>= λ equal. if equal then m else pure tt

  abbrev select_channel : Exec Sketch (Unit {0})
  select_channel = do
    n ← gets (λ s. parse_int s.input)
    modify (λ s. record s { input = n.1 })
    filter_channel n.0

  unfoldable pub run_op : Bytes → Exec Sketch (Unit {0})
  unfolding log_text signal_start filter_channel read_filter
  run_op op = do
    log_text op
    on_code op (b'S' ∷ b'0' ∷ 0 ∷ []) (modify (λ s. record s { start = false }))
    on_code op (b'S' ∷ b'1' ∷ 0 ∷ []) signal_start
    on_code op (b'O' ∷ b'T' ∷ 0 ∷ []) (modify (λ s. record s { is_text = true }) >> signal_start)
    on_code op (b'O' ∷ b'B' ∷ 0 ∷ []) (modify (λ s. record s { is_text = false }) >> signal_start)
    on_code op (b'F' ∷ b'C' ∷ 0 ∷ []) select_channel
    on_code op (b'F' ∷ b'1' ∷ 0 ∷ [])
        (read_filter >>= set_unless_negative (λ f s. record s { addr1_filter = f }))
    on_code op (b'F' ∷ b'2' ∷ 0 ∷ [])
        (read_filter >>= set_unless_negative (λ f s. record s { addr2_filter = f }))

  unfoldable pub read : Exec Sketch (Unit {0})
  unfolding read_bytes run_op
  read = do
    available ← gets (λ s. length s.input)
    if leb 2 available then (read_bytes 2 >>= run_op) else pure tt

  -- One round of `loop`.
  unfoldable pub loop_round : Exec Sketch (Unit {0})
  unfolding read change_channel
  loop_round = do
    read
    sel ← gets (λ s. s.sel_channel)
    if sel == 0 then (change_channel >>= λ _. pure tt) else pure tt
