-- ===== src/Arduino.antt =====
-- ArduinoWifiSniffer/src/main.cpp and lib/Sniffer/Sniffer.h: the sniffer that writes its stream to the
-- serial port. Its hex_to_byte_array is the one of Capture.Hex. The clock, Serial.parseInt and the
-- characters that arrive are parameters; what is only displayed is left out.
pub mod Commands
pub mod Stream
pub mod Laws
use wifi_sniffer.Prelude.{
  ℕ, zero, suc, ◌+◌, ◌-◌, ◌*◌, ◌/◌, ◌%◌, ◌^◌, Bool, true, false, not, ◌&&◌, Option, none, some,
  List, [], ◌∷◌, ◌++◌, ◌==◌, ltb, leb, length, take, drop, replicate, get_elem?, if◌then◌else◌,
}
use wifi_sniffer.Prelude.Int.{ℤ, pos, negsuc, eq_ℤ, uint8}
use wifi_sniffer.Prelude.Bytes.{Bytes, bytes_at, memcmp_eq, le16, le32}
use wifi_sniffer.Prelude.Text.{text_at, strncmp_eq}
use wifi_sniffer.Prelude.Results.{Exec, pure, gets, modify, checked, ◌>>=◌, ◌>>◌}
use wifi_sniffer.Capture.{Pkt}
use wifi_sniffer.Capture.Hex.{hex_to_byte_array, size_max}

-- `addrFilter`; its size is an `int`.
pub record HexFilter : Type 0 where
  pub addr : Bytes
  pub size : ℤ

-- The static variables; `output` is what was written to the serial port, and `input` what waits there.
pub record Sketch : Type 0 where
  pub is_text : Bool
  pub start : Bool
  pub write_cb : Bool
  pub addr1_filter : HexFilter
  pub addr2_filter : HexFilter
  pub sel_channel : ℕ
  pub ch_index : ℕ
  pub channel : ℕ
  pub radio_channel : ℕ
  pub output : Bytes
  pub input : Bytes

unfoldable pub write : Bytes → Exec Sketch (Unit {0})
write b = do
  set ← gets (λ s. s.write_cb)
  if set then modify (λ s. record s { output = s.output ++ b }) else pure tt

unfoldable pub write16 : ℕ → Exec Sketch (Unit {0})
unfolding write
write16 n = write (le16 n)

unfoldable pub write32 : ℕ → Exec Sketch (Unit {0})
unfolding write
write32 n = write (le32 n)

abbrev pub snaplen : ℕ
snaplen = 2500

abbrev pub kept_length : ℕ → ℕ
kept_length len = if ltb snaplen len then snaplen else len

unfoldable pub new_packet : ℕ → ℕ → ℕ → Bytes → Exec Sketch (Unit {0})
unfolding write32 write
new_packet ts_sec ts_usec len buf = do
  write32 ts_sec
  write32 ts_usec
  write32 (kept_length len)
  write32 len
  packet ← checked (bytes_at buf 0 (kept_length len))
  write packet

unfoldable pub capture_start : Exec Sketch (Unit {0})
unfolding write16 write32
capture_start = do
  write32 0xa1b2c3d4
  write16 2
  write16 4
  write32 0
  write32 0
  write32 snaplen
  write32 105

-- `log` of a "%s": in the mode for text it is read up to its end.
unfoldable pub log_text : Bytes → Exec Sketch (Unit {0})
log_text text = do
  is_text ← gets (λ s. s.is_text)
  if is_text then (checked (text_at text) >>= λ _. pure tt) else pure tt

unfoldable pub signal_start : Exec Sketch (Unit {0})
unfolding capture_start log_text
signal_start = do
  is_text ← gets (λ s. s.is_text)
  if is_text then (gets (λ s. s.addr2_filter.addr) >>= log_text) else capture_start
  modify (λ s. record s { start = true })

-- `initSerial` and the rest of `setup`; the set-up of the radio is left out.
unfoldable pub setup : Exec Sketch (Unit {0})
unfolding signal_start
setup = do signal_start; modify (λ s. record s { write_cb = true })

unfoldable pub is_addr_equal : Bytes → HexFilter → Option Bool
is_addr_equal addr filter = elim filter.size as (λ _. Option Bool) [
  | pos zero ↦ some true
  | pos (suc n) ↦ memcmp_eq addr filter.addr (suc n)
  | negsuc n ↦ none
]

-- The second address is looked at only if the first is equal.
unfoldable both_equal : Bytes → HexFilter → HexFilter → Option Bool
unfolding is_addr_equal
both_equal payload f1 f2 = elim (is_addr_equal (drop 4 payload) f1) as (λ _. Option Bool) [
  | none ↦ none
  | some false ↦ some false
  | some true ↦ is_addr_equal (drop 10 payload) f2
]

-- `now` and `microseconds` are what the clock says.
unfoldable pub packet_cb : ℕ → ℕ → Pkt → ℕ → Exec Sketch (Unit {0})
unfolding both_equal new_packet
packet_cb now microseconds pkt packet_length = do
  s ← gets (λ s. s)
  equal ←
      if s.start then checked (both_equal pkt.payload s.addr1_filter s.addr2_filter) else pure false
  if equal && not s.is_text then new_packet now microseconds packet_length pkt.payload else pure tt

unfoldable pub wifi_sniffer_packet_handler : ℕ → ℕ → Bool → Pkt → Exec Sketch (Unit {0})
unfolding packet_cb
wifi_sniffer_packet_handler now microseconds is_mgmt pkt =
    let len = pkt.rx_ctrl.sig_len in
    packet_cb now microseconds pkt (if is_mgmt then (len + 2 ^ 32 - 4) % 2 ^ 32 else len)

unfoldable pub change_channel : Exec Sketch ℕ
change_channel = do
  i ← gets (λ s. s.ch_index)
  let next = if leb 2 i then 0 else i + 1
  channel ← checked (get_elem? (1 ∷ 6 ∷ 11 ∷ []) next)
  modify (λ s. record s { ch_index = next; channel = channel; radio_channel = channel })
  pure channel

-- The channel is an `unsigned int`, of which the radio gets eight bits.
unfoldable pub filter_channel : ℤ → Exec Sketch (Unit {0})
filter_channel ch = elim ch as (λ _. Exec Sketch (Unit {0})) [
  | pos n ↦ modify (λ s. record s { sel_channel = n; radio_channel = uint8 ch })
  | negsuc n ↦ modify (λ s. record s { sel_channel = 2 ^ 32 - suc n; radio_channel = uint8 ch })
]

-- `(int)(size_t)-1` is -1.
abbrev hex_size : ℕ → ℤ
hex_size t = if t == size_max then negsuc 0 else pos t

unfoldable hex_filter : Bytes → ℕ → Exec Sketch HexFilter
unfolding hex_to_byte_array log_text
hex_filter mac read_bytes = do
  log_text mac
  r ← checked (hex_to_byte_array mac read_bytes (replicate 6 0))
  pure (record { addr = r.1; size = hex_size r.0 })

unfoldable pub filter_addr : Bytes → ℕ → Exec Sketch HexFilter
unfolding hex_filter
filter_addr mac read_bytes =
    if read_bytes == 0
    then pure (record { addr = replicate 6 0; size = pos 0 })
    else if read_bytes % 2 == 0
    then hex_filter mac read_bytes
    else pure (record { addr = replicate 6 0; size = negsuc 0 })
