-- ===== src/Serial.antt =====
-- Esp32Sniffer/components/serial_lib/serial_lib.c: the serial ports. What uart_read_bytes returns, and the
-- callbacks, are parameters.
pub mod Laws
use wifi_sniffer.Prelude.{
  ℕ, ◌+◌, ◌-◌, Bool, true, false, Option, none, some, List, [], ◌∷◌, ◌++◌, ◌==◌, length, replicate,
  if◌then◌else◌,
}
use wifi_sniffer.Prelude.Bytes.{Bytes, store, memcpy}
use wifi_sniffer.Prelude.Partial.{◌>>=?◌}
use wifi_sniffer.Prelude.Results.{Err, Exec, pure, gets, modify, checked, error_check, ◌>>=◌, ◌>>◌}

-- RX_SZ
abbrev pub rx_size : ℕ
rx_size = 50

-- `serial_messsage_t`; `octets` is its `data`.
pub record SerialMessage : Type 0 where
  pub src_port : ℕ
  pub octets : Bytes
  pub size : ℕ

-- `got` are the octets that were read, and `junk` what stands in memory where the message is put.
unfoldable pub rx_message : ℕ → Bytes → Bytes → Option SerialMessage
rx_message port junk got =
    let n = length got in
    store (got ++ replicate (rx_size + 1 - n) 0) n 0 >>=? λ octets.
    memcpy junk octets n >>=? λ copy.
    store copy n 0 >>=? λ text. some (record { src_port = port; octets = text; size = n })

module _ {S : Type 0} where
  -- One round of `rx_task`; without a reader only a message is logged.
  unfoldable pub rx_round :
      Option (SerialMessage → Exec S (Unit {0})) → ℕ → Bytes → Bytes → Exec S (Unit {0})
  unfolding rx_message
  rx_round serial_reader port junk got =
      if length got == 0 then pure tt else elim serial_reader as (λ _. Exec S (Unit {0})) [
        | none ↦ pure tt
        | some f ↦ checked (rx_message port junk got) >>= f
      ]

  unfoldable pub rx_task :
      Option (SerialMessage → Exec S (Unit {0})) → ℕ → Bytes → List Bytes → Exec S (Unit {0})
  unfolding rx_round
  rx_task serial_reader port junk [] = pure tt
  rx_task serial_reader port junk (got ∷ rest) =
      rx_round serial_reader port junk got >> rx_task serial_reader port junk rest

  -- One round of `tx_task`: the producer sets the message, and nothing is written without data.
  unfoldable pub tx_round : Exec S (Option Bytes) → (Bytes → Exec S (Unit {0})) → Exec S (Unit {0})
  tx_round msg_producer_from_source uart_write_bytes = do
    octets ← msg_producer_from_source
    elim octets as (λ _. Exec S (Unit {0})) [ none ↦ pure tt | some b ↦ uart_write_bytes b ]

-- `started_0`, and what was written to port 0.
pub record Port : Type 0 where
  pub started_0 : Bool
  pub written : Bytes

-- The errors are those of the installation, the parameters and the pins.
unfoldable pub serial_begin_0 : Err → Err → Err → Exec Port (Unit {0})
serial_begin_0 installed configured pins_set = do
  error_check installed
  error_check configured
  error_check pins_set
  modify (λ s. record s { started_0 = true })

unfoldable pub serial_write_0 : Bytes → Exec Port ℕ
serial_write_0 src = do
  started ← gets (λ s. s.started_0)
  if started
      then (modify (λ s. record s { written = s.written ++ src }) >> pure (length src))
      else pure 0
