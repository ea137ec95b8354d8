-- ===== src/Arduino/Laws.antt =====
-- What `setup` leaves on the serial port.
use wifi_sniffer.Prelude.{◌≡◌, refl, true, false}
use wifi_sniffer.Prelude.Results.{done}
use wifi_sniffer.Arduino.{Sketch, write, write16, write32, capture_start, signal_start, setup}

-- In the mode for the binary stream, `setup` starts the capture, but the header of the stream is lost: the
-- callback for writing is set only afterwards, and nothing is written.
pub setup_without_header :
    (s : Sketch)
    → s.is_text ≡ false
    → s.write_cb ≡ false
    → setup s ≡ done tt (record s { start = true; write_cb = true })
unfolding setup signal_start capture_start write16 write32 write
setup_without_header s binary unset = rw (binary, unset) refl
