-- ===== src/Capture.antt =====
-- Esp32Sniffer/components/wifi_sniffer/capture_lib.c and include/capture_lib.h: the pcap and radiotap
-- structures, the record that is made of a received frame, and the capture callbacks.
-- CONFIG_SNIFFER_SNAP_LEN comes from the generated sdkconfig.h and is the parameter `snap_len`.
pub mod Hex
pub mod Wire
pub mod Reader
pub mod Stream
pub mod Radiotap
pub mod Callbacks
use wifi_sniffer.Prelude.{
  ℕ, ◌+◌, ◌/◌, ◌%◌, ◌^◌, Option, none, some, List, [], ◌∷◌, ltb, if◌then◌else◌, replicate,
}
use wifi_sniffer.Prelude.Int.{ℤ}
use wifi_sniffer.Prelude.Bytes.{Bytes, memcpy}
use wifi_sniffer.Prelude.Partial.{◌>>=◌}

-- `pcap_hdr_t`
pub record PcapHdr : Type 0 where
  pub magic_number : ℕ
  pub version_major : ℕ
  pub version_minor : ℕ
  pub thiszone : ℕ
  pub sigfigs : ℕ
  pub snaplen : ℕ
  pub network : ℕ

-- `pcap_rec_hdr_t`
pub record PcapRecHdr : Type 0 where
  pub ts_sec : ℕ
  pub ts_usec : ℕ
  pub incl_len : ℕ
  pub orig_len : ℕ

-- `ieee80211_radiotap_header_t`
pub record RadiotapHeader : Type 0 where
  pub it_version : ℕ
  pub it_pad : ℕ
  pub it_len : ℕ
  pub it_present : ℕ

-- `r_tapdata_channel_t`
pub record TapdataChannel : Type 0 where
  pub flags : ℕ
  pub freq : ℕ
  pub channel : ℕ
  pub max_power : ℕ

-- `r_tapdata_t`
pub record Tapdata : Type 0 where
  pub signal : ℤ
  pub noise : ℤ
  pub antenna : ℕ
  pub pad_for_channel : ℕ
  pub tapdata_channel : TapdataChannel

-- `pcap_rec_t`
pub record PcapRec : Type 0 where
  pub pcap_rec_hdr : PcapRecHdr
  pub radiotap_header : RadiotapHeader
  pub tapdata : Tapdata
  pub buf : Bytes

-- The fields of the Wi-Fi driver's `wifi_promiscuous_pkt_t` that the source reads. `payload` is what
-- can be read from the driver's payload pointer on.
pub record RxCtrl : Type 0 where
  pub rssi : ℤ
  pub sig_len : ℕ
  pub noise_floor : ℤ
  pub channel : ℕ
  pub timestamp : ℕ
  pub ant : ℕ
  pub rx_state : ℕ

pub record Pkt : Type 0 where
  pub rx_ctrl : RxCtrl
  pub payload : Bytes

-- The sizes of the packed structures, in octets.
abbrev pub sizeof_pcap_rec_hdr : ℕ
sizeof_pcap_rec_hdr = 16

abbrev pub sizeof_radiotap : ℕ
sizeof_radiotap = 8

abbrev pub sizeof_tapdata : ℕ
sizeof_tapdata = 12

-- IT_PRESENT
abbrev pub it_present_bits : ℕ
it_present_bits = 0b00000000000001000000100001100000

-- The static header that every record starts with.
abbrev pub radiotap_header : RadiotapHeader
radiotap_header = record {
  it_version = 0;
  it_pad = 0;
  it_len = sizeof_radiotap + sizeof_tapdata;
  it_present = it_present_bits;
}

unfoldable pub capture_get_size : PcapRecHdr → ℕ
capture_get_size h = (sizeof_pcap_rec_hdr + h.incl_len) % 2 ^ 32

-- `pack_len` of `capture_create_pcap_record`.
abbrev pub pack_len : RxCtrl → ℕ
pack_len ctrl = (ctrl.sig_len + radiotap_header.it_len) % 2 ^ 32

module _ (snap_len : ℕ) where
  unfoldable pub pcap_hdr : PcapHdr
  pcap_hdr = record {
    magic_number = 0xa1b2c3d4;
    version_major = 2;
    version_minor = 4;
    thiszone = 0;
    sigfigs = 0;
    snaplen = snap_len;
    network = 127;
  }

  -- `incl_len` of `capture_create_pcap_record`.
  abbrev pub included_len : RxCtrl → ℕ
  included_len ctrl = if ltb snap_len (pack_len ctrl) then snap_len else pack_len ctrl

  -- The record over a filled buffer.
  unfoldable pub record_of : RxCtrl → Bytes → PcapRec
  record_of ctrl buf = record {
    pcap_rec_hdr = record {
      ts_sec = ctrl.timestamp / 1000000;
      ts_usec = ctrl.timestamp % 1000000;
      incl_len = included_len ctrl;
      orig_len = pack_len ctrl;
    };
    radiotap_header = radiotap_header;
    tapdata = record {
      signal = ctrl.rssi;
      noise = ctrl.noise_floor;
      antenna = ctrl.ant;
      pad_for_channel = 0;
      tapdata_channel = record { flags = 0; freq = 0; channel = ctrl.channel; max_power = 0 };
    };
    buf = buf;
  }

  -- `none`: the copy reads past the end of the payload.
  unfoldable pub capture_create_pcap_record : Pkt → Option PcapRec
  unfolding record_of
  capture_create_pcap_record pkt = do
    buf ← memcpy (replicate snap_len 0) pkt.payload (included_len pkt.rx_ctrl)
    some (record_of pkt.rx_ctrl buf)
