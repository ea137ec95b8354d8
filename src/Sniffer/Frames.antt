-- ===== src/Sniffer/Frames.antt =====
-- Esp32Sniffer/components/wifi_sniffer/include/wifi_sniffer.h and wifi_sniffer.c: the frame control and
-- sequence control fields, and where the packed headers have their addresses.
pub mod Laws
use wifi_sniffer.Prelude.{
  ℕ, ◌+◌, ◌-◌, ◌*◌, ◌/◌, ◌%◌, ◌^◌, bit_and, bit_or, Option, none, some, List, [], ◌∷◌, Bool, ◌==◌,
}
use wifi_sniffer.Prelude.Int.{ℤ, pos, int16, uint16, pattern_of}

-- FC_SUBTYPE, FC_TO_DS, FC_FROM_DS
unfoldable pub fc_subtype : ℕ → ℕ
fc_subtype fc = bit_and (fc / 2 ^ 4) 0xF

unfoldable pub fc_to_ds : ℕ → ℕ
fc_to_ds fc = bit_and (fc / 2 ^ 8) 0x1

unfoldable pub fc_from_ds : ℕ → ℕ
fc_from_ds fc = bit_and (fc / 2 ^ 9) 0x1

-- The subtypes of control frames that the packet handler tells apart.
abbrev pub subtype_bar : ℕ
subtype_bar = 0x8

abbrev pub subtype_ba : ℕ
subtype_ba = 0x9

abbrev pub subtype_ps_poll : ℕ
subtype_ps_poll = 0xA

abbrev pub subtype_rts : ℕ
subtype_rts = 0xB

abbrev pub subtype_cts : ℕ
subtype_cts = 0xC

abbrev pub subtype_ack : ℕ
subtype_ack = 0xD

-- Offsets of the addresses that the program reads, in the packed headers: two 16-bit fields come first,
-- and every address has six octets.

-- `wifi_managment_hdr_t`
abbrev pub managment_da : ℕ
managment_da = 4

abbrev pub managment_sa : ℕ
managment_sa = 10

abbrev pub managment_bssid : ℕ
managment_bssid = 16

-- `wifi_data_ibss_hdr_t`
abbrev pub data_ibss_da : ℕ
data_ibss_da = 4

abbrev pub data_ibss_sa : ℕ
data_ibss_sa = 10

-- `wifi_data_from_ap_hdr_t`
abbrev pub data_from_ap_da : ℕ
data_from_ap_da = 4

abbrev pub data_from_ap_sa : ℕ
data_from_ap_sa = 16

-- `wifi_data_to_ap_hdr_t`
abbrev pub data_to_ap_sa : ℕ
data_to_ap_sa = 10

abbrev pub data_to_ap_da : ℕ
data_to_ap_da = 16

-- `wifi_data_wds_hdr_t`
abbrev pub data_wds_ra : ℕ
data_wds_ra = 4

abbrev pub data_wds_ta : ℕ
data_wds_ta = 10

-- `wifi_ctrl_rts_hdr_t`
abbrev pub ctrl_rts_ra : ℕ
ctrl_rts_ra = 4

abbrev pub ctrl_rts_ta : ℕ
ctrl_rts_ta = 10

-- `wifi_ctrl_cts_hdr_t`
abbrev pub ctrl_cts_ra : ℕ
ctrl_cts_ra = 4

-- `wifi_ctrl_ack_hdr_t`
abbrev pub ctrl_ack_ra : ℕ
ctrl_ack_ra = 4

-- `wifi_ctrl_ps_poll_hdr_t`
abbrev pub ctrl_ps_poll_ta : ℕ
ctrl_ps_poll_ta = 10

-- `wifi_ctrl_ba_hdr_t`
abbrev pub ctrl_ba_ra : ℕ
ctrl_ba_ra = 4

abbrev pub ctrl_ba_ta : ℕ
ctrl_ba_ta = 10

-- `rotate`, on a 16-bit `x`; the subtraction is of 32-bit unsigned numbers.
unfoldable pub rotate : ℕ → ℕ → ℕ
rotate x shift = bit_or (x / 2 ^ shift) (x * 2 ^ ((16 + 2 ^ 32 - shift) % 2 ^ 32 % 16)) % 2 ^ 32

-- `seq_ctrl_t`
pub record SeqCtrl : Type 0 where
  pub frag : ℕ
  pub seq : ℕ

-- `sq` is an `int16_t`, so the masks are applied to its sign-extended pattern.
unfoldable pub get_seq : ℤ → SeqCtrl
unfolding rotate
get_seq seqctl =
    let sq = int16 (pos (rotate (uint16 seqctl) 4)) in
    record {
      frag = bit_and (pattern_of (2 ^ 32) sq) 0xF000 / 2 ^ 12;
      seq = bit_and (pattern_of (2 ^ 32) sq) 0x0FFF;
    }
