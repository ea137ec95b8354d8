-- ===== src/Sniffer/Display.antt =====
-- Esp32Sniffer/components/wifi_sniffer/wifi_sniffer.c: what is told of a packet, and `filter_packet`, which
-- nothing calls; the colours of a packet in Esp32Sniffer/main/main.c.
pub mod Laws
use wifi_sniffer.Prelude.{
  ℕ, ◌+◌, ◌-◌, ◌*◌, ◌/◌, ◌%◌, Bool, true, false, not, ◌&&◌, Option, none, some, [], ◌∷◌, ◌++◌, ltb,
  get_elem?, take, replicate, length, if◌then◌else◌,
}
use wifi_sniffer.Prelude.Int.{ℤ, pos, negsuc, ltb_ℤ, int16}
use wifi_sniffer.Prelude.Bytes.{Bytes}
use wifi_sniffer.Prelude.Partial.{◌>>=?◌}
use wifi_sniffer.Prelude.Results.{Exec, pure, checked, gets, ◌>>=◌, ◌>>◌}
use wifi_sniffer.Nvs.Api.{NvsApi}
use wifi_sniffer.Capture.{Pkt, PcapRec}
use wifi_sniffer.Sniffer.Settings.{AddrFilter}
use wifi_sniffer.Sniffer.Frames.{SeqCtrl, get_seq}
use wifi_sniffer.Sniffer.Filter.{is_addr_equal, any_addr_equal}
use wifi_sniffer.Sniffer.State.{Kernel, Sniffer}

-- `wifi_mgmt_hdr_t`, without its payload.
pub record MgmtHdr : Type 0 where
  pub fctl : ℤ
  pub duration : ℤ
  pub ra : Bytes
  pub ta : Bytes
  pub sa : Bytes
  pub seqctl : ℤ

abbrev int16_at : Bytes → ℕ → Option ℤ
int16_at b i =
    get_elem? b i >>=? λ lo. get_elem? b (i + 1) >>=? λ hi. some (int16 (pos (lo + hi * 256)))

abbrev addr_at : Bytes → ℕ → Option Bytes
addr_at b i = get_elem? b i >>=? λ a₀. get_elem? b (i + 1) >>=? λ a₁. get_elem? b (i + 2) >>=? λ a₂.
    get_elem? b (i + 3) >>=? λ a₃. get_elem? b (i + 4) >>=? λ a₄.
    get_elem? b (i + 5) >>=? λ a₅. some (a₀ ∷ a₁ ∷ a₂ ∷ a₃ ∷ a₄ ∷ a₅ ∷ [])

-- The octets of a frame as the packed structure. `none`: the frame is shorter.
unfoldable pub mgmt_hdr : Bytes → Option MgmtHdr
mgmt_hdr frame = int16_at frame 0 >>=? λ fctl. int16_at frame 2 >>=? λ duration.
    addr_at frame 4 >>=? λ ra. addr_at frame 10 >>=? λ ta. addr_at frame 16 >>=? λ sa.
    int16_at frame 22 >>=? λ seqctl.
    some (record { fctl = fctl; duration = duration; ra = ra; ta = ta; sa = sa; seqctl = seqctl })

-- "%02x"
abbrev lower_digit : ℕ → ℕ
lower_digit n = if ltb n 10 then b'0' + n else b'a' + (n - 10)

abbrev lower_hex : ℕ → Bytes
lower_hex x = lower_digit (x / 16 % 16) ∷ lower_digit (x % 16) ∷ []

-- The text that MACSTR stands for.
abbrev pub mac_text : Bytes → Bytes
mac_text [] = []
mac_text (x ∷ []) = lower_hex x
mac_text (x ∷ xs) = lower_hex x ++ (b':' ∷ mac_text xs)

-- `snprintf` of a text of 17 characters into an array of 20, whose end stays as it was.
abbrev pub in_20 : Bytes → Bytes → Bytes
in_20 text junk = text ++ (0 ∷ junk)

-- `sniffer_packet_t`
pub record SnifferPacket : Type 0 where
  pub sq : SeqCtrl
  pub ta : Bytes
  pub addr3 : Bytes
  pub rssi : ℤ
  pub fctl : ℤ
  pub channel : ℕ

-- `junk` is what stands in memory behind a text.
unfoldable pub sniffer_to_packet_data : Bytes → PcapRec → Option SnifferPacket
unfolding mgmt_hdr
sniffer_to_packet_data junk msg = mgmt_hdr msg.buf >>=? λ mgmt. some (record {
  sq = get_seq mgmt.seqctl;
  ta = in_20 (mac_text mgmt.ta) junk;
  addr3 = in_20 (mac_text mgmt.sa) junk;
  rssi = msg.tapdata.signal;
  fctl = mgmt.fctl;
  channel = msg.tapdata.tapdata_channel.channel;
})

-- The colours LCD_BLUE, LCD_CYAN and LCD_RED.
pub data Colour : Type 0 where
  blue cyan red : Colour

-- Above -50, between -70 and -51, and else.
unfoldable pub colour_of : ℤ → Colour
colour_of rssi =
    if ltb_ℤ (negsuc 49) rssi
    then blue
    else if ltb_ℤ (negsuc 69) rssi && ltb_ℤ rssi (negsuc 50)
    then cyan
    else red

-- `&&` of C: the second address is compared only if the first is equal.
abbrev and_then : Option Bool → Option Bool → Option Bool
and_then a b = a >>=? λ x. if x then b else some false

module _ {N : NvsApi} (k : Kernel) where
  -- The addresses are compared at their places in `wifi_mgmt_hdr_t`. What the give of the semaphore answers
  -- is only logged.
  unfoldable pub filter_packet : Bytes → Exec (Sniffer N) Bool
  unfolding any_addr_equal is_addr_equal
  filter_packet frame =
      if k.take
      then (do
        own ← gets (λ s. s.addr_own_mac)
        addr3 ← gets (λ s. s.addr3_filter)
        addr2 ← gets (λ s. s.addr2_filter)
        is_own ← checked (any_addr_equal frame (16 ∷ 4 ∷ 10 ∷ []) own)
        if is_own
            then pure false
            else checked (and_then (is_addr_equal frame 16 addr3) (is_addr_equal frame 10 addr2)))
      else pure true
