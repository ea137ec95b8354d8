-- ===== src/Sniffer/Filter.antt =====
-- Esp32Sniffer/components/wifi_sniffer/wifi_sniffer.c: `isAddrEquel`, and what the packet handler
-- decides from a frame's addresses.
pub mod Laws
use wifi_sniffer.Prelude.{
  ℕ, ◌+◌, ◌*◌, Bool, true, false, not, ◌&&◌, ◌||◌, Option, none, some, List, [], ◌∷◌, ◌==◌, drop,
  if◌then◌else◌,
}
use wifi_sniffer.Prelude.Bytes.{Bytes, memcmp_eq, bytes_at}
use wifi_sniffer.Prelude.Partial.{◌>>=◌}
use wifi_sniffer.Sniffer.Settings.{AddrFilter}
use wifi_sniffer.Sniffer.Frames.{
  fc_subtype, fc_to_ds, fc_from_ds, subtype_bar, subtype_ba, subtype_ps_poll, subtype_rts,
  subtype_cts, subtype_ack, managment_da, managment_sa, managment_bssid, data_ibss_da, data_ibss_sa,
  data_from_ap_da, data_from_ap_sa, data_to_ap_sa, data_to_ap_da, data_wds_ra, data_wds_ta,
  ctrl_rts_ra, ctrl_rts_ta, ctrl_cts_ra, ctrl_ack_ra, ctrl_ps_poll_ta, ctrl_ba_ra, ctrl_ba_ta,
}

-- `wifi_promiscuous_pkt_type_t`
pub data PktType : Type 0 where
  pkt_mgmt pkt_ctrl pkt_data pkt_misc : PktType

-- The pointer `addr` stands `at` octets into the payload. `none`: the comparison reads out of range.
unfoldable pub is_addr_equal : Bytes → ℕ → AddrFilter → Option Bool
is_addr_equal frame at filter =
    if filter.size == 0 then some true else memcmp_eq (drop at frame) filter.addr filter.size

-- `isAddrEquel(a, filter) || isAddrEquel(b, filter) || ...`, from the left.
unfoldable pub any_addr_equal : Bytes → List ℕ → AddrFilter → Option Bool
unfolding is_addr_equal
any_addr_equal frame [] filter = some false
any_addr_equal frame (at ∷ rest) filter = elim (is_addr_equal frame at filter) [
  | none ↦ none
  | some true ↦ some true
  | some false ↦ any_addr_equal frame rest filter
]

-- The addresses that are compared with the own address, and those compared with the filter.
pub record Compared : Type 0 where
  pub own : List ℕ
  pub source : List ℕ

abbrev nothing : Compared
nothing = record { own = []; source = [] }

compared_mgmt : Compared
compared_mgmt = record {
  own = managment_sa ∷ managment_da ∷ managment_bssid ∷ [];
  source = managment_sa ∷ managment_da ∷ [];
}

compared_data : Bool → Bool → Compared
compared_data from_ds to_ds =
    if not from_ds && not to_ds
    then record { own = data_ibss_sa ∷ data_ibss_da ∷ []; source = data_ibss_sa ∷ [] }
    else if from_ds && not to_ds
    then record { own = data_from_ap_sa ∷ data_from_ap_da ∷ []; source = data_from_ap_sa ∷ [] }
    else if not from_ds && to_ds
    then record { own = data_to_ap_sa ∷ data_to_ap_da ∷ []; source = data_to_ap_sa ∷ [] }
    else record { own = data_wds_ta ∷ data_wds_ra ∷ []; source = data_wds_ta ∷ [] }

compared_ctrl : ℕ → Compared
compared_ctrl subtype =
    if subtype == subtype_bar
    then record { own = ctrl_ba_ta ∷ ctrl_ba_ra ∷ []; source = ctrl_ba_ta ∷ [] }
    else if subtype == subtype_ba
    then record { own = ctrl_ba_ta ∷ ctrl_ba_ra ∷ []; source = ctrl_ba_ta ∷ [] }
    else if subtype == subtype_ps_poll
    then record { own = ctrl_ps_poll_ta ∷ []; source = ctrl_ps_poll_ta ∷ [] }
    else if subtype == subtype_rts
    then record { own = ctrl_rts_ta ∷ ctrl_rts_ra ∷ []; source = ctrl_rts_ta ∷ [] }
    else if subtype == subtype_cts
    then record { own = ctrl_cts_ra ∷ []; source = ctrl_cts_ra ∷ [] }
    else if subtype == subtype_ack
    then record { own = ctrl_ack_ra ∷ []; source = ctrl_ack_ra ∷ [] }
    else nothing

-- The nested switch over the packet's type and subtype.
unfoldable pub compared : PktType → ℕ → Compared
unfolding compared_mgmt compared_data compared_ctrl
compared pkt_mgmt fc = compared_mgmt
compared pkt_data fc = compared_data (fc_from_ds fc == 1) (fc_to_ds fc == 1)
compared pkt_ctrl fc = compared_ctrl (fc_subtype fc)
compared pkt_misc fc = nothing

-- `isOwnAddress` and `macFilter` after the switch.
unfoldable pub classify : PktType → ℕ → Bytes → AddrFilter → AddrFilter → Option (Bool × Bool)
unfolding any_addr_equal compared
classify type fc frame own addr2 = do
  is_own ← any_addr_equal frame (compared type fc).own own
  mac_filter ← any_addr_equal frame (compared type fc).source addr2
  some (is_own, mac_filter)
