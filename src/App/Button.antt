-- ===== src/App/Button.antt =====
-- Esp32Sniffer/main/main.c: the button of the LilyGO board, and the events that become lights.
use wifi_sniffer.Prelude.{◌≡◌, refl, Bool, true, false, ◌&&◌, if◌then◌else◌}
use wifi_sniffer.Prelude.Int.{ℤ, negsuc, leb_ℤ}
use wifi_sniffer.Prelude.Results.{Exec, gets, ◌>>=◌}
use wifi_sniffer.Nvs.Api.{NvsApi}
use wifi_sniffer.Sniffer.State.{Kernel, Sniffer}
use wifi_sniffer.Sniffer.Control.{sniffer_set_rssi_filter}

-- -50, -51, -70, -96
unfoldable pub next_rssi : ℤ → ℤ
next_rssi rssi =
    if leb_ℤ (negsuc 49) rssi
    then negsuc 69
    else if leb_ℤ rssi (negsuc 50) && leb_ℤ (negsuc 69) rssi
    then negsuc 95
    else negsuc 49

unfoldable pub button_single_click_cb : {N : NvsApi} → Kernel → Exec (Sniffer N) (Unit {0})
unfolding next_rssi sniffer_set_rssi_filter
button_single_click_cb k =
    gets (λ s. s.rssi_filter) >>= λ rssi. sniffer_set_rssi_filter k (next_rssi rssi)

-- Whatever the filter was, the button goes through three strengths: the filter after four clicks is the one
-- after the first.
pub next_rssi_cycle : (z : ℤ) → next_rssi (next_rssi (next_rssi (next_rssi z))) ≡ next_rssi z
unfolding next_rssi
next_rssi_cycle z = go (leb_ℤ (negsuc 49) z) (leb_ℤ z (negsuc 50) && leb_ℤ (negsuc 69) z)
  where
    strength : Bool → Bool → ℤ
    strength a b = if a then negsuc 69 else if b then negsuc 95 else negsuc 49

    go : (a b : Bool) → next_rssi (next_rssi (next_rssi (strength a b))) ≡ strength a b
    go true b = refl
    go false true = refl
    go false false = refl
