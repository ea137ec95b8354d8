-- ===== src/Wifi/Console/Laws.antt =====
-- The length of a name that the commands can be given.
use wifi_sniffer.Prelude.{
  ℕ, zero, suc, ◌≤◌, ◌≡◌, refl, ◌==◌, false, Option, none, some, [], ◌∷◌, arith, length, replicate,
  take, drop, take-all,
}
use mathlib.Core.List.{append-nil}
use wifi_sniffer.Prelude.Int.{ℤ}
use wifi_sniffer.Prelude.Bytes.{Bytes}
use wifi_sniffer.Prelude.Text.{text_at, padded, strncpy}
use wifi_sniffer.Prelude.Results.{undefined, bind_cong, ◌>>◌}
use wifi_sniffer.Nvs.Api.{NvsApi}
use wifi_sniffer.Wifi.Settings.{Defaults, SsidCfg, convert_to_ssid_cfg, wifi_nvs_get_ap_ssid_pw}
use wifi_sniffer.Wifi.Driver.{Driver, WifiLib}
use wifi_sniffer.Wifi.Console.{text_or, console_wifi_exec_set_ap}

tail_text :
    (c x : ℕ) (value t : Bytes)
    → text_at (c ∷ value) ≡ some (x ∷ t)
    → ((c == 0) ≡ false) × (text_at value ≡ some t)
tail_text c x value t h = ground arith

-- The first characters of a longer text have no end, and are copied without one.
padded_take :
    (n : ℕ) (value t : Bytes)
    → text_at value ≡ some t
    → n ≤ length t
    → (padded n value ≡ some (take n value))
      × (text_at (take n value) ≡ none)
      × (length (take n value) ≡ n)
padded_take zero value t h l = (refl, refl, refl)
padded_take (suc n) [] t h l = absurd (ground arith)
padded_take (suc n) (c ∷ value) [] h l = absurd (ground arith)
padded_take (suc n) (c ∷ value) (x ∷ t) h l =
    let (nonzero, rest) = tail_text c x value t h in
    let (a, b, m) = padded_take n value t rest (omega arith) in
    rw (nonzero, a, b, m) (refl, refl, refl)

padded_endless : (u : Bytes) → text_at u ≡ none → padded (length u) u ≡ some u
padded_endless [] h = refl
padded_endless (c ∷ u) h = ground (arith, padded_endless u)

drop-whole : (n : ℕ) (l : Bytes) → length l ≡ n → drop n l ≡ []
drop-whole zero [] h = refl
drop-whole zero (x ∷ l) h = absurd (ground arith)
drop-whole (suc n) [] h = absurd (ground arith)
drop-whole (suc n) (x ∷ l) h = drop-whole n l (omega arith)

endless_copy :
    (n : ℕ) (u : Bytes)
    → text_at u ≡ none
    → length u ≡ n
    → (dst : Bytes) → length dst ≡ n
    → strncpy dst u n ≡ some u
endless_copy n u h l dst m =
    rw
      (
        ← l,
        padded_endless u h,
        take-all (length u) u (omega arith),
        drop-whole (length u) dst (ground (arith, l, m)),
        append-nil u,
      )
      (ground (arith, l, m))

-- A name of 32 characters or more leaves no room for the end of the text in the array.
convert_to_ssid_cfg_endless :
    (u pw : Bytes) (c : SsidCfg)
    → text_at u ≡ none
    → length u ≡ 32
    → length c.ssid ≡ 32
    → convert_to_ssid_cfg u 32 pw 64 c ≡ none
unfolding convert_to_ssid_cfg
convert_to_ssid_cfg_endless u pw c h l m = rw (endless_copy 32 u h l c.ssid m, h) refl

-- The array of the command, filled by a text without an end.
endless_array :
    (value t : Bytes)
    → text_at value ≡ some t
    → 32 ≤ length t
    → strncpy (replicate 32 0) value 32 ≡ some (take 32 value)
endless_array value t h l =
    let (a, b, m) = padded_take 32 value t h l in
    rw (a, m, take-all 32 (take 32 value) (omega arith), append-nil (take 32 value)) refl

module _ {N : NvsApi} (d : Driver) (D : Defaults) (ipaddr_addr : Bytes → ℕ) where
  -- With a name of 32 characters or more, whatever the password and the channel are, all that `set-ap` does
  -- is to get the password, from the argument or from flash: then the length of the name's copy, which has
  -- no end, is read out of range, before the access point is set up.
  pub console_wifi_exec_set_ap_long :
      (junk : SsidCfg) (value t : Bytes) (password : Option Bytes) (channel : Option ℤ)
      (s : WifiLib N)
      → length junk.ssid ≡ 32
      → text_at value ≡ some t
      → 32 ≤ length t
      → console_wifi_exec_set_ap d D ipaddr_addr junk (some value) password channel s
        ≡ (text_or d D ipaddr_addr password 64 (wifi_nvs_get_ap_ssid_pw N D) >> undefined) s
  unfolding console_wifi_exec_set_ap
  console_wifi_exec_set_ap_long junk value t password channel s room text long =
      let (_, endless, m) = padded_take 32 value t text long in
      rw (endless_array value t text long) (
        bind_cong (text_or d D ipaddr_addr password 64 (wifi_nvs_get_ap_ssid_pw N D)) _
          (λ _. undefined) s
          (λ pw u. rw (convert_to_ssid_cfg_endless (take 32 value) pw junk endless m room) refl))
