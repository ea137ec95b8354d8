-- ===== src/Led/Laws.antt =====
-- What the two drivers of the light promise, and for how long a blink lights it.
use wifi_sniffer.Prelude.{
  ℕ, ◌+◌, ◌≡◌, refl, ◌∙◌, Bool, true, false, not, List, [], ◌∷◌, ◌==◌, if◌then◌else◌, arith,
}
use wifi_sniffer.Prelude.Results.{Err, done, Exec, bind_done, ◌>>◌}
use wifi_sniffer.Led.{
  LedLib, LightCall, Answers, set_level, set_pixel, refresh, clear, task_delay, led_blink,
}
use wifi_sniffer.Led.Gpio
use wifi_sniffer.Led.Gpio.{Pin, gpio_lib}
use wifi_sniffer.Led.Rmt
use wifi_sniffer.Led.Rmt.{Strip, rmt_lib}

-- A light that can be seen: whether it shines, and the ticks that it has been on for up to now. Where it
-- works, setting it sets it and takes no time, and a delay changes nothing but the time.
pub record IsLight (L : LedLib) : Type 0 where
  pub shines : L.Light → Bool
  pub lit : L.Light → ℕ
  pub set_shows :
      (b : Bool) (s : L.Light)
      → (t : L.Light) × (L.led_set b s ≡ done tt t) × (shines t ≡ b) × (lit t ≡ lit s)
  pub delay_passes :
      (n : ℕ) (s : L.Light)
      → (t : L.Light) × (L.delay n s ≡ done tt t)
        × (shines t ≡ shines s)
        × (lit t ≡ lit s + (if shines s then n else 0))

-- What is on a strip that was refreshed: a pixel that is not black.
abbrev staged : List LightCall → Bool
staged [] = false
staged (set_pixel _ r g b ∷ cs) = not (r + g + b == 0)
staged (clear ∷ cs) = false
staged (_ ∷ cs) = staged cs

-- What the calls, latest first, make of the pin and of the strip.
abbrev shining : ℕ → List LightCall → Bool
shining pin [] = false
shining pin (set_level p v ∷ cs) =
    let before = shining pin cs in if p == pin then v == 1 else before
shining pin (refresh ∷ cs) = staged cs
shining pin (clear ∷ cs) = false
shining pin (_ ∷ cs) = shining pin cs

abbrev lit_for : ℕ → List LightCall → ℕ
lit_for pin [] = 0
lit_for pin (task_delay n ∷ cs) = lit_for pin cs + (if shining pin cs then n else 0)
lit_for pin (_ ∷ cs) = lit_for pin cs

abbrev pub accepts : Answers
accepts cs c = Err.esp_ok

pub level_shows :
    (b : Bool) (pin : ℕ) (x : Bool) → (if pin == pin then (if b then 1 else 0) == 1 else x) ≡ b
level_shows true pin x = ground arith
level_shows false pin x = ground arith

-- A pin whose driver accepts every call is such a light, and so is a strip.
unfoldable pub gpio_light : IsLight (gpio_lib accepts)
unfolding Gpio.led_set
gpio_light = record {
  shines = λ s. shining s.led_pin s.calls;
  lit = λ s. lit_for s.led_pin s.calls;
  set_shows = λ b s. (
    record s { calls = set_level s.led_pin (if b then 1 else 0) ∷ s.calls },
    refl,
    level_shows b s.led_pin (shining s.led_pin s.calls),
    refl,
  );
  delay_passes = λ n s. (record s { calls = task_delay n ∷ s.calls }, refl, refl, refl);
}

pub rmt_light : IsLight (rmt_lib accepts)
unfolding Rmt.led_set
rmt_light = record {
  shines = λ s. shining 0 s.calls;
  lit = λ s. lit_for 0 s.calls;
  set_shows = set_shows;
  delay_passes = λ n s. (record s { calls = task_delay n ∷ s.calls }, refl, refl, refl);
}
  where
    set_shows :
        (b : Bool) (s : Strip)
        → (t : Strip) × (Rmt.led_set accepts b s ≡ done tt t)
          × (shining 0 t.calls ≡ b)
          × (lit_for 0 t.calls ≡ lit_for 0 s.calls)
    set_shows true s =
        (record s { calls = refresh ∷ set_pixel 0 16 16 16 ∷ s.calls }, refl, refl, refl)
    set_shows false s = (record s { calls = clear ∷ s.calls }, refl, refl, refl)

module _ (L : LedLib) (V : IsLight L) (led_pin : ℕ) (ms_to_ticks : ℕ → ℕ) where
  pub led_blink_lem :
      (n : ℕ) (s : L.Light)
      → (t : L.Light) × (led_blink L led_pin ms_to_ticks n s ≡ done tt t)
        × (V.shines t ≡ false)
        × (V.lit t ≡ V.lit s + ms_to_ticks n)
  unfolding led_blink
  led_blink_lem n s =
      let (s₁, e₁, off₁, same₁) = V.set_shows false s in
      let (s₂, e₂, on₂, same₂) = V.set_shows true s₁ in
      let (s₃, e₃, on₃, more₃) = V.delay_passes (ms_to_ticks n) s₂ in
      let (s₄, e₄, off₄, same₄) = V.set_shows false s₃ in
      (
        s₄,
        bind_done (L.led_set false) (λ _. L.led_set true >> (wait >> L.led_set false)) s s₁ tt e₁
            ∙ bind_done (L.led_set true) (λ _. wait >> L.led_set false) s₁ s₂ tt e₂
            ∙ bind_done wait (λ _. L.led_set false) s₂ s₃ tt e₃
            ∙ e₄,
        off₄,
        same₄ ∙ more₃ ∙ rw (on₂, same₂, same₁) refl,
      )
    where
      wait : Exec L.Light (Unit {0})
      wait = L.delay (ms_to_ticks n)
