-- ===== src/Prelude/Text.antt =====
-- The text functions of string.h on what can be read and written from a pointer on. `none`: a read or a
-- write out of range.
use wifi_sniffer.Prelude.{
  ℕ, zero, suc, ◌<◌, ◌≡◌, refl, Bool, true, false, Option, none, some, [], ◌∷◌, ◌==◌, length,
  replicate, arith, if◌then◌else◌,
}
use wifi_sniffer.Prelude.Bytes.{Bytes, memcpy}
use wifi_sniffer.Prelude.Partial.{◌>>=◌}

-- The characters before the terminating zero.
abbrev pub text_at : Bytes → Option Bytes
text_at [] = none
text_at (c ∷ s) = let rest = text_at s in if c == 0 then some [] else (rest >>= λ t. some (c ∷ t))

abbrev pub strlen : Bytes → Option ℕ
strlen s = text_at s >>= λ t. some (length t)

-- The `n` octets that strncpy writes: the text and zeros, or a part of the text.
abbrev pub padded : ℕ → Bytes → Option Bytes
padded zero s = some []
padded (suc n) [] = none
padded (suc n) (c ∷ s) =
    let rest = padded n s in
    if c == 0 then some (replicate (suc n) 0) else (rest >>= λ t. some (c ∷ t))

abbrev pub strncpy : Bytes → Bytes → ℕ → Option Bytes
strncpy dst src n = padded n src >>= λ t. memcpy dst t n

-- `!strncmp(a, b, n)`
abbrev pub strncmp_eq : Bytes → Bytes → ℕ → Option Bool
strncmp_eq a b zero = some true
strncmp_eq (x ∷ a) (y ∷ b) (suc n) =
    let rest = strncmp_eq a b n in
    if x == y then (if x == 0 then some true else rest) else some false
strncmp_eq _ _ (suc n) = none

-- A destination that is too short is written out of range.
pub strncpy_short : (dst src : Bytes) (n : ℕ) → length dst < n → strncpy dst src n ≡ none
strncpy_short dst src n h = short (padded n src)
  where
    short : (o : Option Bytes) → (o >>= λ t. memcpy dst t n) ≡ none
    short none = refl
    short (some t) = ground arith
