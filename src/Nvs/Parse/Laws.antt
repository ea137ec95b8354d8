-- ===== src/Nvs/Parse/Laws.antt =====
-- What `nvs_set_num_from_string` stores, against the ranges of the types.
use wifi_sniffer.Prelude.{
  ℕ, ◌-◌, ◌^◌, ◌≤◌, ltb, ◌≡◌, refl, ap, sym, ◌∙◌, String, Bool, true, false, not, ◌&&◌, ◌||◌, some,
  arith, if◌then◌else◌,
}
use mathlib.Core.Bool.{false≢true}
use wifi_sniffer.Prelude.Int.{ℤ, pos, negsuc}
use wifi_sniffer.Prelude.Bytes.{Bytes}
use wifi_sniffer.Nvs.Api.{NvsApi, NvsType, number, Store}
use wifi_sniffer.Nvs.Num.{store_value}
use wifi_sniffer.Nvs.Parse.{
  NumParser, parsed, in_limits, nvs_set_num_from_string, refused, stored_or_refused,
}

-- The integers of `w` bits, in two's complement and without a sign.
abbrev in_signed : ℕ → ℤ → Bool
in_signed w (pos n) = ltb n (2 ^ (w - 1))
in_signed w (negsuc n) = ltb n (2 ^ (w - 1))

abbrev in_unsigned : ℕ → ℤ → Bool
in_unsigned w (pos n) = ltb n (2 ^ w)
in_unsigned w (negsuc n) = false

-- What C says of these functions where `long` has 32 bits and `long long` 64, with `value` the number
-- that a text begins with: the value if the result's type has it, else ERANGE. For the unsigned ones,
-- a number below 0 is left out.
pub record IsStdlib (C : NumParser) (value : Bytes → ℤ) : Type 0 where
  pub long_value :
      (str : Bytes) → in_signed 32 (value str) ≡ true → C.strtol str ≡ (value str, false)
  pub long_range : (str : Bytes) → in_signed 32 (value str) ≡ false → (C.strtol str).1 ≡ true
  pub long_long_value :
      (str : Bytes) → in_signed 64 (value str) ≡ true → C.strtoll str ≡ (value str, false)
  pub long_long_range : (str : Bytes) → in_signed 64 (value str) ≡ false → (C.strtoll str).1 ≡ true
  pub unsigned_value :
      (str : Bytes) → in_unsigned 32 (value str) ≡ true → C.strtoul str ≡ (value str, false)
  pub unsigned_range :
      (str : Bytes) (n : ℕ) → value str ≡ pos n → 2 ^ 32 ≤ n → (C.strtoul str).1 ≡ true
  pub unsigned_long_value :
      (str : Bytes) → in_unsigned 64 (value str) ≡ true → C.strtoull str ≡ (value str, false)
  pub unsigned_long_range :
      (str : Bytes) (n : ℕ) → value str ≡ pos n → 2 ^ 64 ≤ n → (C.strtoull str).1 ≡ true

-- Whether a number of the type can have the value.
abbrev pub in_range : NvsType → ℤ → Bool
in_range NvsType.i8 z = in_signed 8 z
in_range NvsType.u8 z = in_unsigned 8 z
in_range NvsType.i16 z = in_signed 16 z
in_range NvsType.u16 z = in_unsigned 16 z
in_range NvsType.i32 z = in_signed 32 z
in_range NvsType.u32 z = in_unsigned 32 z
in_range NvsType.i64 z = in_signed 64 z
in_range NvsType.u64 z = in_unsigned 64 z
in_range _ z = false

-- A type of number, and a value that, for an unsigned type, is not below 0.
abbrev Parses : NvsType → ℤ → Type 0
Parses NvsType.i8 z = Unit
Parses NvsType.i16 z = Unit
Parses NvsType.i32 z = Unit
Parses NvsType.i64 z = Unit
Parses NvsType.u8 z = (n : ℕ) × (z ≡ pos n)
Parses NvsType.u16 z = (n : ℕ) × (z ≡ pos n)
Parses NvsType.u32 z = (n : ℕ) × (z ≡ pos n)
Parses NvsType.u64 z = (n : ℕ) × (z ≡ pos n)
Parses _ z = ⊥

-- A conversion whose result has `wide` or is ERANGE, before the limits of a narrower type.
Narrows : ℤ × Bool → ℤ → (ℤ → Bool) → Bool → Type 0
Narrows o z limits narrow = ((not o.1 && limits o.0) ≡ narrow) × (narrow ≡ true → o.0 ≡ z)

narrowed :
    (o : ℤ × Bool) (z : ℤ) (limits : ℤ → Bool) (wide narrow : Bool)
    → (wide ≡ true → o ≡ (z, false))
    → (wide ≡ false → o.1 ≡ true)
    → (wide && limits z) ≡ narrow
    → Narrows o z limits narrow
unfolding Narrows
narrowed o z limits true narrow value range e = (
  ap (λ (r : ℤ × Bool). not r.1 && limits r.0) (value refl) ∙ e,
  λ _. ap (λ (r : ℤ × Bool). r.0) (value refl),
)
narrowed o z limits false narrow value range e =
    (ap (λ b. not b && limits o.0) (range refl) ∙ e, λ t. absurd (false≢true (e ∙ t)))

fits_i8 : (z : ℤ) → (in_signed 32 z && in_limits NvsType.i8 z) ≡ in_signed 8 z
unfolding in_limits
fits_i8 (pos n) = ground arith
fits_i8 (negsuc n) = ground arith

fits_i16 : (z : ℤ) → (in_signed 32 z && in_limits NvsType.i16 z) ≡ in_signed 16 z
unfolding in_limits
fits_i16 (pos n) = ground arith
fits_i16 (negsuc n) = ground arith

fits_u8 : (z : ℤ) → (in_unsigned 32 z && in_limits NvsType.u8 z) ≡ in_unsigned 8 z
unfolding in_limits
fits_u8 (pos n) = ground arith
fits_u8 (negsuc n) = refl

fits_u16 : (z : ℤ) → (in_unsigned 32 z && in_limits NvsType.u16 z) ≡ in_unsigned 16 z
unfolding in_limits
fits_u16 (pos n) = ground arith
fits_u16 (negsuc n) = refl

unlimited : (b : Bool) → (b && true) ≡ b
unlimited true = refl
unlimited false = refl

too_large : (w : ℕ) (z : ℤ) (n : ℕ) → z ≡ pos n → in_unsigned w z ≡ false → 2 ^ w ≤ n
too_large w z n e h = above (ap (in_unsigned w) (sym e) ∙ h)
  where
    above : ltb n (2 ^ w) ≡ false → 2 ^ w ≤ n
    above h = ground arith

module _ (C : NumParser) (value : Bytes → ℤ) (L : IsStdlib C value) where
  converted :
      (type : NvsType) (str : Bytes)
      → Parses type (value str)
      → (o : ℤ × Bool) × (parsed C type str ≡ some o)
        × Narrows o (value str) (in_limits type) (in_range type (value str))
  unfolding in_limits
  converted NvsType.i8 str p = (
    C.strtol str,
    refl,
    narrowed (C.strtol str) (value str) _ (in_signed 32 (value str)) _ (L.long_value str)
        (L.long_range str) (fits_i8 (value str)),
  )
  converted NvsType.i16 str p = (
    C.strtol str,
    refl,
    narrowed (C.strtol str) (value str) _ (in_signed 32 (value str)) _ (L.long_value str)
        (L.long_range str) (fits_i16 (value str)),
  )
  converted NvsType.i32 str p = (
    C.strtol str,
    refl,
    narrowed (C.strtol str) (value str) _ (in_signed 32 (value str)) _ (L.long_value str)
        (L.long_range str) (unlimited _),
  )
  converted NvsType.i64 str p = (
    C.strtoll str,
    refl,
    narrowed (C.strtoll str) (value str) _ (in_signed 64 (value str)) _ (L.long_long_value str)
        (L.long_long_range str) (unlimited _),
  )
  converted NvsType.u8 str (n, e) = (
    C.strtoul str,
    refl,
    narrowed (C.strtoul str) (value str) _ (in_unsigned 32 (value str)) _ (L.unsigned_value str)
        (λ h. L.unsigned_range str n e (too_large 32 (value str) n e h)) (fits_u8 (value str)),
  )
  converted NvsType.u16 str (n, e) = (
    C.strtoul str,
    refl,
    narrowed (C.strtoul str) (value str) _ (in_unsigned 32 (value str)) _ (L.unsigned_value str)
        (λ h. L.unsigned_range str n e (too_large 32 (value str) n e h)) (fits_u16 (value str)),
  )
  converted NvsType.u32 str (n, e) = (
    C.strtoul str,
    refl,
    narrowed (C.strtoul str) (value str) _ (in_unsigned 32 (value str)) _ (L.unsigned_value str)
        (λ h. L.unsigned_range str n e (too_large 32 (value str) n e h)) (unlimited _),
  )
  converted NvsType.u64 str (n, e) = (
    C.strtoull str,
    refl,
    narrowed (C.strtoull str) (value str) _ (in_unsigned 64 (value str)) _
        (L.unsigned_long_value str)
        (λ h. L.unsigned_long_range str n e (too_large 64 (value str) n e h)) (unlimited _),
  )
  converted NvsType.str s p = absurd p
  converted NvsType.blob s p = absurd p

  -- The functions of stdlib.h do what C says, and the text begins with a number that, for an unsigned
  -- type, is not below 0. If the type has that number, in two's complement of its width or without a
  -- sign, and errno was not ERANGE before the call, it is stored exactly as `store_value` stores it;
  -- otherwise the result is ESP_ERR_NVS_VALUE_TOO_LONG, or the error of nvs_open, nothing is written,
  -- and no handle stays open.
  pub nvs_set_num_from_string_lem :
      (N : NvsApi) (errno : Bool) (ns key : String) (type : NvsType) (str : Bytes) (s : Store N)
      → Parses type (value str)
      → nvs_set_num_from_string N C errno ns key type str s ≡ (
          if not errno && in_range type (value str)
          then store_value N ns key (number type (value str)) s
          else refused N C ns s)
  unfolding Narrows
  nvs_set_num_from_string_lem N errno ns key type str s p =
      let (o, e, (fits, same)) = converted type str p in
      stored_or_refused N C errno o.1 ns key type str o.0 s e
      ∙ choose errno o.1 (in_limits type o.0) (in_range type (value str)) o.0 fits same
    where
      choose :
          (errno erange limits fits : Bool) (z : ℤ)
          → (not erange && limits) ≡ fits
          → (fits ≡ true → z ≡ value str)
          → (if not (errno || erange) && limits
              then store_value N ns key (number type z) s
              else refused N C ns s)
            ≡ (if not errno && fits
                then store_value N ns key (number type (value str)) s
                else refused N C ns s)
      choose true erange limits fits z e same = refl
      choose false erange limits true z e same =
          rw e (ap (λ v. store_value N ns key (number type v) s) (same refl))
      choose false erange limits false z e same = rw e refl
