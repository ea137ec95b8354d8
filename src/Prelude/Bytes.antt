-- ===== src/Prelude/Bytes.antt =====
-- Byte arrays: fields, copies and comparisons, `none` where an access is out of range.
use Prim.Native.Nat.{ℕ, zero, suc, ◌+◌, ◌*◌, ◌/◌, ◌%◌, ◌<◌}
use mathlib.Core.Path.{◌≡◌, refl, sym, subst}
use mathlib.Core.Bool.{Bool, true, false, ◌&&◌}
use mathlib.Core.List.{List, [], ◌∷◌, ◌++◌}
use mathlib.Core.Option.{Option, none, some}
use wifi_sniffer.Prelude.Tests.{◌==◌, leb, if◌then◌else◌}
use wifi_sniffer.Prelude.Lists.{length, length-append, take, drop, take-append}
use native.Mathlib.Omega.{arith}

abbrev pub Bytes : Type 0
Bytes = List ℕ

-- `n` bytes at an offset.
abbrev pub bytes_at : Bytes → ℕ → ℕ → Option Bytes
bytes_at b off n = if leb (off + n) (length b) then some (take n (drop off b)) else none

-- `b[i] = v`
abbrev pub store : Bytes → ℕ → ℕ → Option Bytes
store [] i v = none
store (x ∷ b) zero v = some (v ∷ b)
store (x ∷ b) (suc i) v = elim (store b i v) [ none ↦ none | some b' ↦ some (x ∷ b') ]

abbrev pub memcpy : Bytes → Bytes → ℕ → Option Bytes
memcpy dst src n =
    if leb n (length dst) && leb n (length src) then some (take n src ++ drop n dst) else none

abbrev pub bytes_eq : Bytes → Bytes → Bool
bytes_eq [] [] = true
bytes_eq (x ∷ a) (y ∷ b) = (x == y) && bytes_eq a b
bytes_eq _ _ = false

-- `!memcmp(a, b, n)`
abbrev pub memcmp_eq : Bytes → Bytes → ℕ → Option Bool
memcmp_eq a b n =
    if leb n (length a) && leb n (length b) then some (bytes_eq (take n a) (take n b)) else none

-- A 16-bit and a 32-bit field, least significant byte first.
abbrev pub le16 : ℕ → Bytes
le16 x = (x % 256) ∷ (x / 256 % 256) ∷ []

abbrev pub le32 : ℕ → Bytes
le32 x = (x % 256) ∷ (x / 256 % 256) ∷ (x / 65536 % 256) ∷ (x / 16777216 % 256) ∷ []

pub bytes_eq_refl : (a : Bytes) → bytes_eq a a ≡ true
bytes_eq_refl [] = refl
bytes_eq_refl (x ∷ a) = ground (arith, bytes_eq_refl a)

pub bytes_eq→eq : (a b : Bytes) → bytes_eq a b ≡ true → a ≡ b
bytes_eq→eq [] [] h = refl
bytes_eq→eq [] (y ∷ b) h = cc
bytes_eq→eq (x ∷ a) [] h = cc
bytes_eq→eq (x ∷ a) (y ∷ b) h = ground (arith, bytes_eq→eq a b)

pub le32_read :
    (x : ℕ)
    → x < 4294967296
    → x % 256 + x / 256 % 256 * 256 + x / 65536 % 256 * 65536 + x / 16777216 % 256 * 16777216 ≡ x
le32_read x h = omega arith

pub bytes_at-append : (p rest : Bytes) (n : ℕ) → length p ≡ n → bytes_at (p ++ rest) 0 n ≡ some p
bytes_at-append p rest n h = rw (← h) (
    subst (λ t. (if leb (0 + length p) (length (p ++ rest)) then some t else none) ≡ some p)
      (sym (take-append p rest)) (ground (arith, length-append p rest)))
