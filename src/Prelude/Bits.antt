-- ===== src/Prelude/Bits.antt =====
-- `|`, `&` and shifts at variables, as arithmetic.
mod Digit
use Digit.{bit_or-digit, bit_and-digit}
use Prim.Native.Nat.{ℕ, zero, suc, ◌+◌, ◌-◌, ◌*◌, ◌/◌, ◌%◌, ◌^◌, ◌<◌, ◌≤◌, bit_and, bit_or}
use mathlib.Core.Path.{◌≡◌, refl, ap}
use native.Mathlib.Nat.{pow-suc, one-le-pow}
use native.Mathlib.Omega.{arith}

bit_or-nil : (n a : ℕ) → a ≤ n → bit_or 0 a ≡ a
bit_or-nil zero zero h = refl
bit_or-nil zero (suc a) h = absurd (omega arith)
bit_or-nil (suc n) zero h = refl
bit_or-nil (suc n) (suc a) h =
    omega (arith, bit_or-digit 0 (suc a), bit_or-nil n (suc a / 2) (omega arith))

bit_or-nil_right : (n a : ℕ) → a ≤ n → bit_or a 0 ≡ a
bit_or-nil_right zero zero h = refl
bit_or-nil_right zero (suc a) h = absurd (omega arith)
bit_or-nil_right (suc n) zero h = refl
bit_or-nil_right (suc n) (suc a) h =
    omega (arith, bit_or-digit (suc a) 0, bit_or-nil_right n (suc a / 2) (omega arith))

pub zero-bit_or : (a : ℕ) → bit_or 0 a ≡ a
zero-bit_or a = bit_or-nil a a (omega arith)

pub bit_or-zero : (a : ℕ) → bit_or a 0 ≡ a
bit_or-zero a = bit_or-nil_right a a (omega arith)

bit_and-nil : (n a : ℕ) → a ≤ n → bit_and a 0 ≡ 0
bit_and-nil zero zero h = refl
bit_and-nil zero (suc a) h = absurd (omega arith)
bit_and-nil (suc n) zero h = refl
bit_and-nil (suc n) (suc a) h =
    omega (arith, bit_and-digit (suc a) 0, bit_and-nil n (suc a / 2) (omega arith))

pub bit_and-zero : (a : ℕ) → bit_and a 0 ≡ 0
bit_and-zero a = bit_and-nil a a (omega arith)

double : (q k : ℕ) → q * 2 ^ suc k ≡ 2 * (q * 2 ^ k)
double q k = omega (arith, ap (λ (t : ℕ). q * t) (pow-suc 2 k))

-- `r | (q << k)` where `r` has at most k bits.
pub bit_or-shl : (k r q : ℕ) → r < 2 ^ k → bit_or r (q * 2 ^ k) ≡ q * 2 ^ k + r
bit_or-shl zero r q h = ground (arith, zero-bit_or q)
bit_or-shl (suc k) r q h = ground (
  arith,
  bit_or-digit r (q * 2 ^ suc k),
  double q k,
  pow-suc 2 k,
  bit_or-shl k (r / 2) q (omega arith),
)

-- The same with the sides exchanged.
pub shl-bit_or : (k q r : ℕ) → r < 2 ^ k → bit_or (q * 2 ^ k) r ≡ q * 2 ^ k + r
shl-bit_or zero q r h = ground (arith, bit_or-zero q)
shl-bit_or (suc k) q r h = ground (
  arith,
  bit_or-digit (q * 2 ^ suc k) r,
  double q k,
  pow-suc 2 k,
  shl-bit_or k q (r / 2) (omega arith),
)

-- `a & (m << k)`, with `a` split at bit k.
bit_and-fields :
    (k q r m : ℕ) → r < 2 ^ k → bit_and (q * 2 ^ k + r) (m * 2 ^ k) ≡ bit_and q m * 2 ^ k
bit_and-fields zero q r m h = ground arith
bit_and-fields (suc k) q r m h = ground (
  arith,
  bit_and-digit (q * 2 ^ suc k + r) (m * 2 ^ suc k),
  double q k,
  double m k,
  double (bit_and q m) k,
  pow-suc 2 k,
  bit_and-fields k q (r / 2) m (omega arith),
)

pub bit_and-shl : (k a m : ℕ) → bit_and a (m * 2 ^ k) ≡ bit_and (a / 2 ^ k) m * 2 ^ k
bit_and-shl k a m = ground (arith, one-le-pow k 2, bit_and-fields k (a / 2 ^ k) (a % 2 ^ k) m)

-- `a & ((1 << k) - 1)`.
low_part : (k q r : ℕ) → r < 2 ^ k → bit_and (q * 2 ^ k + r) (2 ^ k - 1) ≡ r
low_part zero q r h = rw bit_and-zero (omega arith)
low_part (suc k) q r h = ground (
  arith,
  bit_and-digit (q * 2 ^ suc k + r) (2 ^ suc k - 1),
  double q k,
  pow-suc 2 k,
  one-le-pow k 2,
  low_part k q (r / 2) (omega arith),
)

pub bit_and-mask : (k a : ℕ) → bit_and a (2 ^ k - 1) ≡ a % 2 ^ k
bit_and-mask k a = ground (arith, one-le-pow k 2, low_part k (a / 2 ^ k) (a % 2 ^ k))
