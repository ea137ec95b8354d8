-- ===== src/Prelude/Partial.antt =====
-- `Option` as a monad: `none` is a read or write out of range, which C leaves undefined.
use mathlib.Core.Option.{Option, none, some}

infixl 5 ◌>>=◌
abbrev pub ◌>>=◌ {ℓ κ} : {A : Type ℓ} {B : Type κ} → Option A → (A → Option B) → Option B
none >>= k = none
some a >>= k = k a

-- The same, for a file that also composes operations.
infixl 5 ◌>>=?◌
abbrev pub ◌>>=?◌ {ℓ} : {A B : Type ℓ} → Option A → (A → Option B) → Option B
none >>=? f = none
some a >>=? f = f a
