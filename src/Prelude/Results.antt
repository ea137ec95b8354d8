-- ===== src/Prelude/Results.antt =====
-- What a C function that changes state can do: return, end in `abort()` through ESP_ERROR_CHECK, or
-- run into behaviour that C leaves undefined (a read or write out of range, an unset variable).
use Prim.Native.Nat.{ℕ}
use mathlib.Core.Path.{◌≡◌, refl, ap}
use native.Mathlib.Omega.{arith}
use mathlib.Core.Bool.{Bool, true, false}
use mathlib.Core.Option.{Option, none, some}

-- The `esp_err_t` codes that the source names, and the rest.
pub data Err : Type 0 where
  esp_ok nvs_not_found nvs_type_mismatch nvs_value_too_long : Err
  nvs_no_free_pages nvs_new_version_found timeout : Err
  other : ℕ → Err

abbrev pub is_ok : Err → Bool
is_ok Err.esp_ok = true
is_ok _ = false

abbrev pub is_not_found : Err → Bool
is_not_found Err.nvs_not_found = true
is_not_found _ = false

pub data Outcome {ℓ} (S A : Type ℓ) : Type ℓ where
  done : A → S → Outcome S A
  aborted : Err → S → Outcome S A
  fault : Outcome S A

abbrev pub Exec {ℓ} : Type ℓ → Type ℓ → Type ℓ
Exec S A = S → Outcome S A

abbrev pub pure {ℓ} : {S A : Type ℓ} → A → Exec S A
pure a s = done a s

infixl 5 ◌>>=◌ ◌>>◌
abbrev pub ◌>>=◌ {ℓ} : {S A B : Type ℓ} → Exec S A → (A → Exec S B) → Exec S B
◌>>=◌ m f s = elim (m s) [ done a t ↦ f a t | aborted e t ↦ aborted e t | fault ↦ fault ]

abbrev pub ◌>>◌ {ℓ} : {S A B : Type ℓ} → Exec S A → Exec S B → Exec S B
m >> k = m >>= λ _. k

abbrev pub gets {ℓ} : {S A : Type ℓ} → (S → A) → Exec S A
gets f s = done (f s) s

abbrev pub modify : {S : Type 0} → (S → S) → Exec S (Unit {0})
modify f s = done tt (f s)

abbrev pub undefined {ℓ} : {S A : Type ℓ} → Exec S A
undefined s = fault

-- A pure computation that may read or write out of range.
abbrev pub checked {ℓ} : {S A : Type ℓ} → Option A → Exec S A
checked none s = fault
checked (some a) s = done a s

-- ESP_ERROR_CHECK
abbrev pub error_check : {S : Type 0} → Err → Exec S (Unit {0})
error_check Err.esp_ok s = done tt s
error_check e s = aborted e s

-- A step that returns, before the rest.
pub bind_done {ℓ} :
    {S A B : Type ℓ} (m : Exec S A) (f : A → Exec S B) (s t : S) (a : A)
    → m s ≡ done a t
    → (m >>= f) s ≡ f a t
bind_done {S} {A} {B} m f s t a e =
    ap
      (λ (o : Outcome S A). elim o as (λ _. Outcome S B) [
        | done a t ↦ f a t
        | aborted e t ↦ aborted e t
        | fault ↦ fault
      ])
      e

-- A step whose result is replaced.
pub as_unit :
    {S A : Type 0} (m : Exec S (Unit {0})) (a : A) (s : S) → ((m >> pure a) >> pure tt) s ≡ m s
as_unit {S} {A} m a s = elim (m s) as (λ o. (((λ (_ : S). o) >> pure a) >> pure tt) s ≡ o) [
  | done u t ↦ refl
  | aborted e t ↦ refl
  | fault ↦ refl
]

-- Two steps that do the same from `s`, before the rest.
pub bind_same :
    {S A B : Type 0} (m n : Exec S A) (f : A → Exec S B) (s : S)
    → m s ≡ n s
    → (m >>= f) s ≡ (n >>= f) s
bind_same {S} {A} {B} m n f s e =
    ap
      (λ (o : Outcome S A). elim o as (λ _. Outcome S B) [
        | done a t ↦ f a t
        | aborted e t ↦ aborted e t
        | fault ↦ fault
      ])
      e

-- Two ways to go on that do the same, whatever the first step left.
pub bind_cong :
    {S A B : Type 0} (m : Exec S A) (f g : A → Exec S B) (s : S)
    → ((a : A) (t : S) → f a t ≡ g a t)
    → (m >>= f) s ≡ (m >>= g) s
bind_cong {S} m f g s same =
    elim (m s) as (λ o. ((λ (_ : S). o) >>= f) s ≡ ((λ (_ : S). o) >>= g) s) [
      | done a t ↦ same a t
      | aborted e t ↦ refl
      | fault ↦ refl
    ]

pub bind_assoc :
    {S A B C : Type 0} (m : Exec S A) (f : A → Exec S B) (g : B → Exec S C) (s : S)
    → ((m >>= f) >>= g) s ≡ (m >>= λ a. f a >>= g) s
bind_assoc {S} m f g s =
    elim (m s) as (λ o. (((λ (_ : S). o) >>= f) >>= g) s ≡ ((λ (_ : S). o) >>= λ a. f a >>= g) s) [
      | done a t ↦ refl
      | aborted e t ↦ refl
      | fault ↦ refl
    ]

-- An operation that returned had its first step return.
pub bind_inv :
    {S A B : Type 0} (m : Exec S A) (f : A → Exec S B) (s u : S) (b : B)
    → (m >>= f) s ≡ done b u
    → (a : A) × (t : S) × (m s ≡ done a t) × (f a t ≡ done b u)
bind_inv {S} {A} {B} m f s u b e = go (m s) refl e
  where
    go :
        (o : Outcome S A)
        → m s ≡ o
        → (elim o as (λ _. Outcome S B) [
          | done a t ↦ f a t
          | aborted x t ↦ aborted x t
          | fault ↦ fault
        ])
          ≡ done b u
        → (a : A) × (t : S) × (m s ≡ done a t) × (f a t ≡ done b u)
    go (done a t) p q = (a, t, p, q)
    go (aborted x t) p q = absurd (ground arith)
    go fault p q = absurd (ground arith)
