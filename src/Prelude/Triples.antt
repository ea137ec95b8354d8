-- ===== src/Prelude/Triples.antt =====
-- What an operation makes true: a condition before it, and one of its result and its state after it.
use wifi_sniffer.Prelude.{◌≡◌, refl, Bool, true, false, Option, none, some, if◌then◌else◌}
use wifi_sniffer.Prelude.Keeps.{Returns, Keeps}
use wifi_sniffer.Prelude.Results.{
  Err, Outcome, done, aborted, fault, Exec, pure, checked, error_check, modify, gets, ◌>>=◌,
}

-- `Q` holds where the operation returns. After an abort the chip restarts.
abbrev pub Ends : {S A : Type 0} → (A → S → Type 0) → Outcome S A → Type 0
Ends Q (done a t) = Q a t
Ends Q (aborted e t) = Unit
Ends Q fault = Unit

pub record Triple {S A : Type 0} (P : S → Type 0) (m : Exec S A) (Q : A → S → Type 0) : Type 0 where
  pub ends : (s : S) → P s → Ends Q (m s)

module _ {S : Type 0} {P : S → Type 0} where
  pub Triple-bind :
      {A B : Type 0} {m : Exec S A} {f : A → Exec S B} {R : A → S → Type 0} {Q : B → S → Type 0}
      → Triple P m R
      → ((a : A) → Triple (R a) (f a) Q)
      → Triple P (m >>= f) Q
  Triple-bind {A} {B} {m} {f} {R} {Q} km kf = record { ends = λ s p. go (m s) (km.ends s p) }
    where
      go :
          (o : Outcome S A)
          → Ends R o
          → Ends Q (elim o as (λ _. Outcome S B) [
            | done a t ↦ f a t
            | aborted e t ↦ aborted e t
            | fault ↦ fault
          ])
      go (done a t) q = (kf a).ends t q
      go (aborted e t) q = tt
      go fault q = tt

  pub Triple-pure :
      {A : Type 0} {Q : A → S → Type 0} (a : A)
      → ((s : S) → P s → Q a s)
      → Triple P (pure {S = S} a) Q
  Triple-pure a h = record { ends = λ s p. h s p }

  pub Triple-gets : {A : Type 0} (f : S → A) → Triple P (gets f) (λ a s. P s × (a ≡ f s))
  Triple-gets f = record { ends = λ s p. (p, refl) }

  pub Triple-modify :
      {Q : Unit {0} → S → Type 0} (f : S → S) → ((s : S) → P s → Q tt (f s)) → Triple P (modify f) Q
  Triple-modify f h = record { ends = h }

  pub Triple-checked : {A : Type 0} (o : Option A) → Triple P (checked {S = S} o) (λ _. P)
  Triple-checked none = record { ends = λ s p. tt }
  Triple-checked (some a) = record { ends = λ s p. p }

  pub Triple-error_check : (e : Err) → Triple P (error_check e) (λ _. P)
  Triple-error_check e = record { ends = λ s p. go e s p }
    where
      go : (e : Err) (s : S) → P s → Ends (λ _. P) (error_check e s)
      go Err.esp_ok s p = p
      go Err.nvs_not_found s p = tt
      go Err.nvs_type_mismatch s p = tt
      go Err.nvs_value_too_long s p = tt
      go Err.nvs_no_free_pages s p = tt
      go Err.nvs_new_version_found s p = tt
      go Err.timeout s p = tt
      go (Err.other _) s p = tt

  pub Triple-if :
      {A : Type 0} {Q : A → S → Type 0} (b : Bool) {m n : Exec S A}
      → Triple P m Q
      → Triple P n Q
      → Triple P (if b then m else n) Q
  Triple-if true km kn = km
  Triple-if false km kn = kn

  pub Triple-Keeps : {A : Type 0} {m : Exec S A} → Keeps P m → Triple P m (λ _. P)
  Triple-Keeps {A} {m} km = record { ends = λ s p. go (m s) (km.keeps s p) }
    where
      go : (o : Outcome S A) → Returns P o → Ends (λ _. P) o
      go (done a t) q = q
      go (aborted e t) q = tt
      go fault q = tt

  pub Triple-after :
      {A : Type 0} {m : Exec S A} {Q R : A → S → Type 0}
      → Triple P m Q
      → ((a : A) (s : S) → Q a s → R a s)
      → Triple P m R
  Triple-after {A} {m} {Q} {R} km h = record { ends = λ s p. go (m s) (km.ends s p) }
    where
      go : (o : Outcome S A) → Ends Q o → Ends R o
      go (done a t) q = h a t q
      go (aborted e t) q = tt
      go fault q = tt
