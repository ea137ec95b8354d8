-- ===== src/Prelude/Keeps.antt =====
-- Invariants of the state, operation by operation.
use wifi_sniffer.Prelude.{◌≡◌, refl, Bool, true, false, Option, none, some, if◌then◌else◌}
use wifi_sniffer.Prelude.Results.{
  Err, Outcome, done, aborted, fault, Exec, pure, checked, error_check, modify, gets, ◌>>=◌,
}

-- The state that an operation returns in has `P`.
abbrev pub Returns : {S A : Type 0} → (S → Type 0) → Outcome S A → Type 0
Returns P (done a t) = P t
Returns P (aborted e t) = P t
Returns P fault = Unit

-- From a state with `P`, an operation that returns or aborts leaves a state with `P`.
pub record Keeps {S A : Type 0} (P : S → Type 0) (m : Exec S A) : Type 0 where
  pub keeps : (s : S) → P s → Returns P (m s)

module _ {S : Type 0} {P : S → Type 0} where
  pub Keeps-bind :
      {A B : Type 0} {m : Exec S A} {f : A → Exec S B}
      → Keeps P m
      → ((a : A) → Keeps P (f a))
      → Keeps P (m >>= f)
  Keeps-bind {A} {B} {m} {f} km kf = record { keeps = λ s p. go (m s) (km.keeps s p) }
    where
      go :
          (o : Outcome S A)
          → Returns P o
          → Returns P (elim o as (λ _. Outcome S B) [
            | done a t ↦ f a t
            | aborted e t ↦ aborted e t
            | fault ↦ fault
          ])
      go (done a t) q = (kf a).keeps t q
      go (aborted e t) q = q
      go fault q = tt

  pub Keeps-pure : {A : Type 0} (a : A) → Keeps P (pure {S = S} a)
  Keeps-pure a = record { keeps = λ s p. p }

  pub Keeps-gets : {A : Type 0} (f : S → A) → Keeps P (gets f)
  Keeps-gets f = record { keeps = λ s p. p }

  pub Keeps-modify : (f : S → S) → ((s : S) → P s → P (f s)) → Keeps P (modify f)
  Keeps-modify f k = record { keeps = k }

  pub Keeps-checked : {A : Type 0} (o : Option A) → Keeps P (checked {S = S} o)
  Keeps-checked none = record { keeps = λ s p. tt }
  Keeps-checked (some a) = record { keeps = λ s p. p }

  pub Keeps-error_check : (e : Err) → Keeps P (error_check e)
  Keeps-error_check e = record { keeps = λ s p. go e s p }
    where
      go : (e : Err) (s : S) → P s → Returns P (error_check e s)
      go Err.esp_ok s p = p
      go Err.nvs_not_found s p = p
      go Err.nvs_type_mismatch s p = p
      go Err.nvs_value_too_long s p = p
      go Err.nvs_no_free_pages s p = p
      go Err.nvs_new_version_found s p = p
      go Err.timeout s p = p
      go (Err.other _) s p = p

  pub Keeps-if :
      {A : Type 0} (b : Bool) {m n : Exec S A}
      → Keeps P m
      → Keeps P n
      → Keeps P (if b then m else n)
  Keeps-if true km kn = km
  Keeps-if false km kn = kn

-- What is true of the value that an operation returns, whatever state it starts from.
abbrev pub Answers : {S A : Type 0} → (A → Type 0) → Outcome S A → Type 0
Answers Q (done a t) = Q a
Answers Q (aborted e t) = Unit
Answers Q fault = Unit

pub record Gives {S A : Type 0} (Q : A → Type 0) (m : Exec S A) : Type 0 where
  pub gives : (s : S) → Answers Q (m s)

module _ {S A B : Type 0} {m : Exec S A} {f : A → Exec S B} where
  pub Gives-bind :
      {Q : B → Type 0} {R : A → Type 0}
      → Gives R m
      → ((a : A) → R a → Gives Q (f a))
      → Gives Q (m >>= f)
  Gives-bind {Q} {R} gm gf = record { gives = λ s. go (m s) (gm.gives s) }
    where
      go :
          (o : Outcome S A)
          → Answers R o
          → Answers Q (elim o as (λ _. Outcome S B) [
            | done a t ↦ f a t
            | aborted e t ↦ aborted e t
            | fault ↦ fault
          ])
      go (done a t) r = (gf a r).gives t
      go (aborted e t) r = tt
      go fault r = tt

  pub Keeps-bind_with :
      {P : S → Type 0} {R : A → Type 0}
      → Keeps P m
      → Gives R m
      → ((a : A) → R a → Keeps P (f a))
      → Keeps P (m >>= f)
  Keeps-bind_with {P} {R} km gm kf = record { keeps = λ s p. go (m s) (km.keeps s p) (gm.gives s) }
    where
      go :
          (o : Outcome S A)
          → Returns P o
          → Answers R o
          → Returns P (elim o as (λ _. Outcome S B) [
            | done a t ↦ f a t
            | aborted e t ↦ aborted e t
            | fault ↦ fault
          ])
      go (done a t) p r = (kf a r).keeps t p
      go (aborted e t) p r = p
      go fault p r = tt

pub Gives-any : {S A : Type 0} (m : Exec S A) → Gives (λ _. Unit) m
Gives-any {S} {A} m = record { gives = λ s. go (m s) }
  where
    go : (o : Outcome S A) → Answers (λ _. Unit) o
    go (done a t) = tt
    go (aborted e t) = tt
    go fault = tt

pub Gives-pure : {S A : Type 0} {Q : A → Type 0} (a : A) → Q a → Gives Q (pure {S = S} a)
Gives-pure a q = record { gives = λ s. q }

pub Gives-checked :
    {S A : Type 0} {Q : A → Type 0} (o : Option A)
    → ((a : A) → o ≡ some a → Q a)
    → Gives Q (checked {S = S} o)
Gives-checked none h = record { gives = λ s. tt }
Gives-checked (some a) h = record { gives = λ s. h a refl }

pub Gives-if :
    {S A : Type 0} {Q : A → Type 0} (b : Bool) {m n : Exec S A}
    → Gives Q m
    → Gives Q n
    → Gives Q (if b then m else n)
Gives-if true gm gn = gm
Gives-if false gm gn = gn
