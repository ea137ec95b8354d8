-- ===== src/Prelude/Lists.antt =====
-- Lists measured by native numbers, under the library's names.
use Prim.Native.Nat.{ℕ, zero, suc, ◌+◌, ◌-◌, ◌≤◌}
use mathlib.Core.Path.{◌≡◌, refl, ap, ◌∙◌}
use mathlib.Core.List.{List, [], ◌∷◌, ◌++◌}
use mathlib.Core.Option.{Option, none, some}
use native.Mathlib.Omega.{arith}

module _ {ℓ} {A : Type ℓ} where
  abbrev pub length : List A → ℕ
  length [] = 0
  length (_ ∷ l) = suc (length l)

  abbrev pub get_elem? : List A → ℕ → Option A
  get_elem? [] _ = none
  get_elem? (a ∷ _) zero = some a
  get_elem? (_ ∷ l) (suc i) = get_elem? l i

  abbrev pub take : ℕ → List A → List A
  take zero _ = []
  take (suc n) [] = []
  take (suc n) (a ∷ l) = a ∷ take n l

  abbrev pub drop : ℕ → List A → List A
  drop zero l = l
  drop (suc n) [] = []
  drop (suc n) (_ ∷ l) = drop n l

  abbrev pub replicate : ℕ → A → List A
  replicate zero a = []
  replicate (suc n) a = a ∷ replicate n a

module _ {ℓ} {A : Type ℓ} where
  pub length-append : (l m : List A) → length (l ++ m) ≡ length l + length m
  length-append [] m = omega arith
  length-append (_ ∷ l) m = omega (arith, length-append l m)

  pub length-replicate : (n : ℕ) (a : A) → length (replicate n a) ≡ n
  length-replicate zero a = refl
  length-replicate (suc n) a = ap suc (length-replicate n a)

  pub length-take : (n : ℕ) (l : List A) → n ≤ length l → length (take n l) ≡ n
  length-take zero l h = refl
  length-take (suc n) [] h = absurd (omega arith)
  length-take (suc n) (_ ∷ l) h = omega (arith, length-take n l (omega arith))

  pub length-drop : (n : ℕ) (l : List A) → length (drop n l) ≡ length l - n
  length-drop zero l = omega arith
  length-drop (suc n) [] = omega arith
  length-drop (suc n) (_ ∷ l) = omega (arith, length-drop n l)

  pub take-append : (l m : List A) → take (length l) (l ++ m) ≡ l
  take-append [] m = refl
  take-append (a ∷ l) m = ap (λ t. a ∷ t) (take-append l m)

  pub drop-append : (l m : List A) → drop (length l) (l ++ m) ≡ m
  drop-append [] m = refl
  drop-append (_ ∷ l) m = drop-append l m

  pub take-all : (n : ℕ) (l : List A) → length l ≤ n → take n l ≡ l
  take-all zero [] h = refl
  take-all zero (_ ∷ l) h = absurd (omega arith)
  take-all (suc n) [] h = refl
  take-all (suc n) (a ∷ l) h = ap (λ t. a ∷ t) (take-all n l (omega arith))

  pub take-take_le : (n m : ℕ) (l : List A) → n ≤ m → take n (take m l) ≡ take n l
  take-take_le zero m l h = refl
  take-take_le (suc n) zero l h = absurd (omega arith)
  take-take_le (suc n) (suc m) [] h = refl
  take-take_le (suc n) (suc m) (a ∷ l) h = ap (λ t. a ∷ t) (take-take_le n m l (omega arith))

  pub take-append_le : (n : ℕ) (l m : List A) → n ≤ length l → take n (l ++ m) ≡ take n l
  take-append_le zero l m h = refl
  take-append_le (suc n) [] m h = absurd (omega arith)
  take-append_le (suc n) (a ∷ l) m h = ap (λ t. a ∷ t) (take-append_le n l m (omega arith))

  pub get_elem?-append : (l m : List A) (k : ℕ) → get_elem? (l ++ m) (length l + k) ≡ get_elem? m k
  get_elem?-append [] m k = ap (get_elem? m) (omega arith)
  get_elem?-append (a ∷ l) m k =
      (λ i. get_elem? (a ∷ (l ++ m)) (suc_add i)) ∙ get_elem?-append l m k
    where
      suc_add : suc (length l) + k ≡ suc (length l + k)
      suc_add = omega arith

  pub take-append_add : (l m : List A) (k : ℕ) → take (length l + k) (l ++ m) ≡ l ++ take k m
  take-append_add [] m k = ap (λ i. take i m) (omega arith)
  take-append_add (a ∷ l) m k =
      (λ i. take (count_suc i) (a ∷ (l ++ m))) ∙ ap (λ t. a ∷ t) (take-append_add l m k)
    where
      count_suc : suc (length l) + k ≡ suc (length l + k)
      count_suc = omega arith
