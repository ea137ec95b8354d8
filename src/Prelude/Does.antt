-- ===== src/Prelude/Does.antt =====
-- An operation that returns, and what it then makes true.
use wifi_sniffer.Prelude.{◌≡◌, ◌∙◌}
use wifi_sniffer.Prelude.Results.{done, Exec, bind_done, ◌>>=◌}

-- From `s`, the operation returns, with `Q` of its result and of the state.
abbrev pub Does : {S A : Type 0} → Exec S A → S → (A → S → Type 0) → Type 0
Does {S} {A} m s Q = (a : A) × (t : S) × (m s ≡ done a t) × Q a t

pub Does-bind :
    {S A B : Type 0} (m : Exec S A) (f : A → Exec S B) (s : S) {R : A → S → Type 0}
    {Q : B → S → Type 0}
    → Does m s R
    → ((a : A) (t : S) → R a t → Does (f a) t Q)
    → Does (m >>= f) s Q
Does-bind m f s (a, t, e, r) k =
    let (b, u, e', q) = k a t r in (b, u, bind_done m f s t a e ∙ e', q)
