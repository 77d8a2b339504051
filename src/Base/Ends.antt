-- ===== src/Base/Ends.antt =====
-- How a fallible computation ends, on every branch: what holds of its value, or of its fault.
use mathlib.Core.Path.{◌≡◌, refl, sym, subst}
use mathlib.Core.Logic.{◌⊎◌, inl, inr}
use mathlib.Core.Bool.{Bool, true, false}
use tpe_protos.Base.Tests.{if◌then◌else◌}
use tpe_protos.Base.Fault.{Fault, Result, ok, err, ◌>>=◌}
use tpe_protos.Base.Post.{Holds, ok-inj, ok-ne_err}

pub data Yields {ℓ} {A : Type ℓ} (P : A → Type 0) (Q : Fault → Type 0) : Result A → Type ℓ where
  returns : (a : A) → P a → Yields P Q (ok a)
  faults : (f : Fault) → Q f → Yields P Q (err f)

module _ {ℓ} {A : Type ℓ} where
  pub Yields-implies :
      {P P' : A → Type 0} {Q Q' : Fault → Type 0} {r : Result A}
      → Yields P Q r
      → ((a : A) → P a → P' a)
      → ((f : Fault) → Q f → Q' f)
      → Yields P' Q' r
  Yields-implies (returns a p) g h = returns a (g a p)
  Yields-implies (faults f q) g h = faults f (h f q)

  -- What holds of a value, if there is one, is added to what it yields.
  pub Yields-Holds :
      {P P' : A → Type 0} {Q : Fault → Type 0} {r : Result A}
      → Yields P Q r
      → Holds P' r
      → Yields (λ a. P a × P' a) Q r
  Yields-Holds (returns a p) h = returns a (p, h.on_ok a refl)
  Yields-Holds (faults f q) h = faults f q

  pub Yields-if :
      {P : A → Type 0} {Q : Fault → Type 0} (b : Bool) {r s : Result A}
      → (b ≡ true → Yields P Q r)
      → (b ≡ false → Yields P Q s)
      → Yields P Q (if b then r else s)
  Yields-if true h k = h refl
  Yields-if false h k = k refl

module _ {ℓ κ} {A : Type ℓ} {B : Type κ} where
  pub Yields-bind :
      {P : A → Type 0} {P' : B → Type 0} {Q Q' : Fault → Type 0} {r : Result A} (k : A → Result B)
      → Yields P Q r
      → ((f : Fault) → Q f → Q' f)
      → ((a : A) → r ≡ ok a → P a → Yields P' Q' (k a))
      → Yields P' Q' (r >>= k)
  Yields-bind k (returns a p) h g = g a refl p
  Yields-bind k (faults f q) h g = faults f (h f q)

  -- A computation that is known to succeed.
  pub Yields-after :
      {P : B → Type 0} {Q : Fault → Type 0} {r : Result A} {a : A} (k : A → Result B)
      → r ≡ ok a
      → Yields P Q (k a)
      → Yields P Q (r >>= k)
  Yields-after {P} {Q} k e h = subst (λ r. Yields P Q (r >>= k)) (sym e) h

pub Yields-cases {ℓ} :
    {A : Type ℓ} {P : A → Type 0} {Q : Fault → Type 0} {r : Result A}
    → Yields P Q r
    → ((a : A) × (r ≡ ok a) × P a) ⊎ ((f : Fault) × (r ≡ err f) × Q f)
Yields-cases (returns a p) = inl (a, refl, p)
Yields-cases (faults f q) = inr (f, refl, q)

pub Yields-value {ℓ} :
    {A : Type ℓ} {P : A → Type 0} {Q : Fault → Type 0} {r : Result A} {a : A}
    → Yields P Q r
    → r ≡ ok a
    → P a
Yields-value {P} (returns b p) e = subst P (ok-inj e) p
Yields-value (faults f q) e = absurd (ok-ne_err e)
