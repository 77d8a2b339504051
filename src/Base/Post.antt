-- ===== src/Base/Post.antt =====
-- What holds of a result, whenever there is one.
use mathlib.Core.Path.{◌≡◌, refl, ap, ◌∙◌, subst}
use mathlib.Core.Bool.{Bool, true, false}
use tpe_protos.Base.Tests.{if◌then◌else◌}
use tpe_protos.Base.Fault.{Fault, Result, ok, err, ◌>>=◌}

pub record Holds {ℓ} {A : Type ℓ} (P : A → Type 0) (r : Result A) : Type ℓ where
  pub on_ok : (a : A) → r ≡ ok a → P a

module _ {ℓ} {A : Type ℓ} where
  pub ok-inj : {a b : A} → ok a ≡ ok b → a ≡ b
  ok-inj e = cc

  pub err-inj : {f g : Fault} → ◌≡◌ {A = Result A} (err f) (err g) → f ≡ g
  err-inj e = cc

  pub ok-ne_err : {a : A} {f : Fault} → err f ≡ ok a → ⊥
  ok-ne_err e = cc

  pub Holds-err : {P : A → Type 0} (f : Fault) → Holds P (err f)
  Holds-err f = record { on_ok = λ a e. absurd (ok-ne_err e) }

  pub Holds-value : {P : A → Type 0} (a : A) → P a → Holds P (ok a)
  Holds-value {P} a h = record { on_ok = λ b e. subst P (ok-inj e) h }

  pub Holds-always : {P : A → Type 0} (r : Result A) → ((a : A) → P a) → Holds P r
  Holds-always r h = record { on_ok = λ a _. h a }

  pub Holds-implies :
      {P Q : A → Type 0} (r : Result A) → Holds P r → ((a : A) → P a → Q a) → Holds Q r
  Holds-implies r h imp = record { on_ok = λ a e. imp a (h.on_ok a e) }

  pub Holds-if :
      {P : A → Type 0} (b : Bool) (r s : Result A)
      → (b ≡ true → Holds P r)
      → (b ≡ false → Holds P s)
      → Holds P (if b then r else s)
  Holds-if true r s h k = h refl
  Holds-if false r s h k = k refl

module _ {ℓ κ} {A : Type ℓ} {B : Type κ} where
  -- The equation for what is bound is at hand behind it.
  pub Holds-then :
      {Q : B → Type 0} (r : Result A) (f : A → Result B)
      → ((a : A) → r ≡ ok a → Holds Q (f a))
      → Holds Q (r >>= f)
  Holds-then (err f) g k = Holds-err f
  Holds-then (ok a) g k = k a refl

  pub Holds-bind :
      {P : A → Type 0} {Q : B → Type 0} (r : Result A) (f : A → Result B)
      → Holds P r
      → ((a : A) → P a → Holds Q (f a))
      → Holds Q (r >>= f)
  Holds-bind r f h k = Holds-then r f (λ a e. k a (h.on_ok a e))

  pub bind-ok :
      {m : Result A} {a : A} (f : A → Result B) {r : Result B} → m ≡ ok a → f a ≡ r → (m >>= f) ≡ r
  bind-ok f e h = ap (λ x. x >>= f) e ∙ h
