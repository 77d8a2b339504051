-- ===== src/Base/Fault.antt =====
-- What C leaves undefined, and what ends the process: the error of a result.
use Prim.Native.Nat.{ℕ}
use mathlib.Core.Option.{Option, none, some}
use mathlib.Core.Path.{◌≡◌, refl}
use mathlib.Core.Logic.{◌⊎◌, inl, inr}
use mathlib.Core.Bool.{Bool, true, false}
use mathlib.Core.List.{List}
use tpe_protos.Base.Lists.{get_elem?, set, length}
use tpe_protos.Base.Tests.{ltb, if◌then◌else◌}

-- `assert_failed` is a failed `assert`, `aborted` a call of `abort` or `exit`, `out_of_bounds` an
-- access outside an array or through a null pointer, `uninitialized` a read of a variable that was
-- never written, `overflow` a number that its type cannot hold, and `out_of_fuel` a loop of the
-- model that was given too few rounds.
pub data Fault : Type 0 where
  assert_failed aborted out_of_bounds uninitialized overflow out_of_fuel : Fault

pub data Result {ℓ} (A : Type ℓ) : Type ℓ where
  err : Fault → Result A
  ok : A → Result A

infixl 5 ◌>>=◌ ◌>>◌
abbrev pub ◌>>=◌ {ℓ κ} : {A : Type ℓ} {B : Type κ} → Result A → (A → Result B) → Result B
err fault >>= rest = err fault
ok value >>= rest = rest value

abbrev pub ◌>>◌ {κ} : {B : Type κ} → Result (Unit {0}) → Result B → Result B
err fault >> rest = err fault
ok done >> rest = rest

-- `assert`
abbrev pub assert : Bool → Result (Unit {0})
assert true = ok tt
assert false = err assert_failed

abbrev pub load_from {ℓ} : {A : Type ℓ} → Option A → Result A
load_from none = err out_of_bounds
load_from (some a) = ok a

-- The array accesses `a[i]` and `a[i] = v`.
abbrev pub load {ℓ} : {A : Type ℓ} → List A → ℕ → Result A
load xs i = load_from (get_elem? xs i)

abbrev pub store {ℓ} : {A : Type ℓ} → List A → ℕ → A → Result (List A)
store xs i v = if ltb i (length xs) then ok (set xs i v) else err out_of_bounds

pub Result-cases {ℓ} :
    {A : Type ℓ} (r : Result A) → ((a : A) × (r ≡ ok a)) ⊎ ((f : Fault) × (r ≡ err f))
Result-cases (ok a) = inl (a, refl)
Result-cases (err f) = inr (f, refl)
