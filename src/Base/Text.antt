-- ===== src/Base/Text.antt =====
-- Lines of text and C strings as lists of bytes.
use Prim.Native.Nat.{ℕ, suc, ◌+◌, ◌≤◌}
use native.Mathlib.Omega.{arith}
use tpe_protos.Base.Post.{ok-ne_err, err-inj, Holds, Holds-err, Holds-value, Holds-if, Holds-bind}
use Prim.Native.Char.{code}
use Prim.Native.String.{String}
use mathlib.Core.Path.{◌≡◌, refl, sym, ◌∙◌, ap₂}
use mathlib.Core.Logic.{◌≢◌, inl, inr}
use mathlib.Core.Bool.{Bool, true, false, ◌&&◌}
use mathlib.Core.List.{List, [], ◌∷◌, ◌++◌}
use tpe_protos.Base.Tests.{◌==◌, leb, if◌then◌else◌, Bool-cases, equal→≡, equal_refl, true-ne_false}
use tpe_protos.Base.Lists.{length, take, drop, length-append, length-take, length-drop}
use tpe_protos.Base.Fault.{Fault, Result-cases, Result, ok, err, out_of_bounds, ◌>>=◌}

-- A line has no carriage return.
abbrev pub IsLine : List ℕ → Type 0
IsLine [] = Unit {0}
IsLine (c ∷ w) = (c ≢ b'\r') × IsLine w

-- The code points of a text. Every text literal of the development is ASCII, so they are its bytes.
abbrev pub codes : String → List ℕ
codes String.[] = []
codes (String.◌∷◌ c s) = code c ∷ codes s

-- The string at the start of an array: the bytes in front of the first zero. A string that has
-- no end in its array is read past it.
abbrev pub c_string : List ℕ → Result (List ℕ)
c_string [] = err out_of_bounds
c_string (c ∷ cs) = let rest = c_string cs >>= λ s. ok (c ∷ s) in if c == 0 then ok [] else rest

-- `strcpy` to the index `at` of an array: the bytes and a zero.
abbrev pub string_copy : List ℕ → ℕ → List ℕ → Result (List ℕ)
string_copy memory at s =
    if leb (at + length s + 1) (length memory)
    then ok (take at memory ++ (s ++ (0 ∷ drop (at + length s + 1) memory)))
    else err out_of_bounds

-- `strcmp(a, b) == 0`
abbrev pub same_text : List ℕ → List ℕ → Bool
same_text [] [] = true
same_text (x ∷ a) (y ∷ b) = (x == y) && same_text a b
same_text _ _ = false

pub same_text_refl : (a : List ℕ) → same_text a a ≡ true
same_text_refl [] = refl
same_text_refl (x ∷ a) = rw (equal_refl x) (same_text_refl a)

pub same_text→≡ : (a b : List ℕ) → same_text a b ≡ true → a ≡ b
same_text→≡ [] [] e = refl
same_text→≡ [] (y ∷ b) e = absurd cc
same_text→≡ (x ∷ a) [] e = absurd cc
same_text→≡ (x ∷ a) (y ∷ b) e = elim (Bool-cases (x == y)) [
  | inl h ↦ ap₂ ◌∷◌ (equal→≡ x y h) (same_text→≡ a b (rw h at e))
  | inr h ↦ absurd (true-ne_false (sym (rw h at e)))
]

-- A string has no zero.
abbrev pub IsText : List ℕ → Type 0
IsText [] = Unit {0}
IsText (c ∷ s) = (c ≢ 0) × IsText s

pub c_string-ended : (s rest : List ℕ) → IsText s → c_string (s ++ (0 ∷ rest)) ≡ ok s
c_string-ended [] rest h = refl
c_string-ended (c ∷ s) rest (ne, h) = elim (Bool-cases (c == 0)) [
  | inl e ↦ absurd (ne (equal→≡ c 0 e))
  | inr e ↦ rw (e, c_string-ended s rest h) refl
]

pub append-IsText : (s t : List ℕ) → IsText s → IsText t → IsText (s ++ t)
append-IsText [] t h k = k
append-IsText (c ∷ s) t (ne, h) k = (ne, append-IsText s t h k)

-- A string is shorter than its array.
pub c_string-short : (xs : List ℕ) → Holds (λ s. suc (length s) ≤ length xs) (c_string xs)
c_string-short [] = Holds-err out_of_bounds
c_string-short (c ∷ cs) =
    Holds-if (c == 0) _ _ (λ _. Holds-value _ (omega arith))
      (λ _.
        Holds-bind (c_string cs) _ (c_string-short cs) (λ s h. Holds-value _ (omega (arith, h))))

-- A copy that fits, with its zero, keeps the size of the memory.
pub string_copy-fits :
    (memory : List ℕ) (at : ℕ) (s : List ℕ)
    → at + length s + 1 ≤ length memory
    → (memory' : List ℕ) × (string_copy memory at s ≡ ok memory') × (length memory' ≡ length memory)
string_copy-fits memory at s h = (
  take at memory ++ (s ++ (0 ∷ drop (at + length s + 1) memory)),
  ground arith,
  omega (
    arith,
    length-append (take at memory) (s ++ (0 ∷ drop (at + length s + 1) memory)),
    length-append s (0 ∷ drop (at + length s + 1) memory),
    length-take at memory,
    length-drop (at + length s + 1) memory,
  ),
)

-- A string without an end is read past its array, and that is its only fault.
pub c_string-fault : (xs : List ℕ) {f : Fault} → c_string xs ≡ err f → f ≡ out_of_bounds
c_string-fault [] h = cc
c_string-fault (c ∷ cs) {f} h = elim (Bool-cases (c == 0)) [
  | inl end ↦ absurd (ok-ne_err (sym (rw end at h)))
  | inr more ↦ elim (Result-cases (c_string cs)) [
    | inl (s, e) ↦ absurd (ok-ne_err (sym (rw (more, e) at h)))
    | inr (g, e) ↦ sym (err-inj (rw (more, e) at h)) ∙ c_string-fault cs e
  ]
]
