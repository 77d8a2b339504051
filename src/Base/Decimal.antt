-- ===== src/Base/Decimal.antt =====
-- Numbers in decimal, as `printf` writes and `strtol` reads them.
use Prim.Native.Nat.{ℕ, zero, suc, ◌+◌, ◌-◌, ◌*◌, ◌/◌, ◌%◌, ◌≤◌, ◌<◌}
use mathlib.Core.Path.{◌≡◌, refl, ap, ◌∙◌}
use mathlib.Core.Logic.{inl, inr}
use mathlib.Core.Bool.{Bool, true, ◌&&◌}
use mathlib.Core.List.{List, [], ◌∷◌, ◌++◌}
use native.Mathlib.Omega.{arith}
use tpe_protos.Base.Tests.{ltb, leb, ltb→lt, if◌then◌else◌, Bool-cases}
use tpe_protos.Base.Int.{ℤ, pos, negsuc}

-- The digits of `n` in front of `rest`, with the rounds left.
unfoldable pub digits : ℕ → ℕ → List ℕ → List ℕ
digits zero n rest = (b'0' + n) ∷ rest
digits (suc k) n rest =
    let more = digits k (n / 10) ((b'0' + n % 10) ∷ rest) in
    if ltb n 10 then (b'0' + n) ∷ rest else more

-- `%d` and `%ld`; a number has at most as many digits as its value, and one.
unfoldable pub decimal : ℕ → List ℕ
unfolding digits
decimal n = digits n n []

abbrev pub decimal_ℤ : ℤ → List ℕ
decimal_ℤ (pos n) = decimal n
decimal_ℤ (negsuc n) = b'-' ∷ decimal (suc n)

abbrev pub is_digit : ℕ → Bool
is_digit c = leb b'0' c && leb c b'9'

-- The value of the digits at the start of a text behind `value`, and what follows them.
abbrev pub read_digits : ℕ → List ℕ → ℕ × List ℕ
read_digits value [] = (value, [])
read_digits value (c ∷ s) =
    let more = read_digits (value * 10 + (c - b'0')) s in
    if is_digit c then more else (value, c ∷ s)

digit : (d : ℕ) → d < 10 → is_digit (b'0' + d) ≡ true
digit d h = ground arith

read_digit :
    (value d : ℕ) (s : List ℕ)
    → d < 10
    → read_digits value ((b'0' + d) ∷ s) ≡ read_digits (value * 10 + d) s
read_digit value d s h = let e : b'0' + d - b'0' ≡ d = omega arith in rw (digit d h, e) refl

ten_less : (n k : ℕ) → n ≤ suc k → n / 10 ≤ k
ten_less n k h = omega arith

read_digits-digits :
    (k n : ℕ) (rest : List ℕ) → n ≤ k → read_digits 0 (digits k n rest) ≡ read_digits n rest
unfolding digits
read_digits-digits zero n rest h =
    read_digit 0 n rest (omega arith) ∙ ap (λ v. read_digits v rest) (omega arith)
read_digits-digits (suc k) n rest h = elim (Bool-cases (ltb n 10)) [
  | inl small ↦
      rw small
        (read_digit 0 n rest (ltb→lt n 10 small) ∙ ap (λ v. read_digits v rest) (omega arith))
  | inr large ↦ rw large (
      read_digits-digits k (n / 10) ((b'0' + n % 10) ∷ rest) (ten_less n k h)
      ∙ read_digit (n / 10) (n % 10) rest (omega arith)
      ∙ ap (λ v. read_digits v rest) (omega arith))
]

digits-append : (k n : ℕ) (xs ys : List ℕ) → digits k n xs ++ ys ≡ digits k n (xs ++ ys)
unfolding digits
digits-append zero n xs ys = refl
digits-append (suc k) n xs ys = elim (Bool-cases (ltb n 10)) [
  | inl small ↦ rw small refl
  | inr large ↦ rw large (digits-append k (n / 10) ((b'0' + n % 10) ∷ xs) ys)
]

-- What is written in decimal is read as the same number, whatever follows.
pub read_digits-decimal :
    (n : ℕ) (rest : List ℕ) → read_digits 0 (decimal n ++ rest) ≡ read_digits n rest
unfolding decimal
read_digits-decimal n rest =
    ap (read_digits 0) (digits-append n n [] rest) ∙ read_digits-digits n n rest (omega arith)
