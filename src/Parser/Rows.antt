-- ===== src/Parser/Rows.antt =====
-- parser.c and parser_utils.c: what one byte does in each state of the table of a word.
use tpe_protos.Base.{
  ℕ, zero, suc, ◌+◌, ◌<◌, ◌≤◌, arith, pos, true, ◌||◌, some, List, [], ◌∷◌, ◌++◌, ◌≡◌, refl, sym,
  ap, ◌∙◌, inl, inr, ok, ◌>>=◌, load, ltb, leb, ◌==◌, if◌then◌else◌, length, get_elem?,
  get_elem?-length, replicate, to_lower, to_upper, same_letter, Bool-cases, lt→ltb, le→leb,
  load_from, append_assoc,
}
use tpe_protos.Parser.{matches, Parser, find_match, take_transition}
use tpe_protos.Parser.Strcmpi.{
  mayeq, eq, on_char, transition, to_neq, letter_row, letter_rows, sinks,
}

pub length-letter_rows : (n i : ℕ) (s : List ℕ) → length (letter_rows n i s) ≡ length s
length-letter_rows n i [] = refl
length-letter_rows n i (x ∷ s) = ap suc (length-letter_rows n (i + 1) s)

letter_rows-append :
    (n i : ℕ) (s t : List ℕ)
    → letter_rows n i (s ++ t) ≡ letter_rows n i s ++ letter_rows n (i + length s) t
letter_rows-append n i [] t = ap (λ k. letter_rows n k t) (omega arith)
letter_rows-append n i (x ∷ s) t =
    let e : i + 1 + length s ≡ i + suc (length s) = omega arith in
    ap (◌∷◌ (letter_row n i x))
      (letter_rows-append n (i + 1) s t ∙ ap (λ k. letter_rows n (i + 1) s ++ letter_rows n k t) e)

pub class-none : (k c : ℕ) → c < k → load {A = ℕ} (replicate k 0) c ≡ ok 0
class-none zero c h = absurd (omega arith)
class-none (suc k) zero h = refl
class-none (suc k) (suc c) h = class-none k c (omega arith)

pub load-at {ℓ} :
    {A : Type ℓ} (xs : List A) (y : A) (ys : List A) (i : ℕ)
    → length xs ≡ i
    → load (xs ++ (y ∷ ys)) i ≡ ok y
load-at xs y ys i e =
    ap load_from (ap (get_elem? (xs ++ (y ∷ ys))) (sym e) ∙ get_elem?-length xs y ys)

-- The row of the letter behind `pre`.
pub letter-state :
    (pre w : List ℕ) (x n : ℕ)
    → load (letter_rows n 0 (pre ++ (x ∷ w)) ++ sinks n) (length pre)
      ≡ ok (letter_row n (length pre) x)
letter-state pre w x n =
    let rows = letter_rows n 0 pre in
    let zero-left : 0 + length pre ≡ length pre = omega arith in
    let later = letter_rows n (length pre + 1) w ++ sinks n in
    ap (λ r. load (r ++ sinks n) (length pre))
      (letter_rows-append n 0 pre (x ∷ w) ∙ ap (λ k. rows ++ letter_rows n k (x ∷ w)) zero-left)
    ∙ ap (λ r. load r (length pre))
        (append_assoc rows (letter_row n (length pre) x ∷ letter_rows n (length pre + 1) w)
          (sinks n))
    ∙ load-at rows (letter_row n (length pre) x) later (length pre) (length-letter_rows n 0 pre)

pub letter-count : (m k : ℕ) (tail : List ℕ) → k < m → load (replicate m 3 ++ tail) k ≡ ok 3
letter-count zero k tail h = absurd (omega arith)
letter-count (suc m) zero tail h = refl
letter-count (suc m) (suc k) tail h = letter-count m k tail (omega arith)

matches-on_char :
    (f : ℕ → ℕ) (c x : ℕ) → x < 128 → f x ≤ 255 → matches 0 c (on_char f x) ≡ (c == f x)
matches-on_char f c x h k =
    let small : ltb x 128 ≡ true = lt→ltb x 128 h in
    let byte : leb (f x) 255 ≡ true = le→leb (f x) 255 k in rw small (rw byte refl)

case_letter : (c x : ℕ) → x < 128 → ((c == to_lower x) || (c == to_upper x)) ≡ same_letter c x
case_letter c x h = ground arith

lower_byte : (x : ℕ) → x < 128 → to_lower x ≤ 255
lower_byte x h = ground arith

upper_byte : (x : ℕ) → x < 128 → to_upper x ≤ 255
upper_byte x h = ground arith

next_state : (i n : ℕ) → (if i + 1 == n then n else i + 1) ≡ i + 1
next_state i n = ground arith

-- A byte in the state of a letter: it matches the letter in one of its cases, or the last
-- transition is taken.
pub letter-match :
    (n i c x : ℕ) (p : Parser)
    → x < 128
    → (find_match 3 0 0 c (letter_row n i x) >>= λ t. ok (take_transition t c p))
      ≡ ok (
          if same_letter c x
          then take_transition
              (some (transition (pos 0) (i + 1) (if i + 1 == n then eq else mayeq)))
              c
              p
          else take_transition (some (to_neq n)) c p)
unfolding find_match
letter-match n i c x p h =
    rw
      (
        matches-on_char to_lower c x h (lower_byte x h),
        matches-on_char to_upper c x h (upper_byte x h),
        next_state i n,
        sym (case_letter c x h),
      )
      (elim (Bool-cases (c == to_lower x)) [
        | inl lower ↦ rw lower refl
        | inr not_lower ↦ rw not_lower (elim (Bool-cases (c == to_upper x)) [
          | inl upper ↦ rw upper refl
          | inr not_upper ↦ rw not_upper refl
        ])
      ])
