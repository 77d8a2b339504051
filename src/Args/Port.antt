-- ===== src/Args/Port.antt =====
-- args.c: a port that is written in decimal.
use tpe_protos.Base.{
  ℕ, zero, suc, ◌+◌, ◌/◌, ◌%◌, ◌^◌, ◌≤◌, ◌<◌, arith, true, false, not, ◌||◌, List, [], ◌∷◌,
  append-nil, ◌≡◌, refl, sym, ap, ◌∙◌, inl, inr, is_digit, digits, decimal, read_digits,
  read_digits-decimal, leb, ltb, ltb→lt, ◌==◌, if◌then◌else◌, Bool-cases,
}
use tpe_protos.Args.{exits, goes, is_space, signed, strtol, as_port, is_nil, port}

-- A text that begins with a digit.
record Starts (s : List ℕ) : Type 0 where
  pub first : ℕ
  pub rest : List ℕ
  pub shape : s ≡ first ∷ rest
  pub digit : is_digit first ≡ true

small_digit : (d : ℕ) → d < 10 → is_digit (b'0' + d) ≡ true
small_digit d h = ground arith

digits-Starts : (k n : ℕ) (rest : List ℕ) → n ≤ k → Starts (digits k n rest)
unfolding digits
digits-Starts zero n rest h = record {
  first = b'0' + n;
  rest = rest;
  shape = refl;
  digit = small_digit n (omega arith);
}
digits-Starts (suc k) n rest h = elim (Bool-cases (ltb n 10)) [
  | inl small ↦ rw small (record {
    first = b'0' + n;
    rest = rest;
    shape = refl;
    digit = small_digit n (ltb→lt n 10 small);
  })
  | inr large ↦ rw large (digits-Starts k (n / 10) ((b'0' + n % 10) ∷ rest) (omega arith))
]

no_space : (c : ℕ) → is_digit c ≡ true → is_space c ≡ false
no_space c h = ground arith

no_minus : (c : ℕ) → is_digit c ≡ true → (c == b'-') ≡ false
no_minus c h = ground arith

no_plus : (c : ℕ) → is_digit c ≡ true → (c == b'+') ≡ false
no_plus c h = ground arith

-- A number without blanks and a sign is that of its digits.
strtol-digits : (s : List ℕ) → Starts s → strtol s ≡ signed false (read_digits 0 s)
strtol-digits s h =
    let e = h.digit in
    rw (h.shape, no_space h.first e, no_minus h.first e, no_plus h.first e, e) refl

too_large : (n : ℕ) → ltb n (2 ^ 63) ≡ false → leb n 65535 ≡ false
too_large n h = ground arith

port-number :
    (n : ℕ)
    → (let number = signed false (n, []) in
        if not number.found || (not (is_nil number.end) || number.erange)
        then exits 1
        else as_port number.value)
      ≡ (if leb n 65535 then goes n else exits 1)
port-number n = elim (Bool-cases (ltb n (2 ^ 63))) [
  | inl small ↦ rw small refl
  | inr large ↦ rw (large, too_large n large) refl
]

-- A number in decimal is accepted as a port when it is at most 65535, also 0, and ends the process
-- with 1 when it is greater.
pub port-decimal : (n : ℕ) → port (decimal n) ≡ (if leb n 65535 then goes n else exits 1)
unfolding port decimal
port-decimal n =
    let read : read_digits 0 (decimal n) ≡ (n, []) =
      ap (read_digits 0) (sym (append-nil (decimal n))) ∙ read_digits-decimal n [] in
    rw (strtol-digits (decimal n) (digits-Starts n n [] (omega arith)), read) (port-number n)
