-- ===== src/Args.antt =====
-- args.c and args.h: the command line. What getopt_long(3) finds is a list of options, each with its
-- letter and its argument, and the operands behind them.
pub mod Port
pub mod Options
mod Tests
use tpe_protos.Base.{
  ℕ, ◌+◌, ◌^◌, ◌-◌, ℤ, pos, negsuc, Bool, true, false, not, ◌&&◌, ◌||◌, List, [], ◌∷◌, codes,
  is_digit, read_digits, length, leb, ltb, ◌==◌, if◌then◌else◌,
}

-- What a part of the program does: it ends the process with an exit code, or goes on.
pub data Run {ℓ} (A : Type ℓ) : Type ℓ where
  exits : ℕ → Run A
  goes : A → Run A

abbrev pub and_then {ℓ κ} : {A : Type ℓ} {B : Type κ} → Run A → (A → Run B) → Run B
and_then (exits code) f = exits code
and_then (goes a) f = f a

abbrev pub is_space : ℕ → Bool
is_space c = (leb 9 c && leb c 13) || (c == 32)

abbrev pub skip_space : List ℕ → List ℕ
skip_space [] = []
skip_space (c ∷ s) = if is_space c then skip_space s else c ∷ s

-- What strtol(3) returns in base 10: the number, cut off to a long of 64 bits; whether it has been
-- cut off (`ERANGE`); whether there was a number at all; and the text behind it.
pub record Number : Type 0 where
  pub value : ℤ
  pub erange : Bool
  pub found : Bool
  pub end : List ℕ

abbrev pub starts_digit : List ℕ → Bool
starts_digit [] = false
starts_digit (c ∷ s) = is_digit c

abbrev pub negated : ℕ → ℤ
negated n = if n == 0 then pos 0 else negsuc (n - 1)

-- The number of digits with a sign.
abbrev pub signed : Bool → ℕ × List ℕ → Number
signed false (n, end) = record {
  value = if ltb n (2 ^ 63) then pos n else pos (2 ^ 63 - 1);
  erange = not (ltb n (2 ^ 63));
  found = true;
  end = end;
}
signed true (n, end) = record {
  value = if leb n (2 ^ 63) then negated n else negsuc (2 ^ 63 - 1);
  erange = not (leb n (2 ^ 63));
  found = true;
  end = end;
}

abbrev pub unsigned : Bool → List ℕ → Number
unsigned negative s =
    if starts_digit s
    then signed negative (read_digits 0 s)
    else record { value = pos 0; erange = false; found = false; end = s }

abbrev pub after_sign : List ℕ → Number
after_sign [] = unsigned false []
after_sign (c ∷ s) =
    if c == b'-'
    then unsigned true s
    else if c == b'+'
    then unsigned false s
    else unsigned false (c ∷ s)

abbrev pub strtol : List ℕ → Number
strtol s = after_sign (skip_space s)

abbrev pub is_nil : List ℕ → Bool
is_nil [] = true
is_nil (c ∷ s) = false

-- `sl < 0 || sl > USHRT_MAX`, on a number that is in range
abbrev pub as_port : ℤ → Run ℕ
as_port (pos n) = if leb n 65535 then goes n else exits 1
as_port (negsuc n) = exits 1

-- `port`
unfoldable pub port : List ℕ → Run ℕ
port s =
    let number = strtol s in
    if not number.found || (not (is_nil number.end) || number.erange)
    then exits 1
    else as_port number.value

-- `pass`
unfoldable pub pass : List ℕ → Run (List ℕ)
pass s = if length s == 8 then goes s else exits 1

-- `struct smtpargs`; `mail_dir` is never set.
pub record SmtpArgs : Type 0 where
  pub smtp_port : ℕ
  pub mng_port : ℕ
  pub transformations : List ℕ
  pub pass : List ℕ

abbrev pub defaults : SmtpArgs
defaults = record {
  smtp_port = 1209;
  mng_port = 6969;
  transformations = codes "tac";
  pass = codes "secretpa";
}

-- The `switch` on the letter of an option. `usage` ends the process with 1, `-v` with 0.
unfoldable pub take_option : ℕ → List ℕ → SmtpArgs → Run SmtpArgs
take_option c optarg args =
    if c == b'h'
    then exits 1
    else if c == b'T'
    then goes (record args { transformations = optarg })
    else if c == b'p'
    then and_then (port optarg) (λ n. goes (record args { smtp_port = n }))
    else if c == b'P'
    then and_then (port optarg) (λ n. goes (record args { mng_port = n }))
    else if c == b'u'
    then and_then (pass optarg) (λ s. goes (record args { pass = s }))
    else if c == b'v'
    then exits 0
    else exits 1

unfoldable pub take_options : List (ℕ × List ℕ) → SmtpArgs → Run SmtpArgs
take_options [] args = goes args
take_options ((c, optarg) ∷ options) args =
    and_then (take_option c optarg args) (take_options options)

-- Operands are not accepted.
abbrev pub no_operands : List (List ℕ) → SmtpArgs → Run SmtpArgs
no_operands [] args = goes args
no_operands (s ∷ operands) args = exits 1

-- `parse_args`
unfoldable pub parse_args : List (ℕ × List ℕ) → List (List ℕ) → Run SmtpArgs
parse_args options operands = and_then (take_options options defaults) (no_operands operands)
