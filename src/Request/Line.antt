-- ===== src/Request/Line.antt =====
-- What a command line means, described apart from the automaton of request.c: blanks, a keyword
-- in any case, and the argument that the keyword takes.
pub mod Run
pub mod Keyword
pub mod Argument
pub mod Domain
pub mod MailPath
pub mod Classified
pub mod Consequences
use tpe_protos.Base.{
  ℕ, ◌+◌, ◌-◌, ◌≢◌, Bool, ◌&&◌, ◌||◌, List, [], ◌∷◌, ◌++◌, Option, none, some, length, replicate,
  ltb, leb, ◌==◌, if◌then◌else◌,
}
use tpe_protos.Request.{Command, ehlo, helo, mail, rcpt, data_, quit, unknown, field_size}

-- `accepted k payload`: the line is answered as command `k` (`unknown` if it is refused), with the
-- array that holds its argument. `swallowed`: the parser takes the end of the line for a part of
-- it. `overflow`: the argument is longer than its array.
pub data Verdict : Type 0 where
  accepted : Command → List ℕ → Verdict
  swallowed : Verdict
  overflow : Verdict

abbrev pub refused : Verdict
refused = accepted unknown []

abbrev pub is_blank : ℕ → Bool
is_blank c = c == b' ' || c == b'\t'

abbrev pub skip_blanks : List ℕ → List ℕ
skip_blanks [] = []
skip_blanks (c ∷ w) = if is_blank c then skip_blanks w else c ∷ w

abbrev pub to_lower : ℕ → ℕ
to_lower c = if leb b'A' c && leb c b'Z' then c + 32 else c

-- What follows the keyword at the start of the line.
abbrev pub after_keyword : List ℕ → List ℕ → Option (List ℕ)
after_keyword [] w = some w
after_keyword (k ∷ ks) [] = none
after_keyword (k ∷ ks) (c ∷ w) = if to_lower c == k then after_keyword ks w else none

-- An array that holds these bytes.
abbrev pub padded : List ℕ → List ℕ
padded a = a ++ replicate (field_size - length a) 0

abbrev pub filled : Command → List ℕ → Verdict
filled k a = if ltb field_size (length a) then overflow else accepted k (padded a)

-- A command without an argument.
abbrev pub bare : Command → List ℕ → Verdict
bare k [] = accepted k []
bare k (c ∷ w) = refused

abbrev pub nonempty_domain : Command → List ℕ → Verdict
nonempty_domain k [] = swallowed
nonempty_domain k (c ∷ w) = filled k (c ∷ w)

-- A blank and a domain, which goes up to the end of the line.
abbrev pub with_domain : Command → List ℕ → Verdict
with_domain k [] = refused
with_domain k (c ∷ w) = if is_blank c then nonempty_domain k (skip_blanks w) else refused

-- The bytes in front of the first `>`, and what follows it.
abbrev pub until_close : List ℕ → List ℕ × Option (List ℕ)
until_close [] = ([], none)
until_close (c ∷ w) = let r = until_close w in if c == b'>' then ([], some w) else (c ∷ r.0, r.1)

-- Whether text may follow the path: after that of MAIL it may.
abbrev pub closing : Command → Option (List ℕ) → List ℕ → Verdict
closing k none a = swallowed
closing mail (some w) a = accepted mail (padded a)
closing k (some []) a = accepted k (padded a)
closing k (some (c ∷ w)) a = refused

abbrev pub path : Command → List ℕ → Verdict
path k w =
    let (a, tail) = until_close w in
    if ltb field_size (length a) then overflow else closing k tail a

-- A path in angle brackets.
abbrev pub open_path : Command → List ℕ → Verdict
open_path k [] = refused
open_path k (c ∷ w) = if c == b'<' then path k w else refused

abbrev pub with_path : Command → List ℕ → Verdict
with_path k w = open_path k (skip_blanks w)

abbrev pub helo_word : List ℕ
helo_word = b'h' ∷ b'e' ∷ b'l' ∷ b'o' ∷ []

abbrev pub ehlo_word : List ℕ
ehlo_word = b'e' ∷ b'h' ∷ b'l' ∷ b'o' ∷ []

abbrev pub mail_word : List ℕ
mail_word = b'm' ∷ b'a' ∷ b'i' ∷ b'l' ∷ b' ' ∷ b'f' ∷ b'r' ∷ b'o' ∷ b'm' ∷ b':' ∷ []

abbrev pub rcpt_word : List ℕ
rcpt_word = b'r' ∷ b'c' ∷ b'p' ∷ b't' ∷ b' ' ∷ b't' ∷ b'o' ∷ b':' ∷ []

abbrev pub data_word : List ℕ
data_word = b'd' ∷ b'a' ∷ b't' ∷ b'a' ∷ []

abbrev pub quit_word : List ℕ
quit_word = b'q' ∷ b'u' ∷ b'i' ∷ b't' ∷ []

-- The first keyword of the table that the line begins with decides.
abbrev pub first_match : List (List ℕ × (List ℕ → Verdict)) → List ℕ → Verdict
first_match [] w = refused
first_match ((k, reader) ∷ table) w = elim (after_keyword k w) [
  | some r ↦ reader r
  | none ↦ first_match table w
]

abbrev pub table : List (List ℕ × (List ℕ → Verdict))
table =
    (helo_word, with_domain helo)
    ∷ (ehlo_word, with_domain ehlo)
    ∷ (mail_word, with_path mail)
    ∷ (rcpt_word, with_path rcpt)
    ∷ (data_word, bare data_)
    ∷ (quit_word, bare quit)
    ∷ []

-- The meaning of a line.
abbrev pub classify : List ℕ → Verdict
classify w = first_match table (skip_blanks w)
