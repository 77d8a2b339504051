-- ===== src/Request/Line/Consequences.antt =====
-- What the description of a line gives for single commands.
use mathlib.Core.Path.{subst}
use tpe_protos.Base.{
  ℕ, ◌≤◌, ◌<◌, ◌≡◌, ◌≢◌, refl, sym, ap, ◌∙◌, true, false, inl, inr, ◌⊎◌, append-nil, List, [], ◌∷◌,
  ◌++◌, Option, none, some, ok, err, out_of_bounds, length, IsLine, if◌then◌else◌, ltb, arith,
  lt→ltb,
}
use tpe_protos.Request.{Command, mail, rcpt, helo, unknown, Parser, field_size, init}
use tpe_protos.Request.Consume.Refine.{run}
use tpe_protos.Request.Line.{
  with_domain, nonempty_domain, open_path, closing, with_path, Verdict, swallowed, overflow,
  after_keyword, skip_blanks, classify, until_close, padded, path, mail_word, rcpt_word, helo_word,
  is_blank, to_lower,
}
use tpe_protos.Request.Line.Run.{crlf, answered, run_error}
use tpe_protos.Request.Line.Argument.{Follows}
use tpe_protos.Request.Line.Classified.{run-classify, from_letter}

-- A line with a carriage return in none of its bytes nor a closing bracket.
abbrev pub IsAddress : List ℕ → Type 0
IsAddress [] = Unit {0}
IsAddress (c ∷ a) = (c ≢ b'>') × (c ≢ b'\r') × IsAddress a

until_close-IsAddress : (a w : List ℕ) → IsAddress a → until_close (a ++ (b'>' ∷ w)) ≡ (a, some w)
until_close-IsAddress [] w h = refl
until_close-IsAddress (c ∷ a) w h = ground (arith, until_close-IsAddress a w h.2)

IsLine-IsAddress : (a w : List ℕ) → IsAddress a → IsLine w → IsLine (a ++ (b'>' ∷ w))
IsLine-IsAddress [] w h k = ((λ e. omega arith), k)
IsLine-IsAddress (c ∷ a) w h k = (h.1, IsLine-IsAddress a w h.2 k)

-- `v` spells the word, in any case.
abbrev pub Spells : List ℕ → List ℕ → Type 0
Spells [] [] = Unit {0}
Spells (k ∷ ks) (c ∷ v) = (to_lower c ≡ k) × Spells ks v
Spells _ _ = ⊥

abbrev pub AllBlank : List ℕ → Type 0
AllBlank [] = Unit {0}
AllBlank (c ∷ w) = (is_blank c ≡ true) × AllBlank w

after_keyword-Spells : (ks v r : List ℕ) → Spells ks v → after_keyword ks (v ++ r) ≡ some r
after_keyword-Spells [] [] r h = refl
after_keyword-Spells [] (c ∷ v) r h = absurd h
after_keyword-Spells (k ∷ ks) [] r h = absurd h
after_keyword-Spells (k ∷ ks) (c ∷ v) r h = ground (arith, after_keyword-Spells ks v r h.1)

skip_blanks-AllBlank : (bl w : List ℕ) → AllBlank bl → skip_blanks (bl ++ w) ≡ skip_blanks w
skip_blanks-AllBlank [] w h = refl
skip_blanks-AllBlank (c ∷ bl) w h = rw h.0 (skip_blanks-AllBlank bl w h.1)

IsLine-AllBlank : (bl w : List ℕ) → AllBlank bl → IsLine w → IsLine (bl ++ w)
IsLine-AllBlank [] w h k = k
IsLine-AllBlank (c ∷ bl) w h k = ((λ e. ground arith), IsLine-AllBlank bl w h.1 k)

-- No letter of a keyword is a carriage return.
IsLine-Spells : (ks v w : List ℕ) → Spells ks v → IsLine ks → IsLine w → IsLine (v ++ w)
IsLine-Spells [] [] w h i k = k
IsLine-Spells [] (c ∷ v) w h i k = absurd h
IsLine-Spells (x ∷ ks) [] w h i k = absurd h
IsLine-Spells (x ∷ ks) (c ∷ v) w h i k =
    ((λ e. i.0 (sym h.0 ∙ ap to_lower e)), IsLine-Spells ks v w h.1 i.1 k)

-- The word of a command, and how the description reads what follows it.
record Reads (k : ℕ) (ks : List ℕ) (reader : List ℕ → Verdict) : Type 0 where
  letter : b'a' ≤ k
  not_cr : IsLine ks
  reads : (w r : List ℕ) → after_keyword ks w ≡ some r → from_letter k w ≡ reader r

helo-Reads : Reads b'h' (b'e' ∷ b'l' ∷ b'o' ∷ []) (with_domain helo)
helo-Reads = record { letter = omega arith; not_cr = omega arith; reads = λ w r e. ground arith }

mail-Reads :
    Reads b'm' (b'a' ∷ b'i' ∷ b'l' ∷ b' ' ∷ b'f' ∷ b'r' ∷ b'o' ∷ b'm' ∷ b':' ∷ []) (with_path mail)
mail-Reads = record { letter = omega arith; not_cr = omega arith; reads = λ w r e. ground arith }

rcpt-Reads : Reads b'r' (b'c' ∷ b'p' ∷ b't' ∷ b' ' ∷ b't' ∷ b'o' ∷ b':' ∷ []) (with_path rcpt)
rcpt-Reads = record { letter = omega arith; not_cr = omega arith; reads = λ w r e. ground arith }

classify-Spells :
    {k : ℕ} {ks : List ℕ} {reader : List ℕ → Verdict} (rd : Reads k ks reader) (v r : List ℕ)
    → Spells (k ∷ ks) v
    → classify (v ++ r) ≡ reader r
classify-Spells rd [] r h = absurd h
classify-Spells {k} {ks} rd (c ∷ v) r h =
    let letter : b'a' ≤ k = rd.letter in
    let no_blank : is_blank c ≡ false = ground (arith, h.0) in
    rw no_blank
      (ap (λ x. from_letter x (v ++ r)) h.0 ∙ rd.reads (v ++ r) r (after_keyword-Spells ks v r h.1))

path-IsAddress :
    (k : Command) (a w : List ℕ)
    → IsAddress a
    → path k (a ++ (b'>' ∷ w))
      ≡ (if ltb field_size (length a) then overflow else closing k (some w) a)
path-IsAddress k a w h =
    ap
      (λ (x : List ℕ × Option (List ℕ)).
        if ltb field_size (length x.0) then overflow else closing k x.1 x.0)
      (until_close-IsAddress a w h)

with_path-IsAddress :
    (k : Command) (bl a w : List ℕ)
    → AllBlank bl
    → IsAddress a
    → with_path k (bl ++ (b'<' ∷ (a ++ (b'>' ∷ w))))
      ≡ (if ltb field_size (length a) then overflow else closing k (some w) a)
with_path-IsAddress k bl a w b h =
    ap (open_path k) (skip_blanks-AllBlank bl (b'<' ∷ (a ++ (b'>' ∷ w))) b) ∙ path-IsAddress k a w h

abbrev pub line_of : List ℕ → List ℕ → List ℕ → List ℕ → List ℕ
line_of v bl a w = v ++ (bl ++ (b'<' ∷ (a ++ (b'>' ∷ w))))

-- A command with a path, in general.
run_path_line :
    {x : ℕ} {ks : List ℕ} (k : Command) (rd : Reads x ks (with_path k)) (v bl a w rest : List ℕ)
    → Spells (x ∷ ks) v
    → AllBlank bl
    → IsAddress a
    → IsLine w
    → Follows rest
        (if ltb field_size (length a) then overflow else closing k (some w) a)
        (run (line_of v bl a w ++ crlf rest) init none)
run_path_line {x} {ks} k rd v bl a w rest s b h i =
    let letter : b'a' ≤ x = rd.letter in
    let word : IsLine (x ∷ ks) = ((λ e. omega arith), rd.not_cr) in
    let line : IsLine (line_of v bl a w) =
      IsLine-Spells (x ∷ ks) v (bl ++ (b'<' ∷ (a ++ (b'>' ∷ w)))) s word (
        IsLine-AllBlank bl (b'<' ∷ (a ++ (b'>' ∷ w))) b
          ((λ e. omega arith), IsLine-IsAddress a w h i)) in
    subst (λ u. Follows rest u (run (line_of v bl a w ++ crlf rest) init none))
      (classify-Spells rd v (bl ++ (b'<' ∷ (a ++ (b'>' ∷ w)))) s ∙ with_path-IsAddress k bl a w b h)
      (run-classify (line_of v bl a w) rest line)

-- `MAIL FROM:`, in any case, blanks, a path of at most 32 bytes in angle brackets and any further
-- text are answered as the command `mail`: the parser stops right behind the line end, and its
-- array `arg` holds the path and then zeros.
pub run-mail :
    (v bl a w rest : List ℕ)
    → Spells mail_word v
    → AllBlank bl
    → IsAddress a
    → IsLine w
    → length a ≤ field_size
    → (q : Parser) × (run (line_of v bl a w ++ crlf rest) init none ≡ ok (answered mail q rest))
      × (q.request.arg ≡ padded a)
run-mail v bl a w rest s b h i fits =
    let short : ltb field_size (length a) ≡ false = ground arith in
    rw short at (run_path_line mail mail-Reads v bl a w rest s b h i)

abbrev pub if_nil : List ℕ → Command → Command → Command
if_nil [] x y = x
if_nil (c ∷ w) x y = y

-- `RCPT TO:`, in any case, blanks and a path of at most 32 bytes in angle brackets at the end of
-- the line are answered as the command `rcpt`, with the path in `arg`. If anything follows the
-- path, the line is answered as an unknown command.
pub run-rcpt :
    (v bl a w rest : List ℕ)
    → Spells rcpt_word v
    → AllBlank bl
    → IsAddress a
    → IsLine w
    → length a ≤ field_size
    → (q : Parser) × (run (line_of v bl a w ++ crlf rest) init none
        ≡ ok (answered (if_nil w rcpt unknown) q rest))
      × (w ≡ [] → q.request.arg ≡ padded a)
run-rcpt v bl a [] rest s b h i fits =
    let short : ltb field_size (length a) ≡ false = ground arith in
    let (q, e, f) = rw short at (run_path_line rcpt rcpt-Reads v bl a [] rest s b h i) in
    (q, e, λ _. f)
run-rcpt v bl a (c ∷ w) rest s b h i fits =
    let short : ltb field_size (length a) ≡ false = ground arith in
    let (q, e, f) = rw short at (run_path_line rcpt rcpt-Reads v bl a (c ∷ w) rest s b h i) in
    (q, e, λ x. cc)

-- A path of more than 32 bytes behind `MAIL FROM:` or `RCPT TO:` is written past the end of the
-- array `arg`.
pub run-long_path :
    (v bl a w rest : List ℕ)
    → Spells mail_word v ⊎ Spells rcpt_word v
    → AllBlank bl
    → IsAddress a
    → IsLine w
    → field_size < length a
    → run (line_of v bl a w ++ crlf rest) init none ≡ err out_of_bounds
run-long_path v bl a w rest (inl s) b h i long =
    rw (lt→ltb _ _ long) at (run_path_line mail mail-Reads v bl a w rest s b h i)
run-long_path v bl a w rest (inr s) b h i long =
    rw (lt→ltb _ _ long) at (run_path_line rcpt rcpt-Reads v bl a w rest s b h i)

-- A line of which the parser misses the end takes the next line with it: the two get one answer,
-- that to an unknown command.
pub run-swallowed :
    (w w' rest : List ℕ)
    → IsLine w
    → IsLine w'
    → classify w ≡ swallowed
    → (q : Parser) × (run (w ++ crlf (w' ++ crlf rest)) init none ≡ ok (answered unknown q rest))
run-swallowed w w' rest h h' e =
    let (q, next) =
      subst (λ u. Follows (w' ++ crlf rest) u (run (w ++ crlf (w' ++ crlf rest)) init none)) e
        (run-classify w (w' ++ crlf rest) h) in
    (q, next ∙ run_error w' rest q h')

-- So it is with `HELO` and blanks, but no domain.
pub run-helo_blank :
    (v bl w' rest : List ℕ) (c : ℕ)
    → Spells helo_word v
    → AllBlank (c ∷ bl)
    → IsLine w'
    → (q : Parser) × (run ((v ++ (c ∷ bl)) ++ crlf (w' ++ crlf rest)) init none
        ≡ ok (answered unknown q rest))
run-helo_blank v bl w' rest c s b h' =
    let nil : with_domain helo (c ∷ bl) ≡ swallowed = rw b.0 (
      ap (nonempty_domain helo)
        (ap skip_blanks (sym (append-nil bl)) ∙ skip_blanks-AllBlank bl [] b.1)) in
    let line : IsLine (v ++ (c ∷ bl)) =
      IsLine-Spells helo_word v (c ∷ bl) s (omega arith)
        (subst IsLine (append-nil (c ∷ bl)) (IsLine-AllBlank (c ∷ bl) [] b tt)) in
    run-swallowed (v ++ (c ∷ bl)) w' rest line h' (classify-Spells helo-Reads v (c ∷ bl) s ∙ nil)
