-- ===== src/Request/Line/Classified.antt =====
-- The automaton of request.c on a whole line, against the description of what the line means.
use mathlib.Core.Path.{subst}
use tpe_protos.Base.{
  IsLine, ℕ, ◌≡◌, refl, sym, true, false, List, [], ◌∷◌, ◌++◌, Option, none, some, ok, arith, ◌==◌,
  if◌then◌else◌, inl, inr, Bool-cases,
}
use tpe_protos.Request.{
  Command, helo, ehlo, mail, rcpt, data_, quit, noop, State, verb, verb_h, verb_e, verb_m, verb_r,
  verb_d, verb_data, verb_q, verb_quit, Parser, blank, init,
}
use tpe_protos.Request.Feed.{feed, refeed}
use tpe_protos.Request.Consume.{is_done_state}
use tpe_protos.Request.Consume.Refine.{run}
use tpe_protos.Request.Line.{
  Verdict, refused, is_blank, to_lower, after_keyword, first_match, table, classify, with_domain,
  with_path, bare,
}
use tpe_protos.Request.Line.Run.{crlf, run-step, run-refeed}
use tpe_protos.Request.Line.Keyword.{
  Spells, Reads, run-Spells, helo-Spells, ehlo-Spells, mail-Spells, rcpt-Spells, data-Spells,
  quit-Spells,
}
use tpe_protos.Request.Line.Argument.{Follows, Follows-step, Follows-refused, run-bare}
use tpe_protos.Request.Line.Domain.{run-with_domain, helo-ReadsDomain, ehlo-ReadsDomain}
use tpe_protos.Request.Line.MailPath.{
  run-with_path, mail-ReadsPath, rcpt-ReadsPath, mail-Closes, rcpt-Closes,
}

-- The verdict on a line whose first letter is `x`, in lower case, and goes on with `w`.
abbrev pub from_letter : ℕ → List ℕ → Verdict
from_letter x w = elim (if x == b'h' then after_keyword (b'e' ∷ b'l' ∷ b'o' ∷ []) w else none) [
  | some r ↦ with_domain helo r
  | none ↦ elim (if x == b'e' then after_keyword (b'h' ∷ b'l' ∷ b'o' ∷ []) w else none) [
    | some r ↦ with_domain ehlo r
    | none ↦
        elim (if x == b'm'
          then after_keyword (b'a' ∷ b'i' ∷ b'l' ∷ b' ' ∷ b'f' ∷ b'r' ∷ b'o' ∷ b'm' ∷ b':' ∷ []) w
          else none) [
            | some r ↦ with_path mail r
            | none ↦
                elim (if x == b'r'
                  then after_keyword (b'c' ∷ b'p' ∷ b't' ∷ b' ' ∷ b't' ∷ b'o' ∷ b':' ∷ []) w
                  else none) [
                    | some r ↦ with_path rcpt r
                    | none ↦
                        elim (if x == b'd'
                          then after_keyword (b'a' ∷ b't' ∷ b'a' ∷ []) w
                          else none) [
                            | some r ↦ bare data_ r
                            | none ↦
                                elim (if x == b'q'
                                  then after_keyword (b'u' ∷ b'i' ∷ b't' ∷ []) w
                                  else none) [ some r ↦ bare quit r | none ↦ refused ]
                          ]
                  ]
          ]
  ]
]

first_match-from_letter :
    (c : ℕ) (w : List ℕ) → first_match table (c ∷ w) ≡ from_letter (to_lower c) w
first_match-from_letter c w = refl

from_letter-none :
    (x : ℕ) (w : List ℕ)
    → (x == b'h') ≡ false
    → (x == b'e') ≡ false
    → (x == b'm') ≡ false
    → (x == b'r') ≡ false
    → (x == b'd') ≡ false
    → (x == b'q') ≡ false
    → from_letter x w ≡ refused
from_letter-none x w h e m r d q = ground arith

feed_h :
    (p : Parser) (c : ℕ)
    → (to_lower c == b'h') ≡ true
    → feed (record p { state = verb }) c ≡ ok (record p { state = verb_h })
unfolding feed
feed_h p c h = ground arith

feed_e :
    (p : Parser) (c : ℕ)
    → (to_lower c == b'e') ≡ true
    → feed (record p { state = verb }) c ≡ ok (record p { state = verb_e })
unfolding feed
feed_e p c h = ground arith

feed_m :
    (p : Parser) (c : ℕ)
    → (to_lower c == b'm') ≡ true
    → feed (record p { state = verb }) c ≡ ok (record p { state = verb_m })
unfolding feed
feed_m p c h = ground arith

feed_r :
    (p : Parser) (c : ℕ)
    → (to_lower c == b'r') ≡ true
    → feed (record p { state = verb }) c ≡ ok (record p { state = verb_r })
unfolding feed
feed_r p c h = ground arith

feed_d :
    (p : Parser) (c : ℕ)
    → (to_lower c == b'd') ≡ true
    → feed (record p { state = verb }) c ≡ ok (record p { state = verb_d })
unfolding feed
feed_d p c h = ground arith

feed_q :
    (p : Parser) (c : ℕ)
    → (to_lower c == b'q') ≡ true
    → feed (record p { state = verb }) c ≡ ok (record p { state = verb_q })
unfolding feed
feed_q p c h = ground arith

feed_other :
    (p : Parser) (c : ℕ)
    → is_blank c ≡ false
    → (to_lower c == b'h') ≡ false
    → (to_lower c == b'e') ≡ false
    → (to_lower c == b'm') ≡ false
    → (to_lower c == b'r') ≡ false
    → (to_lower c == b'd') ≡ false
    → (to_lower c == b'q') ≡ false
    → feed (record p { state = verb }) c ≡ refeed (record p { state = verb }) c
unfolding feed
feed_other p c b h e m r d q = ground arith

-- A keyword that the automaton spells, and a reader of what follows it.
abbrev read_with : (List ℕ → Verdict) → Option (List ℕ) → Verdict
read_with reader none = refused
read_with reader (some r) = reader r

Follows-read_with :
    (rest : List ℕ) (p : Parser) (s t : State) (reader : List ℕ → Verdict) (w : List ℕ)
    (o : Option (List ℕ))
    → Reads rest p s t w o
    → ((r : List ℕ)
        → IsLine r
        → Follows rest (reader r) (run (r ++ crlf rest) (record p { state = t }) none))
    → Follows rest (read_with reader o) (run (w ++ crlf rest) (record p { state = s }) none)
Follows-read_with rest p s t reader w none e k = Follows-refused rest p e
Follows-read_with rest p s t reader w (some r) (h, e) k = Follows-step rest (reader r) e (k r h)

abbrev fresh : Command → Parser
fresh k = record { request = blank; state = verb; command = k; i = 0 }

-- A line whose first letter leads to the state `s`, from which the automaton spells `ks`.
run_letter :
    (rest : List ℕ) (c : ℕ) (w : List ℕ) {s t : State} {ks : List ℕ} (reader : List ℕ → Verdict)
    → feed (fresh noop) c ≡ ok (record (fresh noop) { state = s })
    → is_done_state s ≡ false
    → Spells s ks t
    → ((r : List ℕ)
        → IsLine r
        → Follows rest (reader r) (run (r ++ crlf rest) (record (fresh noop) { state = t }) none))
    → IsLine w
    → Follows rest
        (read_with reader (after_keyword ks w))
        (run (c ∷ (w ++ crlf rest)) (fresh noop) none)
run_letter rest c w {s} {t} {ks} reader fed on spells reads h =
    Follows-step rest (read_with reader (after_keyword ks w))
      (run-step c (w ++ crlf rest) (fresh noop) (record (fresh noop) { state = s }) fed on)
      (Follows-read_with rest (fresh noop) s t reader w (after_keyword ks w)
        (run-Spells rest (fresh noop) spells w h) reads)

run_h :
    (rest : List ℕ) (c : ℕ) (w : List ℕ)
    → IsLine w
    → (to_lower c == b'h') ≡ true
    → Follows rest (from_letter (to_lower c) w) (run (c ∷ (w ++ crlf rest)) (fresh noop) none)
run_h rest c w h same =
    let letter : to_lower c ≡ b'h' = ground arith in
    rw letter (
      run_letter rest c w (with_domain helo) (feed_h (fresh noop) c same) refl helo-Spells
        (λ r h. run-with_domain rest helo-ReadsDomain r (fresh noop) h refl) h)

run_e :
    (rest : List ℕ) (c : ℕ) (w : List ℕ)
    → IsLine w
    → (to_lower c == b'e') ≡ true
    → Follows rest (from_letter (to_lower c) w) (run (c ∷ (w ++ crlf rest)) (fresh noop) none)
run_e rest c w h same =
    let letter : to_lower c ≡ b'e' = ground arith in
    rw letter (
      run_letter rest c w (with_domain ehlo) (feed_e (fresh noop) c same) refl ehlo-Spells
        (λ r h. run-with_domain rest ehlo-ReadsDomain r (fresh noop) h refl) h)

run_m :
    (rest : List ℕ) (c : ℕ) (w : List ℕ)
    → IsLine w
    → (to_lower c == b'm') ≡ true
    → Follows rest (from_letter (to_lower c) w) (run (c ∷ (w ++ crlf rest)) (fresh noop) none)
run_m rest c w h same =
    let letter : to_lower c ≡ b'm' = ground arith in
    rw letter (
      run_letter rest c w (with_path mail) (feed_m (fresh noop) c same) refl mail-Spells
        (λ r h. run-with_path rest mail-ReadsPath mail-Closes r (fresh noop) h refl refl) h)

run_r :
    (rest : List ℕ) (c : ℕ) (w : List ℕ)
    → IsLine w
    → (to_lower c == b'r') ≡ true
    → Follows rest (from_letter (to_lower c) w) (run (c ∷ (w ++ crlf rest)) (fresh noop) none)
run_r rest c w h same =
    let letter : to_lower c ≡ b'r' = ground arith in
    rw letter (
      run_letter rest c w (with_path rcpt) (feed_r (fresh noop) c same) refl rcpt-Spells
        (λ r h. run-with_path rest rcpt-ReadsPath rcpt-Closes r (fresh noop) h refl refl) h)

run_d :
    (rest : List ℕ) (c : ℕ) (w : List ℕ)
    → IsLine w
    → (to_lower c == b'd') ≡ true
    → Follows rest (from_letter (to_lower c) w) (run (c ∷ (w ++ crlf rest)) (fresh noop) none)
unfolding feed
run_d rest c w h same =
    let letter : to_lower c ≡ b'd' = ground arith in
    rw letter (
      run_letter rest c w (bare data_) (feed_d (fresh noop) c same) refl data-Spells
        (λ r h. run-bare rest (fresh noop) data_ verb_data refl (λ c ne. ground arith) refl r h) h)

run_q :
    (rest : List ℕ) (c : ℕ) (w : List ℕ)
    → IsLine w
    → (to_lower c == b'q') ≡ true
    → Follows rest (from_letter (to_lower c) w) (run (c ∷ (w ++ crlf rest)) (fresh noop) none)
unfolding feed
run_q rest c w h same =
    let letter : to_lower c ≡ b'q' = ground arith in
    rw letter (
      run_letter rest c w (bare quit) (feed_q (fresh noop) c same) refl quit-Spells
        (λ r h. run-bare rest (fresh noop) quit verb_quit refl (λ c ne. ground arith) refl r h) h)

-- A line that starts with another byte than a blank.
run_word :
    (rest : List ℕ) (c : ℕ) (w : List ℕ)
    → IsLine (c ∷ w)
    → is_blank c ≡ false
    → Follows rest (classify (c ∷ w)) (run (c ∷ (w ++ crlf rest)) (fresh noop) none)
run_word rest c w (ne, h) notblank = elim (Bool-cases (to_lower c == b'h')) [
  | inl same ↦ rw notblank (run_h rest c w h same)
  | inr n0 ↦ elim (Bool-cases (to_lower c == b'e')) [
    | inl same ↦ rw notblank (run_e rest c w h same)
    | inr n1 ↦ elim (Bool-cases (to_lower c == b'm')) [
      | inl same ↦ rw notblank (run_m rest c w h same)
      | inr n2 ↦ elim (Bool-cases (to_lower c == b'r')) [
        | inl same ↦ rw notblank (run_r rest c w h same)
        | inr n3 ↦ elim (Bool-cases (to_lower c == b'd')) [
          | inl same ↦ rw notblank (run_d rest c w h same)
          | inr n4 ↦ elim (Bool-cases (to_lower c == b'q')) [
            | inl same ↦ rw notblank (run_q rest c w h same)
            | inr n5 ↦ rw notblank (
                subst (λ v. Follows rest v (run (c ∷ (w ++ crlf rest)) (fresh noop) none))
                  (sym (from_letter-none (to_lower c) w n0 n1 n2 n3 n4 n5))
                  (Follows-refused rest (fresh noop) (
                    run-refeed (c ∷ w) rest (fresh noop) (ne, h)
                      (feed_other (fresh noop) c notblank n0 n1 n2 n3 n4 n5))))
          ]
        ]
      ]
    ]
  ]
]

run_verb :
    (rest w : List ℕ)
    → IsLine w
    → Follows rest (classify w) (run (w ++ crlf rest) (fresh noop) none)
unfolding feed
run_verb rest [] h = Follows-refused rest (fresh noop) (run-refeed [] rest (fresh noop) tt refl)
run_verb rest (c ∷ w) (ne, h) = elim (Bool-cases (is_blank c)) [
  | inl b ↦ rw b (
      Follows-step rest (classify w)
        (run-step c (w ++ crlf rest) (fresh noop) (fresh noop) (ground arith) refl)
        (run_verb rest w h))
  | inr b ↦ run_word rest c w (ne, h) b
]

-- A fresh parser that is fed a line without a carriage return, its line end and any further bytes
-- does what the description of the line says: if the line is a command or is refused, it stops
-- right behind the line end in the state `done`, with that command, or `unknown`, and the argument
-- of the line in its array; if the argument is longer than 32 bytes it writes outside the array;
-- and if the argument is missing it runs on in the error state behind the line end.
pub run-classify :
    (w rest : List ℕ) → IsLine w → Follows rest (classify w) (run (w ++ crlf rest) init none)
unfolding init
run-classify w rest h = run_verb rest w h
