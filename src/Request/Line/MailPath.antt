-- ===== src/Request/Line/MailPath.antt =====
-- The path in angle brackets behind `MAIL FROM:` and `RCPT TO:`.
use mathlib.Core.Path.{ap₂, subst}
use native.Mathlib.Decide.{dec_lt}
use tpe_protos.Base.{
  IsLine, ℕ, ◌+◌, ◌%◌, ◌≤◌, ◌<◌, ◌≡◌, ◌≢◌, refl, ap, sym, ◌∙◌, true, false, List, [], ◌∷◌, ◌++◌,
  Option, none, some, ok, err, out_of_bounds, ◌>>=◌, store, arith, lt→ltb, ◌==◌, ltb, if◌then◌else◌,
  inl, inr, Bool-cases, length, length-append, append_assoc, append-nil,
}
use tpe_protos.Request.{
  Command, mail, rcpt, State, mail_from_sep, mail_from, mail_from_sender, rcpt_to_sep, rcpt_to,
  rcpt_to_recipient, cr, error, Parser, Request, field_size,
}
use tpe_protos.Request.Feed.{feed, refeed, put_arg, go}
use tpe_protos.Request.Consume.{is_done_state}
use tpe_protos.Request.Consume.Refine.{run}
use tpe_protos.Request.Line.{
  Verdict, swallowed, overflow, is_blank, padded, until_close, closing, path, with_path,
}
use tpe_protos.Request.Line.Run.{crlf, run-step, run_cr, run_error, run-refeed}
use tpe_protos.Request.Line.Argument.{
  payload, Follows, Follows-step, Follows-refused, run_fault, run_swallow, store-padded,
  store-padded_full,
}

-- The states of a path argument: `word` before it, `read` inside it, `after` behind it.
pub record ReadsPath (k : Command) (word read after : State) : Type 0 where
  blank_word :
      (p : Parser) (c : ℕ)
      → is_blank c ≡ true
      → feed (record p { state = word }) c ≡ ok (record p { state = word })
  opens : (p : Parser) → feed (record p { state = word }) b'<' ≡ ok (record p { state = read })
  other_word :
      (p : Parser) (c : ℕ)
      → is_blank c ≡ false
      → c ≢ b'<'
      → feed (record p { state = word }) c ≡ refeed (record p { state = word }) c
  closes : (p : Parser) → feed (record p { state = read }) b'>' ≡ ok (record p { state = after })
  end_read : (p : Parser) → feed (record p { state = read }) b'\r' ≡ go error p
  more :
      (p : Parser) (c : ℕ)
      → (c == b'>') ≡ false
      → c ≢ b'\r'
      → feed (record p { state = read }) c ≡ put_arg read (record p { state = read }) c
  word_on : is_done_state word ≡ false
  read_on : is_done_state read ≡ false
  after_on : is_done_state after ≡ false
  in_arg : (r : Request) → payload k r ≡ r.arg
  short : (a : List ℕ) → closing k none a ≡ swallowed

pub mail-ReadsPath : ReadsPath mail mail_from_sep mail_from mail_from_sender
unfolding feed
mail-ReadsPath = record {
  blank_word = λ p c h. ground arith;
  opens = λ p. refl;
  other_word = λ p c h ne. ground arith;
  closes = λ p. refl;
  end_read = λ p. refl;
  more = λ p c g ne. ground arith;
  word_on = refl;
  read_on = refl;
  after_on = refl;
  in_arg = λ r. refl;
  short = λ a. refl;
}

pub rcpt-ReadsPath : ReadsPath rcpt rcpt_to_sep rcpt_to rcpt_to_recipient
unfolding feed
rcpt-ReadsPath = record {
  blank_word = λ p c h. ground arith;
  opens = λ p. refl;
  other_word = λ p c h ne. ground arith;
  closes = λ p. refl;
  end_read = λ p. refl;
  more = λ p c g ne. ground arith;
  word_on = refl;
  read_on = refl;
  after_on = refl;
  in_arg = λ r. refl;
  short = λ a. refl;
}

-- What the automaton does with the text behind the path.
abbrev pub Closes : Command → State → Type 0
Closes k after =
    (rest w a : List ℕ) (p : Parser)
    → IsLine w
    → p.request.arg ≡ padded a
    → Follows rest (closing k (some w) a) (run (w ++ crlf rest) (record p { state = after }) none)

pub mail-Closes : Closes mail mail_from_sender
unfolding feed
mail-Closes rest [] a p h e = (
  p,
  run-step b'\r' (b'\n' ∷ rest) (record p { state = mail_from_sender })
        (record p { state = cr; command = mail }) refl refl
      ∙ run_cr (record p { command = mail }) rest,
  e,
)
mail-Closes rest (c ∷ w) a p (ne, h) e =
    Follows-step rest (closing mail (some w) a)
      (run-step c (w ++ crlf rest) (record p { state = mail_from_sender })
        (record p { state = mail_from_sender }) (ground arith) refl)
      (mail-Closes rest w a p h e)

pub rcpt-Closes : Closes rcpt rcpt_to_recipient
unfolding feed
rcpt-Closes rest [] a p h e = (
  p,
  run-step b'\r' (b'\n' ∷ rest) (record p { state = rcpt_to_recipient })
        (record p { state = cr; command = rcpt }) refl refl
      ∙ run_cr (record p { command = rcpt }) rest,
  e,
)
rcpt-Closes rest (c ∷ w) a p (ne, h) e = Follows-refused rest p (
    run-step c (w ++ crlf rest) (record p { state = rcpt_to_recipient })
      (record p { state = error }) (ground arith) refl
    ∙ run_error w rest p h)

-- The parser with `a` stored as its argument.
abbrev holding : Parser → List ℕ → State → Parser
holding p a s = record p { request = record p.request { arg = padded a }; state = s; i = length a }

put_arg-stores :
    (s : State) (p : Parser) (c : ℕ) (a : List ℕ)
    → p.request.arg ≡ padded a
    → p.i ≡ length a
    → length a < field_size
    → put_arg s p c ≡ ok (holding p (a ++ (c ∷ [])) s)
unfolding put_arg
put_arg-stores s p c a e ei h =
    let index : (p.i + 1) % 256 ≡ length (a ++ (c ∷ [])) =
      omega (arith, length-append a (c ∷ [])) in
    ap
      (λ r. r >>= λ (x : List ℕ).
        ok (record p { request = record p.request { arg = x }; state = s; i = (p.i + 1) % 256 }))
      (ap₂ (λ x j. store x j c) e ei ∙ store-padded a c h)
    ∙ ap
        (λ j. ok (record p {
          request = record p.request { arg = padded (a ++ (c ∷ [])) };
          state = s;
          i = j;
        }))
        index

put_arg-full :
    (s : State) (p : Parser) (c : ℕ) (a : List ℕ)
    → p.request.arg ≡ padded a
    → p.i ≡ length a
    → length a ≡ field_size
    → put_arg s p c ≡ err out_of_bounds
unfolding put_arg
put_arg-full s p c a e ei h =
    ap
      (λ r. r >>= λ (x : List ℕ).
        ok (record p { request = record p.request { arg = x }; state = s; i = (p.i + 1) % 256 }))
      (ap₂ (λ x j. store x j c) e ei ∙ store-padded_full a c h)

-- The verdict on a path of which `a` has been read.
abbrev path_from : Command → List ℕ → List ℕ × Option (List ℕ) → Verdict
path_from k a (b, tail) =
    if ltb field_size (length (a ++ b)) then overflow else closing k tail (a ++ b)

module _ (rest : List ℕ) {k : Command} {word read after : State} (d : ReadsPath k word read after)
    (ends : Closes k after) where
  run_path :
      (w a : List ℕ) (p : Parser)
      → IsLine w
      → length a ≤ field_size
      → p.request.arg ≡ padded a
      → p.i ≡ length a
      → Follows rest
          (path_from k a (until_close w))
          (run (w ++ crlf rest) (record p { state = read }) none)
  run_path [] a p h le e i =
      let fits : ltb field_size (length (a ++ [])) ≡ false = rw append-nil (ground arith) in
      rw fits (
        subst (λ v. Follows rest v (run (crlf rest) (record p { state = read }) none))
          (sym (d.short (a ++ []))) (run_swallow rest p read (d.end_read p)))
  run_path (c ∷ w) a p (ne, h) le e i = elim (Bool-cases (c == b'>')) [
    | inl close ↦
        let here : c ≡ b'>' = ground arith in
        let fits : ltb field_size (length a) ≡ false = ground arith in
        rw (close, append-nil, fits)
          (Follows-step rest (closing k (some w) a)
            (run-step c (w ++ crlf rest) (record p { state = read }) (record p { state = after })
              (subst (λ x. feed (record p { state = read }) x ≡ ok (record p { state = after }))
                (sym here) (d.closes p))
              d.after_on)
            (ends rest w a p h e))
    | inr other ↦ elim (dec_lt (length a) field_size) [
      | yes room ↦
          rw (other, ← append_assoc a (c ∷ []) (until_close w).0)
            (Follows-step rest (path_from k (a ++ (c ∷ [])) (until_close w))
              (run-step c (w ++ crlf rest) (record p { state = read })
                (holding p (a ++ (c ∷ [])) read)
                (d.more p c other ne ∙ put_arg-stores read (record p { state = read }) c a e i room)
                d.read_on)
              (run_path w (a ++ (c ∷ [])) (holding p (a ++ (c ∷ [])) read) h
                (omega (arith, length-append a (c ∷ []))) refl refl))
      | no full ↦
          let long : ltb field_size (length (a ++ (c ∷ (until_close w).0))) ≡ true =
            lt→ltb _ _ (omega (arith, length-append a (c ∷ (until_close w).0))) in
          rw (other, long)
            (run_fault c (w ++ crlf rest) (record p { state = read })
              (d.more p c other ne
                ∙ put_arg-full read (record p { state = read }) c a e i (omega arith)))
    ]
  ]

  -- Behind the keyword.
  pub run-with_path :
      (w : List ℕ) (p : Parser)
      → IsLine w
      → p.request.arg ≡ padded []
      → p.i ≡ 0
      → Follows rest (with_path k w) (run (w ++ crlf rest) (record p { state = word }) none)
  run-with_path [] p h e i = Follows-refused rest p (
      run-refeed [] rest (record p { state = word }) tt
        (d.other_word p b'\r' refl (λ x. omega arith)))
  run-with_path (c ∷ w) p (ne, h) e i = elim (Bool-cases (is_blank c)) [
    | inl b ↦ rw b (
        Follows-step rest (with_path k w)
          (run-step c (w ++ crlf rest) (record p { state = word }) (record p { state = word })
            (d.blank_word p c b) d.word_on)
          (run-with_path w p h e i))
    | inr b ↦ elim (Bool-cases (c == b'<')) [
      | inl opened ↦
          let here : c ≡ b'<' = ground arith in
          rw (b, opened)
            (Follows-step rest (path k w)
              (run-step c (w ++ crlf rest) (record p { state = word }) (record p { state = read })
                (subst (λ x. feed (record p { state = word }) x ≡ ok (record p { state = read }))
                  (sym here) (d.opens p))
                d.read_on)
              (run_path w [] p h (omega arith) e i))
      | inr other ↦
          rw (b, other)
            (Follows-refused rest p (
              run-refeed (c ∷ w) rest (record p { state = word }) (ne, h)
                (d.other_word p c b (ground arith))))
    ]
  ]
