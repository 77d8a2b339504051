-- ===== src/Request/Line/Argument.antt =====
-- What the automaton of request.c does with the text behind a keyword.
use tpe_protos.Base.{
  IsLine, ℕ, suc, ◌-◌, ◌≤◌, ◌<◌, ◌≡◌, ◌≢◌, refl, ap, ◌∙◌, true, false, List, [], ◌∷◌, ◌++◌, none,
  Result, ok, err, out_of_bounds, store, arith, inl, inr, Bool-cases, length, set, replicate,
  length-append, length-replicate,
}
use tpe_protos.Request.{
  Command, helo, ehlo, mail, rcpt, unknown, State, cr, error, Parser, Request, field_size,
}
use tpe_protos.Request.Feed.{feed, accept, go}
use tpe_protos.Request.Consume.{is_done_state}
use tpe_protos.Request.Consume.Refine.{Stop, run}
use tpe_protos.Request.Line.{
  Verdict, accepted, swallowed, overflow, refused, is_blank, skip_blanks, padded, bare,
}
use tpe_protos.Request.Line.Run.{crlf, run-step, run_cr, answered, run_error}

-- The array that holds the argument of a command.
abbrev pub payload : Command → Request → List ℕ
payload mail r = r.arg
payload rcpt r = r.arg
payload helo r = r.domain
payload ehlo r = r.domain
payload _ r = []

-- What a verdict on a line says of the run over the line, its end and what follows: it stops just
-- behind the line with this command and argument, or it goes on in the error state behind the
-- line, or it writes outside an array.
abbrev pub Follows : List ℕ → Verdict → Result Stop → Type 0
Follows rest (accepted k a) r =
    (q : Parser) × (r ≡ ok (answered k q rest)) × (payload k q.request ≡ a)
Follows rest swallowed r = (q : Parser) × (r ≡ run rest (record q { state = error }) none)
Follows rest overflow r = r ≡ err out_of_bounds

pub Follows-step :
    (rest : List ℕ) (v : Verdict) {r r' : Result Stop}
    → r ≡ r'
    → Follows rest v r'
    → Follows rest v r
Follows-step rest v e f = rw e f

pub Follows-refused :
    (rest : List ℕ) (p : Parser) {r : Result Stop}
    → r ≡ ok (answered unknown p rest)
    → Follows rest refused r
Follows-refused rest p e = (p, e, refl)

pub run_fault :
    (c : ℕ) (cs : List ℕ) (p : Parser)
    → feed p c ≡ err out_of_bounds
    → run (c ∷ cs) p none ≡ err out_of_bounds
unfolding run
run_fault c cs p fault = rw fault refl

pub IsLine-skip_blanks : (w : List ℕ) → IsLine w → IsLine (skip_blanks w)
IsLine-skip_blanks [] h = tt
IsLine-skip_blanks (c ∷ w) (ne, h) = elim (Bool-cases (is_blank c)) [
  | inl b ↦ rw b (IsLine-skip_blanks w h)
  | inr b ↦ rw b (ne, h)
]

module _ (rest : List ℕ) (p : Parser) (s : State)
    (blank_stays : (c : ℕ)
      → is_blank c ≡ true
      → feed (record p { state = s }) c ≡ ok (record p { state = s }))
    (on : is_done_state s ≡ false) where
  pub run-skip_blanks :
      (w : List ℕ)
      → run (w ++ crlf rest) (record p { state = s }) none
        ≡ run (skip_blanks w ++ crlf rest) (record p { state = s }) none
  run-skip_blanks [] = refl
  run-skip_blanks (c ∷ w) = elim (Bool-cases (is_blank c)) [
    | inl b ↦ rw b (
        run-step c (w ++ crlf rest) (record p { state = s }) (record p { state = s })
          (blank_stays c b) on
        ∙ run-skip_blanks w)
    | inr b ↦ rw b refl
  ]

-- The state behind `DATA` and `QUIT`.
pub run-bare :
    (rest : List ℕ) (p : Parser) (k : Command) (s : State)
    → (feed (record p { state = s }) b'\r' ≡ accept k cr (record p { state = s }))
    → ((c : ℕ) → c ≢ b'\r' → feed (record p { state = s }) c ≡ go error (record p { state = s }))
    → (payload k p.request ≡ [])
    → (w : List ℕ) → IsLine w
    → Follows rest (bare k w) (run (w ++ crlf rest) (record p { state = s }) none)
run-bare rest p k s end other pl [] h = (
  p,
  run-step b'\r' (b'\n' ∷ rest) (record p { state = s }) (record p { state = cr; command = k }) end
        refl
      ∙ run_cr (record p { command = k }) rest,
  pl,
)
run-bare rest p k s end other pl (c ∷ w) (ne, h) = (
  p,
  run-step c (w ++ crlf rest) (record p { state = s }) (record p { state = error }) (other c ne)
        refl
      ∙ run_error w rest p h,
  refl,
)

-- A line end that the automaton takes for an error is not seen as one.
pub run_swallow :
    (rest : List ℕ) (p : Parser) (s : State)
    → feed (record p { state = s }) b'\r' ≡ go error p
    → Follows rest swallowed (run (crlf rest) (record p { state = s }) none)
unfolding feed
run_swallow rest p s end = (
  record p { command = unknown },
  run-step b'\r' (b'\n' ∷ rest) (record p { state = s }) (record p { state = error }) end refl
      ∙ run-step b'\n' rest (record p { state = error })
          (record p { state = error; command = unknown }) refl refl,
)

-- Writing the next byte of an array that holds `a`.
set-padding :
    (a : List ℕ) (n c : ℕ)
    → set (a ++ replicate (suc n) 0) (length a) c ≡ (a ++ (c ∷ [])) ++ replicate n 0
set-padding [] n c = refl
set-padding (x ∷ a) n c = ap (◌∷◌ x) (set-padding a n c)

pub length-padded : (a : List ℕ) → length a ≤ field_size → length (padded a) ≡ field_size
length-padded a h = omega (
  arith,
  length-append a (replicate (field_size - length a) 0),
  length-replicate {A = ℕ} (field_size - length a) 0,
)

pub store-padded :
    (a : List ℕ) (c : ℕ)
    → length a < field_size
    → store (padded a) (length a) c ≡ ok (padded (a ++ (c ∷ [])))
store-padded a c h =
    let more : field_size - length a ≡ suc (field_size - suc (length a)) = omega arith in
    let fewer : field_size - length (a ++ (c ∷ [])) ≡ field_size - suc (length a) =
      omega (arith, length-append a (c ∷ [])) in
    ground (
      arith,
      length-padded a,
      ap (λ n. set (a ++ replicate n 0) (length a) c) more,
      set-padding a (field_size - suc (length a)) c,
      ap (λ n. (a ++ (c ∷ [])) ++ replicate n 0) fewer,
    )

pub store-padded_full :
    (a : List ℕ) (c : ℕ) → length a ≡ field_size → store (padded a) (length a) c ≡ err out_of_bounds
store-padded_full a c h = ground (arith, length-padded a)
