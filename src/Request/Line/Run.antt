-- ===== src/Request/Line/Run.antt =====
-- One step of the automaton inside a run, and what it does with a line that it has refused.
use tpe_protos.Base.{ℕ, ◌≡◌, refl, ◌∙◌, false, List, [], ◌∷◌, ◌++◌, none, ok, arith}
use tpe_protos.Request.{Command, unknown, cr, done, error, Parser}
use tpe_protos.Request.Feed.{feed, refeed}
use tpe_protos.Request.Consume.{is_done_state}
use tpe_protos.Request.Consume.Refine.{Stop, run}
use tpe_protos.Base.{IsLine}

-- The end of a line, and what follows it.
abbrev pub crlf : List ℕ → List ℕ
crlf rest = b'\r' ∷ b'\n' ∷ rest

pub run-step :
    (c : ℕ) (cs : List ℕ) (p p' : Parser)
    → feed p c ≡ ok p'
    → is_done_state p'.state ≡ false
    → run (c ∷ cs) p none ≡ run cs p' none
unfolding run
run-step c cs p p' fed on = rw (fed, on) refl

-- The end of a command.
abbrev pub answered : Command → Parser → List ℕ → Stop
answered k p rest = record {
  p = record p { state = done; command = k };
  rest = rest;
  errored = none;
}

pub run_cr :
    (p : Parser) (rest : List ℕ)
    → run (b'\n' ∷ rest) (record p { state = cr }) none ≡ ok (answered p.command p rest)
unfolding run feed
run_cr p rest = refl

pub run_error :
    (w rest : List ℕ) (p : Parser)
    → IsLine w
    → run (w ++ crlf rest) (record p { state = error }) none ≡ ok (answered unknown p rest)
unfolding feed
run_error [] rest p h =
    run-step b'\r' (b'\n' ∷ rest) (record p { state = error })
      (record p { state = cr; command = unknown }) refl refl
    ∙ run_cr (record p { command = unknown }) rest
run_error (c ∷ w) rest p (ne, h) =
    run-step c (w ++ crlf rest) (record p { state = error })
      (record p { state = error; command = unknown }) (ground arith) refl
    ∙ run_error w rest (record p { command = unknown }) h

-- The byte that the parser reads next.
abbrev pub next_byte : List ℕ → ℕ
next_byte [] = b'\r'
next_byte (c ∷ w) = c

-- A line whose next byte does not fit is answered as an unknown command.
pub run-refeed :
    (w rest : List ℕ) (p : Parser)
    → IsLine w
    → feed p (next_byte w) ≡ refeed p (next_byte w)
    → run (w ++ crlf rest) p none ≡ ok (answered unknown p rest)
unfolding refeed
run-refeed [] rest p h fed =
    run-step b'\r' (b'\n' ∷ rest) p (record p { state = cr; command = unknown }) fed refl
    ∙ run_cr (record p { command = unknown }) rest
run-refeed (c ∷ w) rest p (ne, h) fed =
    run-step c (w ++ crlf rest) p (record p { state = error; command = unknown })
      (fed ∙ ground arith) refl
    ∙ run_error w rest (record p { command = unknown }) h
