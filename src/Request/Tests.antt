-- ===== src/Request/Tests.antt =====
-- Runs of request.c: the inputs of request_test.c, and the theorems at concrete lines. For `mail`
-- without its argument that test expects request_error, and the code ends in request_done with the
-- unknown command.
use tpe_protos.Base.{
  codes, ℕ, ◌≡◌, refl, Option, none, some, List, [], ◌++◌, ok, err, out_of_bounds, inl, arith,
  replicate,
}
use tpe_protos.Buffer.{Buffer}
use tpe_protos.Request.{Command, mail, rcpt, data_, unknown, State, done, error, Parser, init}
use tpe_protos.Request.Feed.{feed}
use tpe_protos.Request.Consume.Refine.{run}
use tpe_protos.Request.Line.{classify, padded}
use tpe_protos.Request.Line.Run.{crlf, answered}
use tpe_protos.Request.Line.Argument.{Follows}
use tpe_protos.Request.Line.Classified.{run-classify}
use tpe_protos.Request.Line.Consequences.{
  line_of, if_nil, run-mail, run-rcpt, run-long_path, run-helo_blank,
}

-- The state and the command in which a run over the bytes ends.
abbrev ending : List ℕ → Option (State × Command)
ending w = let r = run w init none in elim r [ ok s ↦ some (s.p.state, s.p.command) | err f ↦ none ]

test_data : ending (codes "data\r\n") ≡ some (done, data_)
unfolding run init feed
test_data = refl

test_mail_from : ending (codes "mail from: abc\r\n") ≡ some (done, unknown)
unfolding run init feed
test_mail_from = refl

-- The test `test_verb_mult` asserts request_error here.
test_verb_mult : ending (codes "mail\r\n") ≡ some (done, unknown)
unfolding run init feed
test_verb_mult = refl

test_rcpt_to : ending (codes "rcpt to: <b>\r\n") ≡ some (done, rcpt)
unfolding run init feed
test_rcpt_to = refl

test_invalid : ending (codes "asda\r\n") ≡ some (done, unknown)
unfolding run init feed
test_invalid = refl

test_mail_no_close : ending (codes "mail from:<a\r\n") ≡ some (error, unknown)
unfolding run init feed
test_mail_no_close = refl

abbrev address : List ℕ
address = codes "ana@smtpd.com"

run-classify_example :
    Follows
      (codes "quit")
      (classify (codes "  Helo x y"))
      (run (codes "  Helo x y" ++ crlf (codes "quit")) init none)
run-classify_example = run-classify (codes "  Helo x y") (codes "quit") (omega arith)

run-mail_example :
    (q : Parser) × (run
        (line_of (codes "MAIL From:") (codes " ") address (codes " x") ++ crlf [])
        init
        none
      ≡ ok (answered mail q []))
    × (q.request.arg ≡ padded address)
run-mail_example =
    run-mail (codes "MAIL From:") (codes " ") address (codes " x") [] (omega arith) (refl, tt)
      (omega arith) (omega arith) (omega arith)

run-rcpt_example :
    (q : Parser) × (run (line_of (codes "RCPT to:") [] address [] ++ crlf []) init none
      ≡ ok (answered (if_nil [] rcpt unknown) q []))
    × (◌≡◌ {A = List ℕ} [] [] → q.request.arg ≡ padded address)
run-rcpt_example =
    run-rcpt (codes "RCPT to:") [] address [] [] (omega arith) tt (omega arith) tt (omega arith)

run-long_path_example :
    run (line_of (codes "mail from:") [] (replicate 33 b'a') [] ++ crlf []) init none
    ≡ err out_of_bounds
run-long_path_example =
    run-long_path (codes "mail from:") [] (replicate 33 b'a') [] [] (inl (omega arith)) tt
      (omega arith) tt (omega arith)

run-helo_blank_example :
    (q : Parser) × (run ((codes "HELO" ++ codes " ") ++ crlf (codes "ehlo x" ++ crlf [])) init none
      ≡ ok (answered unknown q []))
run-helo_blank_example =
    run-helo_blank (codes "HELO") [] (codes "ehlo x") [] b' ' (omega arith) (refl, tt) (omega arith)

abbrev memory : Buffer
memory = record { bytes = codes "xquit\r\nrest"; limit = 11; read_at = 1; write_at = 11 }
