-- ===== src/Args/Tests.antt =====
-- Witnesses for args.c.
use tpe_protos.Base.{ℕ, ◌≡◌, refl, List, [], ◌∷◌, codes, decimal, leb, if◌then◌else◌}
use tpe_protos.Args.{exits, goes, port, defaults, parse_args}
use tpe_protos.Args.Port.{port-decimal}
use tpe_protos.Args.Options.{
  Setting, program, smtp_port, says_program, says_smtp_port, AllSay, none_says, next_says, settled,
  parse_args-AllSay,
}

port-decimal_example : port (decimal 2525) ≡ (if leb 2525 65535 then goes 2525 else exits 1)
port-decimal_example = port-decimal 2525

abbrev options : List (ℕ × List ℕ)
options = (b'p', codes "2525") ∷ (b'T', codes "cat") ∷ (b'p', codes "25") ∷ []

abbrev settings : List Setting
settings = smtp_port 2525 ∷ program (codes "cat") ∷ smtp_port 25 ∷ []

port_2525 : port (codes "2525") ≡ goes 2525
unfolding port
port_2525 = refl

port_25 : port (codes "25") ≡ goes 25
unfolding port
port_25 = refl

all_say : AllSay settings options
all_say =
    next_says (smtp_port 2525) _ b'p' (codes "2525") _
      (says_smtp_port 2525 (codes "2525") port_2525)
      (next_says (program (codes "cat")) _ b'T' (codes "cat") _ (says_program (codes "cat")) (
        next_says (smtp_port 25) [] b'p' (codes "25") [] (says_smtp_port 25 (codes "25") port_25)
          none_says))

parse_args-AllSay_example : parse_args options [] ≡ goes (settled defaults settings)
parse_args-AllSay_example = parse_args-AllSay settings options all_say
