-- ===== src/Request/Feed.antt =====
-- `request_parser_feed` of request.c. Its `switch` over the state is cut into pieces: each piece
-- has the cases of one keyword or argument, and its last clause goes on to the next piece. The
-- value that the C function returns is the state that it leaves in the parser.
use tpe_protos.Base.{ℕ, ◌+◌, ◌%◌, ◌||◌, Result, ok, ◌>>=◌, store, ◌==◌, if◌then◌else◌}
use tpe_protos.Request.{
  Command, ehlo, helo, mail, rcpt, data_, quit, unknown, State, verb, verb_e, verb_eh, verb_ehl,
  verb_ehlo, verb_h, verb_he, verb_hel, verb_helo, verb_m, verb_ma, verb_mai, verb_mail, verb_mail_,
  verb_mail_f, verb_mail_fr, verb_mail_fro, verb_mail_from, verb_r, verb_rc, verb_rcp, verb_rcpt,
  verb_rcpt_, verb_rcpt_t, verb_rcpt_to, verb_d, verb_da, verb_dat, verb_data, verb_q, verb_qu,
  verb_qui, verb_quit, helo_sep, helo_domain, ehlo_sep, ehlo_domain, mail_from_sep, mail_from,
  mail_from_sender, rcpt_to_sep, rcpt_to, rcpt_to_recipient, cr, done, error, Parser,
}

-- `next = s`, and then `p->state = next`.
abbrev pub go : State → Parser → Result Parser
go s p = ok (record p { state = s })

-- `next = s; p->command = k`
abbrev pub accept : Command → State → Parser → Result Parser
accept k s p = ok (record p { state = s; command = k })

-- The case of `request_error`.
unfoldable pub feed_error : Parser → ℕ → Result Parser
feed_error p c =
    if c == b'\r'
    then go cr (record p { command = unknown })
    else go error (record p { command = unknown })

-- `p->state = request_error; return request_parser_feed(p, c)`
unfoldable pub refeed : Parser → ℕ → Result Parser
unfolding feed_error
refeed p c = feed_error (record p { state = error }) c

-- One letter of a keyword, in either case.
unfoldable pub expect : ℕ → ℕ → State → Parser → ℕ → Result Parser
unfolding refeed
expect low up s p c = if c == low || c == up then go s p else refeed p c

-- `p->request->domain[p->i++] = c` on a parser whose index is `i`.
unfoldable pub put_domain : State → ℕ → Parser → ℕ → Result Parser
put_domain s i p c = do
  domain ← store p.request.domain i c
  ok (record p { request = record p.request { domain = domain }; state = s; i = (i + 1) % 256 })

-- `p->request->arg[p->i++] = c`
unfoldable pub put_arg : State → Parser → ℕ → Result Parser
put_arg s p c = do
  arg ← store p.request.arg p.i c
  ok (record p { request = record p.request { arg = arg }; state = s; i = (p.i + 1) % 256 })

-- The last cases, and `default`.
unfoldable pub feed_end : State → Parser → ℕ → Result Parser
unfolding feed_error
feed_end cr p c = if c == b'\n' then go done p else go verb p
feed_end done p c = go p.state p
feed_end error p c = feed_error p c
feed_end _ p c = go error p

unfoldable pub feed_rcpt_to : State → Parser → ℕ → Result Parser
unfolding feed_end put_arg refeed
feed_rcpt_to rcpt_to_sep p c =
    if c == b' ' || c == b'\t'
    then go rcpt_to_sep p
    else if c == b'<'
    then go rcpt_to p
    else refeed p c
feed_rcpt_to rcpt_to p c =
    if c == b'>'
    then go rcpt_to_recipient p
    else if c == b'\r'
    then go error p
    else put_arg rcpt_to p c
feed_rcpt_to rcpt_to_recipient p c = if c == b'\r' then accept rcpt cr p else go error p
feed_rcpt_to s p c = feed_end s p c

unfoldable pub feed_mail_from : State → Parser → ℕ → Result Parser
unfolding feed_rcpt_to put_arg refeed
feed_mail_from mail_from_sep p c =
    if c == b' ' || c == b'\t'
    then go mail_from_sep p
    else if c == b'<'
    then go mail_from p
    else refeed p c
feed_mail_from mail_from p c =
    if c == b'>'
    then go mail_from_sender p
    else if c == b'\r'
    then go error p
    else put_arg mail_from p c
feed_mail_from mail_from_sender p c = if c == b'\r' then accept mail cr p else go mail_from_sender p
feed_mail_from s p c = feed_rcpt_to s p c

unfoldable pub feed_ehlo_domain : State → Parser → ℕ → Result Parser
unfolding feed_mail_from put_domain
feed_ehlo_domain ehlo_sep p c =
    if c == b' ' || c == b'\t'
    then go ehlo_sep p
    else if c == b'\r'
    then go error p
    else put_domain ehlo_domain 0 p c
feed_ehlo_domain ehlo_domain p c =
    if c == b'\r' then accept ehlo cr p else put_domain ehlo_domain p.i p c
feed_ehlo_domain s p c = feed_mail_from s p c

unfoldable pub feed_helo_domain : State → Parser → ℕ → Result Parser
unfolding feed_ehlo_domain put_domain
feed_helo_domain helo_sep p c =
    if c == b' ' || c == b'\t'
    then go helo_sep p
    else if c == b'\r'
    then go error p
    else put_domain helo_domain 0 p c
feed_helo_domain helo_domain p c =
    if c == b'\r' then accept helo cr p else put_domain helo_domain p.i p c
feed_helo_domain s p c = feed_ehlo_domain s p c

unfoldable pub feed_quit : State → Parser → ℕ → Result Parser
unfolding feed_helo_domain expect
feed_quit verb_q p c = expect b'u' b'U' verb_qu p c
feed_quit verb_qu p c = expect b'i' b'I' verb_qui p c
feed_quit verb_qui p c = expect b't' b'T' verb_quit p c
feed_quit verb_quit p c = if c == b'\r' then accept quit cr p else go error p
feed_quit s p c = feed_helo_domain s p c

unfoldable pub feed_data : State → Parser → ℕ → Result Parser
unfolding feed_quit expect
feed_data verb_d p c = expect b'a' b'A' verb_da p c
feed_data verb_da p c = expect b't' b'T' verb_dat p c
feed_data verb_dat p c = expect b'a' b'A' verb_data p c
feed_data verb_data p c = if c == b'\r' then accept data_ cr p else go error p
feed_data s p c = feed_quit s p c

unfoldable pub feed_rcpt : State → Parser → ℕ → Result Parser
unfolding feed_data expect
feed_rcpt verb_r p c = expect b'c' b'C' verb_rc p c
feed_rcpt verb_rc p c = expect b'p' b'P' verb_rcp p c
feed_rcpt verb_rcp p c = expect b't' b'T' verb_rcpt p c
feed_rcpt verb_rcpt p c = expect b' ' b' ' verb_rcpt_ p c
feed_rcpt verb_rcpt_ p c = expect b't' b'T' verb_rcpt_t p c
feed_rcpt verb_rcpt_t p c = expect b'o' b'O' verb_rcpt_to p c
feed_rcpt verb_rcpt_to p c = expect b':' b':' rcpt_to_sep p c
feed_rcpt s p c = feed_data s p c

unfoldable pub feed_mail : State → Parser → ℕ → Result Parser
unfolding feed_rcpt expect
feed_mail verb_m p c = expect b'a' b'A' verb_ma p c
feed_mail verb_ma p c = expect b'i' b'I' verb_mai p c
feed_mail verb_mai p c = expect b'l' b'L' verb_mail p c
feed_mail verb_mail p c = expect b' ' b' ' verb_mail_ p c
feed_mail verb_mail_ p c = expect b'f' b'F' verb_mail_f p c
feed_mail verb_mail_f p c = expect b'r' b'R' verb_mail_fr p c
feed_mail verb_mail_fr p c = expect b'o' b'O' verb_mail_fro p c
feed_mail verb_mail_fro p c = expect b'm' b'M' verb_mail_from p c
feed_mail verb_mail_from p c = expect b':' b':' mail_from_sep p c
feed_mail s p c = feed_rcpt s p c

unfoldable pub feed_ehlo : State → Parser → ℕ → Result Parser
unfolding feed_mail expect
feed_ehlo verb_e p c = expect b'h' b'H' verb_eh p c
feed_ehlo verb_eh p c = expect b'l' b'L' verb_ehl p c
feed_ehlo verb_ehl p c = expect b'o' b'O' verb_ehlo p c
feed_ehlo verb_ehlo p c = expect b' ' b'\t' ehlo_sep p c
feed_ehlo s p c = feed_mail s p c

unfoldable pub feed_helo : State → Parser → ℕ → Result Parser
unfolding feed_ehlo expect
feed_helo verb_h p c = expect b'e' b'E' verb_he p c
feed_helo verb_he p c = expect b'l' b'L' verb_hel p c
feed_helo verb_hel p c = expect b'o' b'O' verb_helo p c
feed_helo verb_helo p c = expect b' ' b'\t' helo_sep p c
feed_helo s p c = feed_ehlo s p c

unfoldable pub feed_verb : State → Parser → ℕ → Result Parser
unfolding feed_helo refeed
feed_verb verb p c =
    if c == b'h' || c == b'H'
    then go verb_h p
    else if c == b'e' || c == b'E'
    then go verb_e p
    else if c == b'm' || c == b'M'
    then go verb_m p
    else if c == b'r' || c == b'R'
    then go verb_r p
    else if c == b'd' || c == b'D'
    then go verb_d p
    else if c == b'q' || c == b'Q'
    then go verb_q p
    else if c == b' ' || c == b'\t'
    then go verb p
    else refeed p c
feed_verb s p c = feed_helo s p c

-- `request_parser_feed`
unfoldable pub feed : Parser → ℕ → Result Parser
unfolding feed_verb
feed p c = feed_verb p.state p c
