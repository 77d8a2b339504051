-- ===== src/Request.antt =====
-- request.h and the start of request.c: the parser of an SMTP command line, its state and its
-- outputs. The byte automaton is in Request/Feed.antt, the loop over a buffer in
-- Request/Consume.antt.
pub mod Feed
pub mod Consume
pub mod Size
pub mod Line
mod Tests
use tpe_protos.Base.{ℕ, List, replicate}

pub data Command : Type 0 where
  ehlo helo mail rcpt data_ rset quit noop vrfy expn help unknown : Command

pub data State : Type 0 where
  verb : State
  verb_e verb_eh verb_ehl verb_ehlo : State
  verb_h verb_he verb_hel verb_helo : State
  verb_m verb_ma verb_mai verb_mail verb_mail_ : State
  verb_mail_f verb_mail_fr verb_mail_fro verb_mail_from : State
  verb_r verb_rc verb_rcp verb_rcpt verb_rcpt_ verb_rcpt_t verb_rcpt_to : State
  verb_d verb_da verb_dat verb_data : State
  verb_q verb_qu verb_qui verb_quit : State
  helo_sep helo_domain : State
  ehlo_sep ehlo_domain : State
  mail_from_sep mail_from mail_from_sender : State
  rcpt_to_sep rcpt_to rcpt_to_recipient : State
  cr : State
  done : State
  error : State

pub Command-discrete : Discrete Command
Command-discrete = hlevel

-- `struct request`: two arrays of 32 bytes.
pub record Request : Type 0 where
  pub arg : List ℕ
  pub domain : List ℕ

-- `struct request_parser`. The pointer `request` is always that of the request in the same
-- session, so the request stands here itself. `i` is a `uint8_t`.
pub record Parser : Type 0 where
  pub request : Request
  pub state : State
  pub command : Command
  pub i : ℕ

abbrev pub field_size : ℕ
field_size = 32

-- `memset(p->request, 0, sizeof(*(p->request)))`
abbrev pub blank : Request
blank = record { arg = replicate field_size 0; domain = replicate field_size 0 }

unfoldable pub init : Parser
init = record { request = blank; state = verb; command = noop; i = 0 }
