-- ===== src/Smtp/Flow.antt =====
-- The course of a session of smtpnio.c: the order of its states, what its descriptor is watched
-- for in each of them, and which states have a recipient.
pub mod Steps
pub mod Bodies
pub mod Mail
pub mod Handlers
pub mod Rows
pub mod Jump
pub mod Turn
pub mod Reached
pub mod Protocol
pub mod Accept
pub mod Sends
use tpe_protos.Base.{ℕ, ◌≡◌, ◌≢◌, ◌⊎◌, Option, none, some, List, [], ◌∷◌, ◌++◌, Bool, ok}
use tpe_protos.Request.{Command, data_}
use tpe_protos.RcptList.{Node}
use tpe_protos.Smtp.{
  State, Interest, op_read, op_write, Session, FileCall, create_mails_files, write_to_files,
  close_fds, World,
}
use tpe_protos.Smtp.Handlers.{rcpt_to_next}

-- The states that can follow one another.
pub data Edge : State → State → Type 0 where
  stays : (s : State) → Edge s s
  fails : (s : State) → Edge s State.error
  greeted : Edge State.greeting_write State.ehlo_read
  refused : Edge State.failed_connection_write State.failed_connection_read
  refused_again : Edge State.failed_connection_read State.failed_connection_write
  refused_bye : Edge State.failed_connection_read State.done
  ehlo_asked : Edge State.ehlo_read State.ehlo_write
  ehlo_bye : Edge State.ehlo_read State.done
  ehlo_again : Edge State.ehlo_write State.ehlo_read
  ehlo_agreed : Edge State.ehlo_write State.mail_from_read
  mail_asked : Edge State.mail_from_read State.mail_from_write
  mail_bye : Edge State.mail_from_read State.done
  mail_again : Edge State.mail_from_write State.mail_from_read
  mail_agreed : Edge State.mail_from_write State.rcpt_to_read
  rcpt_asked : Edge State.rcpt_to_read State.rcpt_to_write
  rcpt_bye : Edge State.rcpt_to_read State.done
  rcpt_without : Edge State.rcpt_to_read State.mail_from_write
  rcpt_again : Edge State.rcpt_to_write State.rcpt_to_read
  rcpt_agreed : Edge State.rcpt_to_write State.data_read
  data_asked : Edge State.data_read State.data_write
  data_bye : Edge State.data_read State.done
  data_rcpt : Edge State.data_read State.rcpt_to_write
  data_again : Edge State.data_write State.data_read
  data_agreed : Edge State.data_write State.mail_info_read
  text_ended : Edge State.mail_info_read State.mail_info_write
  mail_queued : Edge State.mail_info_write State.mail_from_read

-- The event that a state waits for; the last two wait for none.
abbrev pub awaits : State → Option Interest
awaits State.greeting_write = some op_write
awaits State.failed_connection_read = some op_read
awaits State.failed_connection_write = some op_write
awaits State.ehlo_read = some op_read
awaits State.ehlo_write = some op_write
awaits State.mail_from_read = some op_read
awaits State.mail_from_write = some op_write
awaits State.rcpt_to_read = some op_read
awaits State.rcpt_to_write = some op_write
awaits State.data_read = some op_read
awaits State.data_write = some op_write
awaits State.mail_info_read = some op_read
awaits State.mail_info_write = some op_write
awaits State.done = none
awaits State.error = none

abbrev pub Agrees : Option Interest → Interest → Type 0
Agrees none i = Unit {0}
Agrees (some j) i = i ≡ j

abbrev pub HasNode : List Node → Type 0
HasNode [] = ⊥
HasNode (node ∷ nodes) = Unit {0}

-- From DATA on there is a recipient; so there is when the answer to RCPT leads there.
abbrev pub Named : State → Session → Type 0
Named State.rcpt_to_write x =
    HasNode x.rcpt_list
    ⊎ (rcpt_to_next x.request_parser.command x.request_parser.request.arg ≢ ok State.data_read)
Named State.data_read x = HasNode x.rcpt_list
Named State.data_write x = HasNode x.rcpt_list
Named State.mail_info_read x = HasNode x.rcpt_list
Named State.mail_info_write x = HasNode x.rcpt_list
Named _ x = Unit {0}

-- The calls on files are mails one behind the other: each is created for some recipients, written
-- and closed for the same ones. `some nodes` is a mail that is open for them.
pub data Mails : List FileCall → Option (List Node) → Type 0 where
  no_mail : Mails [] none
  created :
      (calls : List FileCall) (nodes : List Node) (mailfrom : List ℕ) (program : Option (List ℕ))
      (transformation : Bool)
      → Mails calls none
      → HasNode nodes
      → Mails
          (calls ++ (create_mails_files nodes mailfrom program transformation ∷ []))
          (some nodes)
  written :
      (calls : List FileCall) (nodes : List Node) (text : List ℕ)
      → Mails calls (some nodes)
      → Mails (calls ++ (write_to_files nodes text ∷ [])) (some nodes)
  closed :
      (calls : List FileCall) (nodes : List Node)
      → Mails calls (some nodes)
      → Mails (calls ++ (close_fds nodes ∷ [])) none

-- The mail behind an answer in `data_write`: it has been created for DATA alone.
abbrev pub Answered : Command → List Node → List FileCall → Type 0
Answered data_ nodes calls = Mails calls (some nodes)
Answered _ nodes calls = Mails calls none

-- The mail that is open in a state: one for the recipients of the session while its text is read and
-- answered, at the end perhaps one that has been given up, and else none.
abbrev pub Filing : State → Session → List FileCall → Type 0
Filing State.data_write x calls = Answered x.request_parser.command x.rcpt_list calls
Filing State.mail_info_read x calls = Mails calls (some x.rcpt_list)
Filing State.mail_info_write x calls = Mails calls (some x.rcpt_list)
Filing State.done x calls = (mail : Option (List Node)) × Mails calls mail
Filing State.error x calls = (mail : Option (List Node)) × Mails calls mail
Filing _ x calls = Mails calls none

-- When a handler of the state `s` goes on to `next`: the mail is still open behind `mail_info_write`,
-- whose departure closes it.
abbrev pub Filed : State → State → Session → List FileCall → Type 0
Filed State.mail_info_write next x calls = Mails calls (some x.rcpt_list)
Filed _ next x calls = Filing next x calls

-- Files are made and written for a recipient at least.
abbrev pub Addressed : List FileCall → Type 0
Addressed [] = Unit {0}
Addressed (create_mails_files nodes _ _ _ ∷ calls) = HasNode nodes × Addressed calls
Addressed (write_to_files nodes _ ∷ calls) = HasNode nodes × Addressed calls
Addressed (close_fds _ ∷ calls) = Addressed calls

-- What holds of a session that a handler of the state `s` leaves for the state `next`.
pub record Comes (s next : State) (w : World) : Type 0 where
  pub watched : Agrees (awaits next) w.interest
  pub named : Named next w.session
  pub filed : Filed s next w.session w.calls

-- What holds of a session in the state `s`.
abbrev pub Sound : State → World → Type 0
Sound s w = Comes s s w

-- What a handler of the state `s` may do: go on to `next` and leave the world as `w`.
pub record Goes (s next : State) (w : World) : Type 0 where
  pub edge : Edge s next
  pub sound : Comes s next w
