-- ===== src/Smtp/Flow/Rows.antt =====
-- The rows of the table of smtpnio.c in the course of a session.
use tpe_protos.Base.{
  some, none, codes, c_string, Bool-cases, Option, ◌≡◌, refl, ◌⊎◌, inl, inr, List, ℕ, Result, ok,
  Holds, Holds-value, Holds-then,
}
use tpe_protos.Request.{Command, ehlo, helo, mail, rcpt, data_}
use tpe_protos.Smtp.{FileCall, Session, State, Interest, op_read, op_write, World}
use tpe_protos.Smtp.Io.{check_email_domain}
use tpe_protos.Smtp.Process.{
  failed_connection_body, failed_connection_read_process, ehlo_body, ehlo_read_process,
  mail_from_body, mail_from_read_process, rcpt_to_body, rcpt_to_read_process, data_body,
  data_read_process, mail_info_read_process,
}
use tpe_protos.Stm.{Definition}
use tpe_protos.Smtp.Handlers.{
  row, callback, failed_connection_read, failed_connection_write, greeting_write, ehlo_read,
  ehlo_write, mail_from_read, mail_from_write, rcpt_to_read, rcpt_to_write, data_read, data_write,
  mail_info_read, mail_info_write, ehlo_next, mail_from_next, rcpt_to_next, data_next,
}
use tpe_protos.Smtp.Flow.{
  Edge, greeted, refused, ehlo_again, ehlo_agreed, mail_again, mail_agreed, rcpt_again, rcpt_agreed,
  data_again, data_agreed, mail_queued, awaits, Agrees, Sound, Goes, Named, HasNode, Mails,
  Answered, Filing,
}
use tpe_protos.Smtp.Flow.Steps.{Kept}
use tpe_protos.Smtp.Flow.Bodies.{
  Kept-Mails, failed_connection_body-Goes, ehlo_body-Goes, mail_from_body-Goes, rcpt_to_body-Goes,
}
use tpe_protos.Smtp.Flow.Mail.{data_body-Goes, mail_info_read_process-Goes}
use tpe_protos.Smtp.Flow.Handlers.{
  read_status-Goes, answer-Goes, write_status-Goes, write_text-Goes,
}

-- The callback of a row for an event.
abbrev pub pick : Interest → Definition World → Option (World → Result (ℕ × World))
pick op_read d = d.on_read_ready
pick op_write d = d.on_write_ready

-- The handler of a state; the last two have none.
abbrev pub handler : State → World → Result (State × World)
handler State.greeting_write = greeting_write
handler State.failed_connection_read = failed_connection_read
handler State.failed_connection_write = failed_connection_write
handler State.ehlo_read = ehlo_read
handler State.ehlo_write = ehlo_write
handler State.mail_from_read = mail_from_read
handler State.mail_from_write = mail_from_write
handler State.rcpt_to_read = rcpt_to_read
handler State.rcpt_to_write = rcpt_to_write
handler State.data_read = data_read
handler State.data_write = data_write
handler State.mail_info_read = mail_info_read
handler State.mail_info_write = mail_info_write
handler s = λ w. ok (s, w)

-- The row of the state `s` has its handler as the callback for the event `i`, and it goes on from
-- the world `w`.
abbrev pub Serves : State → Interest → World → Type 0
Serves s i w = (pick i (row s) ≡ callback (handler s)) × Holds (λ r. Goes s r.0 r.1) (handler s w)

failed_connection_read-Serves :
    (w : World)
    → Sound State.failed_connection_read w
    → Serves State.failed_connection_read op_read w
unfolding row failed_connection_read failed_connection_read_process
failed_connection_read-Serves w h = (
  refl,
  read_status-Goes State.failed_connection_read failed_connection_read_process w h (λ w' h'.
      answer-Goes State.failed_connection_read
        (λ v. failed_connection_body v.session.request_parser.command v) w' h'
        (λ v k. (tt, Kept-Mails k h'.filed))
        (λ v n i a. failed_connection_body-Goes v.session.request_parser.command v i a)),
)

ehlo_read-Serves : (w : World) → Sound State.ehlo_read w → Serves State.ehlo_read op_read w
unfolding row ehlo_read ehlo_read_process
ehlo_read-Serves w h = (
  refl,
  read_status-Goes State.ehlo_read ehlo_read_process w h (λ w' h'.
      answer-Goes State.ehlo_read (λ v. ehlo_body v.session.request_parser.command v) w' h'
        (λ v k. (tt, Kept-Mails k h'.filed))
        (λ v n i a. ehlo_body-Goes v.session.request_parser.command v i a)),
)

mail_from_read-Serves :
    (w : World) → Sound State.mail_from_read w → Serves State.mail_from_read op_read w
unfolding row mail_from_read mail_from_read_process
mail_from_read-Serves w h = (
  refl,
  read_status-Goes State.mail_from_read mail_from_read_process w h (λ w' h'.
      answer-Goes State.mail_from_read (λ v. mail_from_body v.session.request_parser.command v) w'
        h' (λ v k. (tt, Kept-Mails k h'.filed))
        (λ v n i a. mail_from_body-Goes v.session.request_parser.command v i a)),
)

rcpt_to_read-Serves : (w : World) → Sound State.rcpt_to_read w → Serves State.rcpt_to_read op_read w
unfolding row rcpt_to_read rcpt_to_read_process
rcpt_to_read-Serves w h = (
  refl,
  read_status-Goes State.rcpt_to_read rcpt_to_read_process w h (λ w' h'.
      answer-Goes State.rcpt_to_read (λ v. rcpt_to_body v.session.request_parser.command v) w' h'
        (λ v k. (tt, Kept-Mails k h'.filed))
        (λ v n i a. rcpt_to_body-Goes v.session.request_parser.command v i refl a)),
)

data_read-Serves : (w : World) → Sound State.data_read w → Serves State.data_read op_read w
unfolding row data_read data_read_process
data_read-Serves w h = (
  refl,
  read_status-Goes State.data_read data_read_process w h (λ w' h'.
      answer-Goes State.data_read (λ v. data_body v.session.request_parser.command v) w' h'
        (λ v k. (rw k.nodes h'.named, Kept-Mails k h'.filed))
        (λ v n i a. data_body-Goes v.session.request_parser.command v i refl n a)),
)

mail_info_read-Serves :
    (w : World) → Sound State.mail_info_read w → Serves State.mail_info_read op_read w
unfolding row mail_info_read
mail_info_read-Serves w h = (
  refl,
  read_status-Goes State.mail_info_read mail_info_read_process w h
      (λ w' h'. mail_info_read_process-Goes w' h'.watched h'.named h'.filed),
)

greeting_write-Serves :
    (w : World) → Sound State.greeting_write w → Serves State.greeting_write op_write w
unfolding row greeting_write
greeting_write-Serves w h = (
  refl,
  write_text-Goes (codes "220 localhost SMTP\r\n") State.greeting_write State.ehlo_read w h greeted
      (λ w' k. (tt, Kept-Mails k h.filed)) refl,
)

failed_connection_write-Serves :
    (w : World)
    → Sound State.failed_connection_write w
    → Serves State.failed_connection_write op_write w
unfolding row failed_connection_write
failed_connection_write-Serves w h = (
  refl,
  write_text-Goes (codes "554 failed connection to localhost SMTP - Use QUIT to close\r\n")
      State.failed_connection_write State.failed_connection_read w h refused
      (λ w' k. (tt, Kept-Mails k h.filed)) refl,
)

abbrev Follows : State → State → Type 0
Follows s next = Edge s next × Agrees (awaits next) op_read

ehlo_next-Follows : (c : Command) → Follows State.ehlo_write (ehlo_next c)
ehlo_next-Follows ehlo = (ehlo_agreed, refl)
ehlo_next-Follows helo = (ehlo_agreed, refl)
ehlo_next-Follows _ = (ehlo_again, refl)

-- What a session needs in the next state.
abbrev Needs : State → Session → List FileCall → Type 0
Needs s x calls = Named s x × Filing s x calls

ehlo_next-Needs :
    (c : Command) (x : Session) {calls : List FileCall}
    → Mails calls none
    → Needs (ehlo_next c) x calls
ehlo_next-Needs ehlo x m = (tt, m)
ehlo_next-Needs helo x m = (tt, m)
ehlo_next-Needs _ x m = (tt, m)

ehlo_write-Serves : (w : World) → Sound State.ehlo_write w → Serves State.ehlo_write op_write w
unfolding row ehlo_write
ehlo_write-Serves w h =
    let (edge, waits) = ehlo_next-Follows w.session.request_parser.command in
    (
      refl,
      write_status-Goes State.ehlo_write _ w h edge
          (λ w' k. ehlo_next-Needs _ w'.session (Kept-Mails k h.filed)) waits,
    )

mail_from_next-Follows : (c : Command) → Follows State.mail_from_write (mail_from_next c)
mail_from_next-Follows mail = (mail_agreed, refl)
mail_from_next-Follows _ = (mail_again, refl)

mail_from_next-Needs :
    (c : Command) (x : Session) {calls : List FileCall}
    → Mails calls none
    → Needs (mail_from_next c) x calls
mail_from_next-Needs mail x m = (tt, m)
mail_from_next-Needs _ x m = (tt, m)

mail_from_write-Serves :
    (w : World) → Sound State.mail_from_write w → Serves State.mail_from_write op_write w
unfolding row mail_from_write
mail_from_write-Serves w h =
    let (edge, waits) = mail_from_next-Follows w.session.request_parser.command in
    (
      refl,
      write_status-Goes State.mail_from_write _ w h edge
          (λ w' k. mail_from_next-Needs _ w'.session (Kept-Mails k h.filed)) waits,
    )

pub rcpt_to_next-cases :
    (c : Command) (arg : List ℕ)
    → Holds (λ next. (next ≡ State.data_read) ⊎ (next ≡ State.rcpt_to_read)) (rcpt_to_next c arg)
unfolding rcpt_to_next
rcpt_to_next-cases rcpt arg = Holds-then (c_string arg) _ (λ s _.
    Holds-value _ (elim (Bool-cases (check_email_domain s)) [
      | inl local ↦ rw local (inl refl)
      | inr foreign ↦ rw foreign (inr refl)
    ]))
rcpt_to_next-cases _ arg = Holds-value _ (inr refl)

rcpt_to_write-Serves :
    (w : World) → Sound State.rcpt_to_write w → Serves State.rcpt_to_write op_write w
unfolding row rcpt_to_write
rcpt_to_write-Serves w h = (
  refl,
  Holds-then (rcpt_to_next w.session.request_parser.command w.session.request_parser.request.arg) _
      (λ next e.
        elim ((rcpt_to_next-cases w.session.request_parser.command
            w.session.request_parser.request.arg).on_ok
          next e) [
            | inl on ↦ rw on (
                write_status-Goes State.rcpt_to_write State.data_read w h rcpt_agreed
                  (λ w' k. elim h.named [
                    | inl n ↦ (rw k.nodes n, Kept-Mails k h.filed)
                    | inr not_on ↦ absurd (not_on (rw on at e))
                  ])
                  refl)
            | inr back ↦ rw back (
                write_status-Goes State.rcpt_to_write State.rcpt_to_read w h rcpt_again
                  (λ w' k. (tt, Kept-Mails k h.filed)) refl)
          ]),
)

data_next-Follows : (c : Command) → Follows State.data_write (data_next c)
data_next-Follows data_ = (data_agreed, refl)
data_next-Follows _ = (data_again, refl)

data_next-Needs :
    (c : Command) {w w' : World}
    → Kept w w'
    → HasNode w.session.rcpt_list
    → Answered c w.session.rcpt_list w.calls
    → Needs (data_next c) w'.session w'.calls
data_next-Needs data_ k n m = (rw k.nodes n, rw (k.nodes, k.calls) m)
data_next-Needs _ k n m = (rw k.nodes n, rw k.calls m)

data_write-Serves : (w : World) → Sound State.data_write w → Serves State.data_write op_write w
unfolding row data_write
data_write-Serves w h =
    let (edge, waits) = data_next-Follows w.session.request_parser.command in
    (
      refl,
      write_status-Goes State.data_write _ w h edge
          (λ w' k. data_next-Needs w.session.request_parser.command k h.named h.filed) waits,
    )

mail_info_write-Serves :
    (w : World) → Sound State.mail_info_write w → Serves State.mail_info_write op_write w
unfolding row mail_info_write
mail_info_write-Serves w h = (
  refl,
  write_status-Goes State.mail_info_write State.mail_from_read w h mail_queued
      (λ w' k. (tt, rw (k.nodes, k.calls) h.filed)) refl,
)

pub row-Serves :
    (s : State) (i : Interest) (w : World) → awaits s ≡ some i → Sound s w → Serves s i w
row-Serves State.failed_connection_read op_read w e h = failed_connection_read-Serves w h
row-Serves State.ehlo_read op_read w e h = ehlo_read-Serves w h
row-Serves State.mail_from_read op_read w e h = mail_from_read-Serves w h
row-Serves State.rcpt_to_read op_read w e h = rcpt_to_read-Serves w h
row-Serves State.data_read op_read w e h = data_read-Serves w h
row-Serves State.mail_info_read op_read w e h = mail_info_read-Serves w h
row-Serves _ op_read w e h = cc
row-Serves State.greeting_write op_write w e h = greeting_write-Serves w h
row-Serves State.failed_connection_write op_write w e h = failed_connection_write-Serves w h
row-Serves State.ehlo_write op_write w e h = ehlo_write-Serves w h
row-Serves State.mail_from_write op_write w e h = mail_from_write-Serves w h
row-Serves State.rcpt_to_write op_write w e h = rcpt_to_write-Serves w h
row-Serves State.data_write op_write w e h = data_write-Serves w h
row-Serves State.mail_info_write op_write w e h = mail_info_write-Serves w h
row-Serves _ op_write w e h = cc
