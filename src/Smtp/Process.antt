-- ===== src/Smtp/Process.antt =====
-- What the read handlers of smtpnio.c do with a complete command, or with the text of a mail.
use tpe_protos.Base.{
  ℕ, Bool, List, [], ◌∷◌, ◌++◌, Result, ok, err, aborted, ◌>>=◌, if◌then◌else◌, length, take, codes,
  c_string, string_copy,
}
use tpe_protos.Buffer
use tpe_protos.Request.{Command, ehlo, helo, mail, rcpt, data_, quit}
use tpe_protos.Data
use tpe_protos.RcptList.{Node, create_rcpt_node, add_rcpt_to_list}
use tpe_protos.Smtp.{State, FileCall, create_mails_files, write_to_files, op_write, World}
use tpe_protos.Smtp.Io.{set_interest, reply, bye, answer, check_email_domain}

abbrev pub with_mailfrom : World → List ℕ → World
with_mailfrom w text = record w { session = record w.session { mailfrom = text } }

abbrev pub with_rcpt_list : World → List Node → World
with_rcpt_list w nodes = record w { session = record w.session { rcpt_list = nodes } }

abbrev pub add_call : World → FileCall → World
add_call w c = record w { calls = w.calls ++ (c ∷ []) }

-- A call on files that returns is noted; `abort`, or the signal for a pipe that is not read any more,
-- ends the process.
abbrev pub call_files : FileCall → World → Result World
call_files c w = if w.env.files c then ok (add_call w c) else err aborted

-- An answer of fixed text, and the state that writes it.
unfoldable pub say : State → List ℕ → ℕ → World → Result (State × World)
say next text n w = reply text n w >>= λ w'. ok (next, w')

-- The string in the array `arg`.
abbrev pub argument : World → Result (List ℕ)
argument w = c_string w.session.request_parser.request.arg

unfoldable pub failed_connection_body : Command → World → Result (State × World)
unfolding bye
failed_connection_body quit w = bye State.failed_connection_read w
failed_connection_body _ w = ok (State.failed_connection_write, w)

unfoldable pub failed_connection_read_process : World → Result (State × World)
unfolding answer failed_connection_body
failed_connection_read_process =
    answer State.failed_connection_read
      (λ w. failed_connection_body w.session.request_parser.command w)

unfoldable pub ehlo_body : Command → World → Result (State × World)
unfolding bye reply
ehlo_body ehlo w =
    let text = codes "250-localhost\r\n250-PIPELINING\r\n250 SIZE 10240000\r\n" in
    say State.ehlo_write text (length text) w
ehlo_body helo w = let text = codes "250 localhost\r\n" in say State.ehlo_write text (length text) w
ehlo_body quit w = bye State.ehlo_read w
ehlo_body _ w =
    say State.ehlo_write (codes "500 Syntax error. Expected: HELO domain or EHLO domain\r\n") 56 w

unfoldable pub ehlo_read_process : World → Result (State × World)
unfolding answer ehlo_body
ehlo_read_process = answer State.ehlo_read (λ w. ehlo_body w.session.request_parser.command w)

unfoldable pub mail_from_body : Command → World → Result (State × World)
unfolding bye reply
mail_from_body mail w = argument w >>= λ arg. string_copy w.session.mailfrom 0 arg >>= λ mailfrom.
    let text = codes "250 Mail from received - " ++ (arg ++ codes "\r\n") in
    say State.mail_from_write text (length text) (with_mailfrom w mailfrom)
mail_from_body quit w = bye State.mail_from_read w
mail_from_body rcpt w =
    say State.mail_from_write
      (codes "503 Bad sequence of commands. MAIL FROM command must precede RCPT TO command\r\n") 78
      w
mail_from_body _ w =
    say State.mail_from_write (codes "500 Syntax error. Expected: MAIL FROM:<email@domain>\r\n") 54
      w

unfoldable pub mail_from_read_process : World → Result (State × World)
unfolding answer mail_from_body
mail_from_read_process =
    answer State.mail_from_read (λ w. mail_from_body w.session.request_parser.command w)

-- `create_rcpt_node` for an empty list, `add_rcpt_to_list` for any other.
unfoldable pub add_rcpt : Bool → List Node → List ℕ → Result (List Node)
unfolding create_rcpt_node add_rcpt_to_list
add_rcpt allocated [] email = create_rcpt_node allocated email >>= λ node. ok (node ∷ [])
add_rcpt allocated (node ∷ nodes) email = add_rcpt_to_list allocated (node ∷ nodes) email

abbrev pub rcpt_received : List ℕ → List ℕ
rcpt_received arg = codes "250 Rcpt to received - " ++ (arg ++ codes "\r\n")

unfoldable pub rcpt_to_body : Command → World → Result (State × World)
unfolding bye reply add_rcpt check_email_domain
rcpt_to_body rcpt w = argument w >>= λ arg.
    let accepted = add_rcpt w.env.allocated w.session.rcpt_list arg >>= λ nodes.
    say State.rcpt_to_write (rcpt_received arg) (length (rcpt_received arg))
      (with_rcpt_list w nodes) in
    if check_email_domain arg
    then accepted
    else say State.rcpt_to_write
        (codes "550 Invalid domain. The domain specified does not exist\r\n") 57 w
rcpt_to_body quit w = bye State.rcpt_to_read w
rcpt_to_body data_ w =
    say State.mail_from_write
      (codes "503 Bad sequence of commands. RCPT TO command must precede DATA command\r\n") 73 w
rcpt_to_body _ w =
    say State.rcpt_to_write (codes "500 Syntax error. Expected: RCPT TO:<email@domain>\r\n") 52 w

unfoldable pub rcpt_to_read_process : World → Result (State × World)
unfolding answer rcpt_to_body
rcpt_to_read_process =
    answer State.rcpt_to_read (λ w. rcpt_to_body w.session.request_parser.command w)

unfoldable pub data_body : Command → World → Result (State × World)
unfolding bye reply add_rcpt_to_list
data_body data_ w = reply (codes "354 End data with <CR><LF>.<CR><LF>\r\n") 37 w >>= λ w'.
    call_files
      (create_mails_files w'.session.rcpt_list w'.session.mailfrom w'.server.program
        w'.session.transformation)
      w'
    >>= λ w2. ok (State.data_write, w2)
data_body quit w = bye State.data_read w
data_body rcpt w = argument w >>= λ arg.
    add_rcpt_to_list w.env.allocated w.session.rcpt_list arg >>= λ nodes.
    say State.rcpt_to_write (rcpt_received arg) (length (rcpt_received arg))
      (with_rcpt_list w nodes)
data_body _ w =
    say State.data_write (codes "500 Syntax error. Expected: DATA or RCPT TO:<email@domain>\r\n") 60
      w

unfoldable pub data_read_process : World → Result (State × World)
unfolding answer data_body
data_read_process = answer State.data_read (λ w. data_body w.session.request_parser.command w)

-- The text has ended: the answer.
unfoldable pub mail_info_body : Data.State → World → Result (State × World)
unfolding reply
mail_info_body Data.State.done w =
    let text = codes "250 Ok: queued\r\n" in say State.mail_info_write text (length text) w
mail_info_body _ w = say State.error (codes "554 Transaction failed\r\n") 24 w

-- `write_to_files` writes the data buffer from its start up to the write pointer.
abbrev pub text_call : World → Data.Outcome → FileCall
text_call w o =
    write_to_files w.session.rcpt_list (take o.p.data_buffer.write_at o.p.data_buffer.bytes)

abbrev pub consumed : World → Data.Outcome → World
consumed w o = record w { session = record w.session { read_buffer = o.b; data_parser = o.p } }

abbrev pub filed : World → Data.Outcome → World
filed w o = add_call (consumed w o) (text_call w o)

unfoldable pub mail_info_read_process : World → Result (State × World)
unfolding mail_info_body set_interest
mail_info_read_process w =
    let p = record w.session.data_parser {
      data_buffer = Buffer.reset w.session.data_parser.data_buffer;
    } in
    Data.consume w.session.read_buffer p >>= λ o.
    call_files (text_call w o) (consumed w o) >>= λ w1.
    if Data.is_done o.st
    then (let x = set_interest op_write w1 in
        if x.0 then mail_info_body x.1.session.data_parser.state x.1 else ok (State.error, x.1))
    else ok (State.mail_info_read, w1)
