-- ===== src/Smtp/Handlers.antt =====
-- The handlers of the states of smtpnio.c, and the table `client_statbl`.
use tpe_protos.Base.{
  ℕ, Option, none, some, List, [], ◌∷◌, ◌++◌, pos, ◌+ℤ◌, Result, ok, err, out_of_bounds, ◌>>=◌,
  if◌then◌else◌, length, take, drop, leb, codes, c_string,
}
use tpe_protos.Buffer
use tpe_protos.Buffer.{Buffer}
use tpe_protos.Request.{Command, ehlo, helo, mail, rcpt, data_}
use tpe_protos.Data
use tpe_protos.Stm.{Definition}
use tpe_protos.Smtp.{State, code, close_fds, World}
use tpe_protos.Smtp.Io.{
  read_status, write_status, sent_some, with_write_buffer, request_read_init, check_email_domain,
}
use tpe_protos.Smtp.Process.{
  failed_connection_read_process, ehlo_read_process, mail_from_read_process, rcpt_to_read_process,
  data_read_process, mail_info_read_process, call_files,
}

-- `memcpy(&state->raw_buff_write, text, len)`, to the start of the memory of the write buffer, and
-- `buffer_write_adv`.
unfoldable pub copy_to_start : List ℕ → Buffer → Result Buffer
copy_to_start text b =
    let adv =
      Buffer.write_adv (record b { bytes = text ++ drop (length text) b.bytes })
        (pos (length text)) in
    if leb (length text) (length b.bytes) then adv else err out_of_bounds

-- The common body of `greeting_write` and `failed_connection_write`.
unfoldable pub write_text : List ℕ → State → State → World → Result (State × World)
unfolding copy_to_start sent_some
write_text text current next w = copy_to_start text w.session.write_buffer >>= λ b.
    Buffer.read_ptr b >>= λ p.
    let out = take p.1 (drop p.0 b.bytes) in
    sent_some current next out (with_write_buffer w b) (w.env.send out)

unfoldable pub greeting_write : World → Result (State × World)
unfolding write_text
greeting_write = write_text (codes "220 localhost SMTP\r\n") State.greeting_write State.ehlo_read

unfoldable pub failed_connection_write : World → Result (State × World)
unfolding write_text
failed_connection_write =
    write_text (codes "554 failed connection to localhost SMTP - Use QUIT to close\r\n")
      State.failed_connection_write State.failed_connection_read

unfoldable pub failed_connection_read : World → Result (State × World)
unfolding read_status failed_connection_read_process
failed_connection_read = read_status State.failed_connection_read failed_connection_read_process

unfoldable pub ehlo_read : World → Result (State × World)
unfolding read_status ehlo_read_process
ehlo_read = read_status State.ehlo_read ehlo_read_process

abbrev pub ehlo_next : Command → State
ehlo_next ehlo = State.mail_from_read
ehlo_next helo = State.mail_from_read
ehlo_next _ = State.ehlo_read

unfoldable pub ehlo_write : World → Result (State × World)
unfolding write_status
ehlo_write w = write_status State.ehlo_write (ehlo_next w.session.request_parser.command) w

unfoldable pub mail_from_read : World → Result (State × World)
unfolding read_status mail_from_read_process
mail_from_read = read_status State.mail_from_read mail_from_read_process

abbrev pub mail_from_next : Command → State
mail_from_next mail = State.rcpt_to_read
mail_from_next _ = State.mail_from_read

unfoldable pub mail_from_write : World → Result (State × World)
unfolding write_status
mail_from_write w =
    write_status State.mail_from_write (mail_from_next w.session.request_parser.command) w

unfoldable pub rcpt_to_read : World → Result (State × World)
unfolding read_status rcpt_to_read_process
rcpt_to_read = read_status State.rcpt_to_read rcpt_to_read_process

-- `p->command == request_command_rcpt && check_email_domain(p->request->arg)`: the array is read
-- for the command `rcpt` alone.
unfoldable pub rcpt_to_next : Command → List ℕ → Result State
unfolding check_email_domain
rcpt_to_next rcpt arg =
    c_string arg >>= λ s. ok (if check_email_domain s then State.data_read else State.rcpt_to_read)
rcpt_to_next _ arg = ok State.rcpt_to_read

unfoldable pub rcpt_to_write : World → Result (State × World)
unfolding write_status rcpt_to_next
rcpt_to_write w =
    rcpt_to_next w.session.request_parser.command w.session.request_parser.request.arg >>= λ next.
    write_status State.rcpt_to_write next w

unfoldable pub data_read : World → Result (State × World)
unfolding read_status data_read_process
data_read = read_status State.data_read data_read_process

abbrev pub data_next : Command → State
data_next data_ = State.mail_info_read
data_next rcpt = State.data_read
data_next _ = State.data_read

unfoldable pub data_write : World → Result (State × World)
unfolding write_status
data_write w = write_status State.data_write (data_next w.session.request_parser.command) w

unfoldable pub data_buffer_init : ℕ → World → Result World
data_buffer_init state w = ok (record w {
  session = record w.session { data_parser = Data.init w.session.data_parser.data_buffer.bytes };
})

unfoldable pub mail_info_read_close : ℕ → World → Result World
mail_info_read_close state w =
    let w1 = record w { server = record w.server { mails_sent = w.server.mails_sent +ℤ pos 1 } } in
    call_files (close_fds w.session.rcpt_list) w1 >>= λ w2.
    ok (record w2 { session = record w2.session { rcpt_list = [] } })

unfoldable pub mail_info_read : World → Result (State × World)
unfolding read_status mail_info_read_process
mail_info_read = read_status State.mail_info_read mail_info_read_process

unfoldable pub mail_info_write : World → Result (State × World)
unfolding write_status
mail_info_write = write_status State.mail_info_write State.mail_from_read

-- The callback that the table holds for a handler.
abbrev pub callback : (World → Result (State × World)) → Option (World → Result (ℕ × World))
callback f = some (λ w. f w >>= λ r. ok (code r.0, r.1))

abbrev pub reads : State → (World → Result (State × World)) → Definition World
reads s f = record {
  state = code s;
  on_arrival = some request_read_init;
  on_departure = none;
  on_read_ready = callback f;
  on_write_ready = none;
  on_block_ready = none;
}

abbrev pub writes : State → (World → Result (State × World)) → Definition World
writes s f = record {
  state = code s;
  on_arrival = none;
  on_departure = none;
  on_read_ready = none;
  on_write_ready = callback f;
  on_block_ready = none;
}

abbrev pub rests : State → Definition World
rests s = record {
  state = code s;
  on_arrival = none;
  on_departure = none;
  on_read_ready = none;
  on_write_ready = none;
  on_block_ready = none;
}

-- The row of a state in `client_statbl`.
unfoldable pub row : State → Definition World
row State.greeting_write = writes State.greeting_write greeting_write
row State.failed_connection_read = reads State.failed_connection_read failed_connection_read
row State.failed_connection_write = writes State.failed_connection_write failed_connection_write
row State.ehlo_read = reads State.ehlo_read ehlo_read
row State.ehlo_write = writes State.ehlo_write ehlo_write
row State.mail_from_read = reads State.mail_from_read mail_from_read
row State.mail_from_write = writes State.mail_from_write mail_from_write
row State.rcpt_to_read = reads State.rcpt_to_read rcpt_to_read
row State.rcpt_to_write = writes State.rcpt_to_write rcpt_to_write
row State.data_read = reads State.data_read data_read
row State.data_write = record (writes State.data_write data_write) {
  on_departure = some data_buffer_init;
}
row State.mail_info_read = record (reads State.mail_info_read mail_info_read) { on_arrival = none }
row State.mail_info_write = record (writes State.mail_info_write mail_info_write) {
  on_departure = some mail_info_read_close;
}
row State.done = rests State.done
row State.error = rests State.error

unfoldable pub client_statbl : List (Definition World)
unfolding row
client_statbl =
    row State.greeting_write
    ∷ row State.failed_connection_read
    ∷ row State.failed_connection_write
    ∷ row State.ehlo_read
    ∷ row State.ehlo_write
    ∷ row State.mail_from_read
    ∷ row State.mail_from_write
    ∷ row State.rcpt_to_read
    ∷ row State.rcpt_to_write
    ∷ row State.data_read
    ∷ row State.data_write
    ∷ row State.mail_info_read
    ∷ row State.mail_info_write
    ∷ row State.done
    ∷ row State.error
    ∷ []
