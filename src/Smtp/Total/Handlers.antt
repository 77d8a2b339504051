-- ===== src/Smtp/Total/Handlers.antt =====
-- How the handlers of the states of smtpnio.c end.
use tpe_protos.Base.{
  ℕ, ◌+◌, ◌≤◌, arith, true, List, ◌++◌, ◌≡◌, refl, ◌∙◌, ap, inl, inr, ok, Result, leb, length,
  length-append, length-drop, drop, codes, returns, faults, Yields-if, Yields-implies, Bool-cases,
}
use tpe_protos.Buffer
use tpe_protos.Buffer.{Buffer}
use tpe_protos.Buffer.Valid.{IsValid, read_ptr-contents}
use tpe_protos.Buffer.Ends.{write_adv-fits, write_adv-past, moved-IsValid}
use tpe_protos.Request.{Command, ehlo, helo, mail, data_}
use tpe_protos.Data
use tpe_protos.Data.Lossless.{consume-Scans}
use tpe_protos.Smtp.{State, Session, op_write, Env, World}
use tpe_protos.Smtp.Io.{set_interest, read_status, write_status, answer, with_write_buffer}
use tpe_protos.Smtp.Process.{
  failed_connection_read_process, failed_connection_body, ehlo_read_process, ehlo_body,
  mail_from_read_process, mail_from_body, rcpt_to_read_process, rcpt_to_body, data_read_process,
  data_body, mail_info_read_process, mail_info_body, consumed, filed,
}
use tpe_protos.Smtp.Handlers.{
  copy_to_start, write_text, greeting_write, failed_connection_write, failed_connection_read,
  ehlo_read, ehlo_write, mail_from_read, mail_from_write, rcpt_to_read, rcpt_to_write, data_read,
  data_write, mail_info_read, mail_info_write, ehlo_next, mail_from_next, rcpt_to_next, data_next,
}
use tpe_protos.Smtp.Flow.Sends.{pending}
use tpe_protos.Smtp.Flow.Rows.{handler, rcpt_to_next-cases}
use tpe_protos.Smtp.Total.{Whole, IsFresh, Ready, Fit, refilled, send_past}
use tpe_protos.Smtp.Total.Parts.{
  Asked, Wrote, write_status-Wrote, sent_some-Wrote, read_status-Ends, with_write-Whole,
}
use tpe_protos.Smtp.Total.Bodies.{
  Ends, say-Ends, answer-Ends, failed_connection_body-Ends, ehlo_body-Ends, mail_from_body-Ends,
  rcpt_to_body-Ends, data_body-Ends, call-Ends,
}

module _ (env : Env) (w : World) (h : Whole env w) where
  -- `write_status` leaves what its two states need.
  Wrote-Fit :
      (current next : State) (w' : World) (s : State)
      → (w'.session.request_parser ≡ w.session.request_parser → Ready current w'.session)
      → (IsFresh w'.session → Ready next w'.session)
      → Wrote env current next w w' s
      → Fit env s w'
  Wrote-Fit current next w' s stay go wrote = elim wrote.on [
    | inl here ↦ rw here (wrote.whole, stay wrote.parser)
    | inr (inl (there, fresh)) ↦ rw there (wrote.whole, go fresh)
    | inr (inr failed) ↦ rw failed (wrote.whole, tt)
  ]

  write_status-Ends :
      (current next : State)
      → ((w' : World)
          → w'.session.request_parser ≡ w.session.request_parser
          → Ready current w'.session)
      → ((w' : World) → IsFresh w'.session → Ready next w'.session)
      → Ends env w.session (write_status current next w)
  write_status-Ends current next stay go =
      Yields-implies (write_status-Wrote env w.session current next w h)
        (λ r wrote. Wrote-Fit current next r.1 r.0 (stay r.1) (go r.1) wrote) (λ f c. c)

  -- A handler that reads and then answers.
  reads-Ends :
      (s : State) (body : Command → World → Result (State × World))
      → IsFresh w.session
      → ((w' : World) → IsFresh w'.session → Ready s w'.session)
      → ((w' : World)
          → Asked env w.session w'
          → IsFresh w'.session
          → Ends env w.session (body w'.session.request_parser.command w'))
      → Ends env w.session
          (read_status s (answer s (λ v. body v.session.request_parser.command v)) w)
  reads-Ends s body fresh remain go =
      read_status-Ends env w h s (answer s (λ v. body v.session.request_parser.command v))
        (λ w' begun. answer-Ends env w.session s _ w' fresh begun remain go) (λ w' h'. (h', tt))

  failed_connection_read-Ends : IsFresh w.session → Ends env w.session (failed_connection_read w)
  unfolding failed_connection_read failed_connection_read_process
  failed_connection_read-Ends fresh =
      reads-Ends State.failed_connection_read failed_connection_body fresh (λ w' f. f)
        (λ w' a f.
          failed_connection_body-Ends env w.session w'.session.request_parser.command w' a f)

  ehlo_read-Ends : IsFresh w.session → Ends env w.session (ehlo_read w)
  unfolding ehlo_read ehlo_read_process
  ehlo_read-Ends fresh =
      reads-Ends State.ehlo_read ehlo_body fresh (λ w' f. f)
        (λ w' a f. ehlo_body-Ends env w.session w'.session.request_parser.command w' a f)

  mail_from_read-Ends : IsFresh w.session → Ends env w.session (mail_from_read w)
  unfolding mail_from_read mail_from_read_process
  mail_from_read-Ends fresh =
      reads-Ends State.mail_from_read mail_from_body fresh (λ w' f. f)
        (λ w' a f. mail_from_body-Ends env w.session w'.session.request_parser.command w' a f)

  rcpt_to_read-Ends : IsFresh w.session → Ends env w.session (rcpt_to_read w)
  unfolding rcpt_to_read rcpt_to_read_process
  rcpt_to_read-Ends fresh =
      reads-Ends State.rcpt_to_read rcpt_to_body fresh (λ w' f. f)
        (λ w' a f. rcpt_to_body-Ends env w.session w'.session.request_parser.command w' refl a f)

  data_read-Ends : IsFresh w.session → Ends env w.session (data_read w)
  unfolding data_read data_read_process
  data_read-Ends fresh =
      reads-Ends State.data_read data_body fresh (λ w' f. f)
        (λ w' a f. data_body-Ends env w.session w'.session.request_parser.command w' a f)

  ehlo_next-Ready : (c : Command) (x : Session) → IsFresh x → Ready (ehlo_next c) x
  ehlo_next-Ready ehlo x f = f
  ehlo_next-Ready helo x f = f
  ehlo_next-Ready _ x f = f

  mail_from_next-Ready : (c : Command) (x : Session) → IsFresh x → Ready (mail_from_next c) x
  mail_from_next-Ready mail x f = f
  mail_from_next-Ready _ x f = f

  data_next-Ready : (c : Command) (x : Session) → IsFresh x → Ready (data_next c) x
  data_next-Ready data_ x f = f
  data_next-Ready _ x f = f

  ehlo_write-Ends : Ends env w.session (ehlo_write w)
  unfolding ehlo_write
  ehlo_write-Ends =
      write_status-Ends State.ehlo_write (ehlo_next w.session.request_parser.command) (λ _ _. tt)
        (λ w' f. ehlo_next-Ready w.session.request_parser.command w'.session f)

  mail_from_write-Ends : Ends env w.session (mail_from_write w)
  unfolding mail_from_write
  mail_from_write-Ends =
      write_status-Ends State.mail_from_write (mail_from_next w.session.request_parser.command)
        (λ _ _. tt) (λ w' f. mail_from_next-Ready w.session.request_parser.command w'.session f)

  data_write-Ends : Ends env w.session (data_write w)
  unfolding data_write
  data_write-Ends =
      write_status-Ends State.data_write (data_next w.session.request_parser.command) (λ _ _. tt)
        (λ w' f. data_next-Ready w.session.request_parser.command w'.session f)

  mail_info_write-Ends : Ends env w.session (mail_info_write w)
  unfolding mail_info_write
  mail_info_write-Ends =
      write_status-Ends State.mail_info_write State.mail_from_read (λ _ _. tt) (λ _ f. f)

  rcpt_to_next-Ready :
      (c : Command) (arg : List ℕ) {next : State}
      → rcpt_to_next c arg ≡ ok next
      → (x : Session) → IsFresh x
      → Ready next x
  rcpt_to_next-Ready c arg {next} e x f = elim ((rcpt_to_next-cases c arg).on_ok next e) [
    | inl there ↦ rw there f
    | inr back ↦ rw back f
  ]

  rcpt_to_write-Ends : Ready State.rcpt_to_write w.session → Ends env w.session (rcpt_to_write w)
  unfolding rcpt_to_write
  rcpt_to_write-Ends (next, e) = rw e (
      write_status-Ends State.rcpt_to_write next (λ w' same. rw same (next, e))
        (λ w' f.
          rcpt_to_next-Ready w.session.request_parser.command w.session.request_parser.request.arg e
            w'.session f))

  -- A text at the start of the write buffer.
  write_text-Ends :
      (text : List ℕ) (current next : State)
      → length text ≤ 61
      → ((w' : World) → Ready current w'.session)
      → ((w' : World) → IsFresh w'.session → Ready next w'.session)
      → Ends env w.session (write_text text current next w)
  unfolding write_text copy_to_start
  write_text-Ends text current next short stay go =
      let b = w.session.write_buffer in
      let copied : Buffer = record b { bytes = text ++ drop (length text) b.bytes } in
      let size : length b.bytes ≤ length copied.bytes = omega (
        arith,
        length-append text (drop (length text) b.bytes),
        length-drop (length text) b.bytes,
        h.write.in_memory,
        h.limit,
      ) in
      let room : leb (length text) (length b.bytes) ≡ true = ground (arith, h.limit) in
      rw room (elim (Bool-cases (leb (b.write_at + length text) b.limit)) [
        | inl fits ↦
            let v = moved-IsValid b copied.bytes (length text) h.write size (ground arith) in
            let b' : Buffer = record copied { write_at = b.write_at + length text } in
            let w' : World = with_write_buffer w b' in
            let h' = with_write-Whole env w b' w.interest w.sent h v h.limit in
            rw (write_adv-fits copied (length text) (ground arith), read_ptr-contents b' v)
              (Yields-implies
                (sent_some-Wrote env w.session current next w' (w.env.send (pending w')) h'
                  (λ past. send_past (pending w') (rw h.same_env at past)))
                (λ r wrote.
                  Wrote-Fit current next r.1 r.0 (λ _. stay r.1) (go r.1)
                    (record { whole = wrote.whole; parser = wrote.parser; on = wrote.on }))
                (λ f c. c))
        | inr over ↦
            rw (write_adv-past copied (length text) (ground arith))
              (faults _ (refilled (ground (arith, h.limit))))
      ])

  -- The text of a mail.
  mail_info_body-Ends :
      (s : Data.State) (w' : World)
      → Whole env w'
      → IsFresh w'.session
      → Ends env w.session (mail_info_body s w')
  unfolding mail_info_body
  mail_info_body-Ends Data.State.done w' h' fresh =
      say-Ends env w.session State.mail_info_write _ _ w' h' fresh (omega arith) (omega arith)
        (λ _ _. tt)
  mail_info_body-Ends _ w' h' fresh =
      say-Ends env w.session State.error _ _ w' h' fresh (omega arith) (omega arith) (λ _ _. tt)

  filed-Whole :
      (w' : World) (o : Data.Outcome)
      → Whole env w'
      → IsValid o.b
      → IsValid o.p.data_buffer
      → o.p.data_buffer.limit ≡ 2048
      → Whole env (filed w' o)
  filed-Whole w' o h' v text limit = record {
    same_env = h'.same_env;
    read = v;
    write = h'.write;
    limit = h'.limit;
    text = text;
    text_limit = limit;
    arg = h'.arg;
    from = h'.from;
  }

  mail_info_read_process-Ends :
      (w' : World)
      → Whole env w'
      → IsFresh w'.session
      → Ends env w.session (mail_info_read_process w')
  unfolding mail_info_read_process set_interest Buffer.reset
  mail_info_read_process-Ends w' h' fresh =
      let b = Buffer.reset w'.session.data_parser.data_buffer in
      let v : IsValid b = omega (arith, h'.text.in_memory) in
      let p : Data.Parser = record w'.session.data_parser { data_buffer = b } in
      let (o, e, scans) = consume-Scans w'.session.read_buffer p h'.read v in
      let done_with =
        filed-Whole w' o h' scans.valid scans.extends.valid
          (scans.extends.same_limit ∙ h'.text_limit) in
      rw e (
        call-Ends env w.session _ (consumed w' o) _ h'.same_env (
          Yields-if (Data.is_done o.st)
            (λ _. elim (Bool-cases (w'.env.accepts op_write)) [
              | inl accepted ↦ rw accepted (
                  mail_info_body-Ends o.p.state (record (filed w' o) { interest = op_write })
                    done_with fresh)
              | inr refused ↦ rw refused (returns _ (done_with, tt))
            ])
            (λ _. returns _ (done_with, fresh))))

  mail_info_read-Ends : IsFresh w.session → Ends env w.session (mail_info_read w)
  unfolding mail_info_read
  mail_info_read-Ends fresh =
      read_status-Ends env w h State.mail_info_read mail_info_read_process
        (λ w' begun.
          mail_info_read_process-Ends w' begun.whole
            (ap (λ b. b.write_at) begun.write_buffer ∙ fresh))
        (λ w' h'. (h', tt))

  -- The handlers of the states, and the event that each of them is for.
  pub handler-Ends : (s : State) → Ready s w.session → Ends env w.session (handler s w)
  unfolding greeting_write failed_connection_write
  handler-Ends State.greeting_write r =
      write_text-Ends (codes "220 localhost SMTP\r\n") State.greeting_write State.ehlo_read
        (omega arith) (λ _. tt) (λ _ f. f)
  handler-Ends State.failed_connection_write r =
      write_text-Ends (codes "554 failed connection to localhost SMTP - Use QUIT to close\r\n")
        State.failed_connection_write State.failed_connection_read (omega arith) (λ _. tt)
        (λ _ f. f)
  handler-Ends State.failed_connection_read r = failed_connection_read-Ends r
  handler-Ends State.ehlo_read r = ehlo_read-Ends r
  handler-Ends State.ehlo_write r = ehlo_write-Ends
  handler-Ends State.mail_from_read r = mail_from_read-Ends r
  handler-Ends State.mail_from_write r = mail_from_write-Ends
  handler-Ends State.rcpt_to_read r = rcpt_to_read-Ends r
  handler-Ends State.rcpt_to_write r = rcpt_to_write-Ends r
  handler-Ends State.data_read r = data_read-Ends r
  handler-Ends State.data_write r = data_write-Ends
  handler-Ends State.mail_info_read r = mail_info_read-Ends r
  handler-Ends State.mail_info_write r = mail_info_write-Ends
  handler-Ends State.done r = returns _ (h, tt)
  handler-Ends State.error r = returns _ (h, tt)
