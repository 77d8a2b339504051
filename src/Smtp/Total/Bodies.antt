-- ===== src/Smtp/Total/Bodies.antt =====
-- How the answers of smtpnio.c to complete commands end.
use tpe_protos.Base.{
  ℕ, suc, ◌+◌, ◌≤◌, arith, Bool, true, false, List, [], ◌∷◌, ◌++◌, ◌≡◌, ◌≢◌, refl, sym, ◌∙◌, ap,
  inl, inr, ok, if◌then◌else◌, Result, length, length-append, codes, c_string, c_string-short,
  c_string-fault, err, string_copy-fits, aborted, Yields, returns, faults, Yields-bind, Yields-if,
  Yields-implies, Bool-cases, ◌>>=◌,
}
use mathlib.Core.Path.{subst}
use tpe_protos.Base.Fault.{Fault, Result-cases}
use tpe_protos.Request.{Command, mail, rcpt, data_, quit}
use tpe_protos.RcptList.{Node, create_rcpt_node, add_rcpt_to_list}
use tpe_protos.Smtp.{State, Session, Interest, op_write, FileCall, Env, World}
use tpe_protos.Smtp.Io.{set_interest, bye, answer, check_email_domain}
use tpe_protos.Smtp.Process.{
  with_mailfrom, with_rcpt_list, say, argument, failed_connection_body, ehlo_body, mail_from_body,
  add_rcpt, rcpt_to_body, rcpt_received, data_body, add_call, call_files,
}
use tpe_protos.Smtp.Handlers.{rcpt_to_next}
use tpe_protos.Smtp.Total.{Whole, IsFresh, Ready, Fit, Cause, no_memory, files_ended, too_long}
use tpe_protos.Smtp.Total.Parts.{Begun, Asked, consume_request-Asked, reply-Ends, bye-Ends}

-- A string in the array is one that can be read again.
rcpt_to_next-read :
    (c : Command) (arg s : List ℕ)
    → c_string arg ≡ ok s
    → (next : State) × (rcpt_to_next c arg ≡ ok next)
unfolding rcpt_to_next
rcpt_to_next-read rcpt arg s e =
    (if check_email_domain s then State.data_read else State.rcpt_to_read, rw e refl)
rcpt_to_next-read _ arg s e = (State.rcpt_to_read, refl)

-- Behind any other command it is not read.
rcpt_to_next-unread :
    (c : Command) (arg : List ℕ) → c ≢ rcpt → (next : State) × (rcpt_to_next c arg ≡ ok next)
unfolding rcpt_to_next
rcpt_to_next-unread rcpt arg h = absurd (h refl)
rcpt_to_next-unread _ arg h = (State.rcpt_to_read, refl)

-- There is no memory.
abbrev Starved : Bool → Fault → Type 0
Starved allocated f = (f ≡ aborted) × (allocated ≡ false)

module _ (env : Env) (x : Session) where
  -- What a handler leaves is fit for the state that it returns.
  abbrev pub Ends : Result (State × World) → Type 0
  Ends = Yields (λ r. Fit env r.0 r.1) (Cause env x)

  pub say-Ends :
      (next : State) (text : List ℕ) (n : ℕ) (w : World)
      → Whole env w
      → IsFresh w.session
      → suc (length text) ≤ 2048
      → n ≤ 2048
      → ((w' : World)
          → w'.session.request_parser ≡ w.session.request_parser
          → Ready next w'.session)
      → Ends (say next text n w)
  unfolding say
  say-Ends next text n w h fresh fits advances ready =
      Yields-bind _ (reply-Ends env x text n w h fresh fits advances) (λ f c. c)
        (λ w' _ (h', same). returns _ (h', ready w' same))

  bye-Fit : (stay : State) (w : World) → Whole env w → IsFresh w.session → Ends (bye stay w)
  bye-Fit stay w h fresh =
      Yields-implies (bye-Ends env x stay w h fresh) (λ r (h', ended). rw ended (h', tt)) (λ f c. c)

  watched-Asked :
      (w : World) (i : Interest) → Asked env x w → Asked env x (record w { interest = i })
  watched-Asked w i h = record { whole = h.whole; stop = h.stop; write_buffer = h.write_buffer }

  Asked-IsFresh : (w : World) → Asked env x w → IsFresh x → IsFresh w.session
  Asked-IsFresh w h fresh = ap (λ b. b.write_at) h.write_buffer ∙ fresh

  pub answer-Ends :
      (stay : State) (body : World → Result (State × World)) (w : World)
      → IsFresh x
      → Begun env x w
      → ((w' : World) → IsFresh w'.session → Ready stay w'.session)
      → ((w' : World) → Asked env x w' → IsFresh w'.session → Ends (body w'))
      → Ends (answer stay body w)
  unfolding answer set_interest
  answer-Ends stay body w fresh h remain go =
      Yields-bind _ (consume_request-Asked env x w h) (λ f c. c)
        (λ r _ asked.
          let clean = Asked-IsFresh r.1 asked fresh in
          Yields-if r.0
            (λ _. elim (Bool-cases (r.1.env.accepts op_write)) [
              | inl accepted ↦
                  rw accepted (
                    go (record r.1 { interest = op_write }) (watched-Asked r.1 op_write asked)
                      clean)
              | inr refused ↦ rw refused (returns _ (asked.whole, tt))
            ])
            (λ _. returns _ (asked.whole, remain r.1 clean)))

  argument-Ends :
      (w : World) → Asked env x w → Yields (λ s. suc (length s) ≤ 32) (Cause env x) (argument w)
  argument-Ends w h =
      let (s, run, same) = h.stop in
      elim (Result-cases (c_string w.session.request_parser.request.arg)) [
        | inl (arg, found) ↦ rw found (
            returns arg (
              omega (
                arith,
                h.whole.arg,
                (c_string-short w.session.request_parser.request.arg).on_ok arg found,
              )))
        | inr (f, fault) ↦
            let is = c_string-fault w.session.request_parser.request.arg fault in
            rw fault (
              faults f (
                subst (Cause env x) (sym is) (
                  too_long (
                    inr
                      (s, run, ap (λ p. c_string p.request.arg) (sym same) ∙ fault ∙ ap err is)))))
      ]

  pub failed_connection_body-Ends :
      (c : Command) (w : World)
      → Asked env x w
      → IsFresh w.session
      → Ends (failed_connection_body c w)
  unfolding failed_connection_body
  failed_connection_body-Ends quit w h fresh = bye-Fit State.failed_connection_read w h.whole fresh
  failed_connection_body-Ends _ w h fresh = returns _ (h.whole, tt)

  pub ehlo_body-Ends :
      (c : Command) (w : World) → Asked env x w → IsFresh w.session → Ends (ehlo_body c w)
  unfolding ehlo_body
  ehlo_body-Ends quit w h fresh = bye-Fit State.ehlo_read w h.whole fresh
  ehlo_body-Ends _ w h fresh =
      say-Ends State.ehlo_write _ _ w h.whole fresh (omega arith) (omega arith) (λ w' same. tt)

  with_mailfrom-Whole :
      (w : World) (mailfrom : List ℕ)
      → Whole env w
      → length mailfrom ≡ 255
      → Whole env (with_mailfrom w mailfrom)
  with_mailfrom-Whole w mailfrom h size = record {
    same_env = h.same_env;
    read = h.read;
    write = h.write;
    limit = h.limit;
    text = h.text;
    text_limit = h.text_limit;
    arg = h.arg;
    from = size;
  }

  pub mail_from_body-Ends :
      (c : Command) (w : World) → Asked env x w → IsFresh w.session → Ends (mail_from_body c w)
  unfolding mail_from_body
  mail_from_body-Ends quit w h fresh = bye-Fit State.mail_from_read w h.whole fresh
  mail_from_body-Ends mail w h fresh =
      Yields-bind _ (argument-Ends w h) (λ f c. c)
        (λ arg _ short.
          let (mailfrom, copied, same) =
            string_copy-fits w.session.mailfrom 0 arg (omega (arith, h.whole.from)) in
          let size : length (codes "250 Mail from received - " ++ (arg ++ codes "\r\n"))
              ≡ 27 + length arg =
            omega (arith, length-append arg (codes "\r\n")) in
          rw copied (
            say-Ends State.mail_from_write _ _ (with_mailfrom w mailfrom)
              (with_mailfrom-Whole w mailfrom h.whole (same ∙ h.whole.from)) fresh
              (omega (arith, size)) (omega (arith, size)) (λ w' _. tt)))
  mail_from_body-Ends _ w h fresh =
      say-Ends State.mail_from_write _ _ w h.whole fresh (omega arith) (omega arith) (λ w' same. tt)

  add_rcpt_to_list-Ends :
      (allocated : Bool) (nodes : List Node) (email : List ℕ)
      → Yields (λ _. Unit {0}) (Starved allocated) (add_rcpt_to_list allocated nodes email)
  unfolding add_rcpt_to_list
  add_rcpt_to_list-Ends true nodes email = returns _ tt
  add_rcpt_to_list-Ends false nodes email = faults aborted (refl, refl)

  add_rcpt-Ends :
      (allocated : Bool) (nodes : List Node) (email : List ℕ)
      → Yields (λ _. Unit {0}) (Starved allocated) (add_rcpt allocated nodes email)
  unfolding add_rcpt add_rcpt_to_list create_rcpt_node
  add_rcpt-Ends true [] email = returns _ tt
  add_rcpt-Ends false [] email = faults aborted (refl, refl)
  add_rcpt-Ends true (node ∷ nodes) email = returns _ tt
  add_rcpt-Ends false (node ∷ nodes) email = faults aborted (refl, refl)

  starves : (w : World) → Whole env w → (f : Fault) → Starved w.env.allocated f → Cause env x f
  starves w h f (is_aborted, none_left) = rw is_aborted (no_memory (rw h.same_env at none_left))

  -- The answer to a recipient that has been added.
  received-Ends :
      (arg : List ℕ) (w : World) (nodes : List Node)
      → Whole env w
      → IsFresh w.session
      → c_string w.session.request_parser.request.arg ≡ ok arg
      → suc (length arg) ≤ 32
      → Ends (
          say State.rcpt_to_write
            (rcpt_received arg)
            (length (rcpt_received arg))
            (with_rcpt_list w nodes))
  received-Ends arg w nodes h fresh found short =
      let size : length (rcpt_received arg) ≡ 25 + length arg =
        omega (arith, length-append arg (codes "\r\n")) in
      say-Ends State.rcpt_to_write _ _ (with_rcpt_list w nodes) h fresh (omega (arith, size))
        (omega (arith, size))
        (λ w' same. rw same (
          rcpt_to_next-read w.session.request_parser.command w.session.request_parser.request.arg
            arg found))

  unread :
      (c : Command) (w w' : World)
      → w.session.request_parser.command ≡ c
      → c ≢ rcpt
      → w'.session.request_parser ≡ w.session.request_parser
      → Ready State.rcpt_to_write w'.session
  unread c w w' e other same =
      rw same (rcpt_to_next-unread w.session.request_parser.command _ (λ is. other (sym e ∙ is)))

  pub rcpt_to_body-Ends :
      (c : Command) (w : World)
      → w.session.request_parser.command ≡ c
      → Asked env x w
      → IsFresh w.session
      → Ends (rcpt_to_body c w)
  unfolding rcpt_to_body
  rcpt_to_body-Ends quit w e h fresh = bye-Fit State.rcpt_to_read w h.whole fresh
  rcpt_to_body-Ends data_ w e h fresh =
      say-Ends State.mail_from_write _ _ w h.whole fresh (omega arith) (omega arith) (λ w' same. tt)
  rcpt_to_body-Ends rcpt w e h fresh =
      Yields-bind _ (argument-Ends w h) (λ f c. c)
        (λ arg found short.
          Yields-if (check_email_domain arg)
            (λ _.
              Yields-bind _ (add_rcpt-Ends w.env.allocated w.session.rcpt_list arg)
                (starves w h.whole)
                (λ nodes _ _. received-Ends arg w nodes h.whole fresh found short))
            (λ _.
              say-Ends State.rcpt_to_write _ _ w h.whole fresh (omega arith) (omega arith)
                (λ w' same. rw same (
                  rcpt_to_next-read w.session.request_parser.command
                    w.session.request_parser.request.arg arg found))))
  rcpt_to_body-Ends c w e h fresh =
      say-Ends State.rcpt_to_write _ _ w h.whole fresh (omega arith) (omega arith)
        (λ w' same. unread c w w' e (λ is. cc) same)

  pub call-Ends {ℓ} :
      {B : Type ℓ} {P : B → Type 0} (c : FileCall) (w : World) (k : World → Result B)
      → w.env ≡ env
      → Yields P (Cause env x) (k (add_call w c))
      → Yields P (Cause env x) (call_files c w >>= k)
  call-Ends c w k same h = elim (Bool-cases (w.env.files c)) [
    | inl e ↦ rw e h
    | inr e ↦ rw e (faults aborted (files_ended c (ap (λ v. v.files c) (sym same) ∙ e)))
  ]

  pub data_body-Ends :
      (c : Command) (w : World) → Asked env x w → IsFresh w.session → Ends (data_body c w)
  unfolding data_body
  data_body-Ends quit w h fresh = bye-Fit State.data_read w h.whole fresh
  data_body-Ends data_ w h fresh =
      Yields-bind _
        (reply-Ends env x (codes "354 End data with <CR><LF>.<CR><LF>\r\n") 37 w h.whole fresh
          (omega arith) (omega arith))
        (λ f c. c) (λ w' _ (h', _). call-Ends _ w' _ h'.same_env (returns _ (h', tt)))
  data_body-Ends rcpt w h fresh =
      Yields-bind _ (argument-Ends w h) (λ f c. c)
        (λ arg found short.
          Yields-bind _ (add_rcpt_to_list-Ends w.env.allocated w.session.rcpt_list arg)
            (starves w h.whole) (λ nodes _ _. received-Ends arg w nodes h.whole fresh found short))
  data_body-Ends _ w h fresh =
      say-Ends State.data_write _ _ w h.whole fresh (omega arith) (omega arith) (λ w' same. tt)
