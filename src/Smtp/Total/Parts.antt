-- ===== src/Smtp/Total/Parts.antt =====
-- How the parts of the handlers of smtpnio.c end: sending, reading, and answering.
use tpe_protos.Base.{
  ℕ, zero, suc, ◌+◌, ◌-◌, ◌≤◌, ◌<◌, arith, false, List, ◌++◌, ◌≡◌, refl, sym, ◌∙◌, ap, ◌⊎◌, inl,
  inr, some, ℤ, pos, negsuc, pos_part, Result, ok, err, if◌then◌else◌, length, length-append,
  length-take, length-drop, take, drop, string_copy-fits, codes, assert_failed, Yields, returns,
  faults, Yields-bind, Yields-if, Bool-cases, leb,
}
use mathlib.Core.Path.{subst}
use tpe_protos.Base.Fault.{Fault}
use tpe_protos.Buffer
use tpe_protos.Buffer.{Buffer}
use tpe_protos.Buffer.Valid.{
  IsValid, contents, read_adv-Consumed, read_adv-past, read_adv-start, read_ptr-contents,
}
use tpe_protos.Buffer.Ends.{write_ptr-room, write_adv-fits, write_adv-past, moved-IsValid}
use tpe_protos.Request.Consume.{Outcome}
use tpe_protos.Request.Consume.Refine.{run, Stop, Refines, consume-Refines}
use tpe_protos.Request.Size.{run-size, run-fault}
use tpe_protos.Smtp.{State, done, error, Session, Interest, op_read, Env, World}
use tpe_protos.Smtp.Io.{
  interest_state, set_interest, with_write_buffer, sent_some, write_status, count_bytes, received,
  read_status, stored, reply, consume_request, bye,
}
use tpe_protos.Smtp.Flow.Sends.{pending}
use tpe_protos.Smtp.Total.{Whole, IsFresh, filled, available, Cause, recv_past, send_past, too_long}

-- What `write_status` leaves: its state is the current one, or the next one with an empty buffer, or
-- the error state.
pub record Wrote (env : Env) (current next : State) (w w' : World) (s : State) : Type 0 where
  pub whole : Whole env w'
  pub parser : w'.session.request_parser ≡ w.session.request_parser
  pub on : (s ≡ current) ⊎ ((s ≡ next) × IsFresh w'.session) ⊎ (s ≡ error)

unsent :
    (env : Env) (current next : State) (w : World) → Whole env w → Wrote env current next w w error
unsent env current next w h = record { whole = h; parser = refl; on = inr (inr refl) }

-- Another valid write buffer of the same size.
pub with_write-Whole :
    (env : Env) (w : World) (b : Buffer) (i : Interest) (sent : List ℕ)
    → Whole env w
    → IsValid b
    → b.limit ≡ 2048
    → Whole env (record (with_write_buffer w b) { interest = i; sent = sent })
with_write-Whole env w b i sent h v limit = record {
  same_env = h.same_env;
  read = h.read;
  write = v;
  limit = limit;
  text = h.text;
  text_limit = h.text_limit;
  arg = h.arg;
  from = h.from;
}

module _ (env : Env) (x : Session) where
  sent-Wrote :
      (current next : State) (w : World) (b : Buffer) (sent : List ℕ)
      → Whole env w
      → IsValid b
      → b.limit ≡ w.session.write_buffer.limit
      → (Buffer.can_read b ≡ false → b.write_at ≡ 0)
      → Yields
          (λ r. Wrote env current next w r.1 r.0)
          (Cause env x)
          (let w' = record (with_write_buffer w b) { sent = sent } in
            if Buffer.can_read b
            then ok (current, w')
            else ok (interest_state (set_interest op_read w') next))
  unfolding set_interest
  sent-Wrote current next w b sent h v same fresh =
      let rest = λ (i : Interest). with_write-Whole env w b i sent h v (same ∙ h.limit) in
      elim (Bool-cases (Buffer.can_read b)) [
        | inl more ↦
            rw more (returns _ (record { whole = rest w.interest; parser = refl; on = inl refl }))
        | inr whole ↦ elim (Bool-cases (w.env.accepts op_read)) [
          | inl accepted ↦
              rw (whole, accepted)
                (returns _ (record {
                  whole = rest op_read;
                  parser = refl;
                  on = inr (inl (refl, fresh whole));
                }))
          | inr refused ↦
              rw (whole, refused)
                (returns _ (record { whole = rest w.interest; parser = refl; on = inr (inr refl) }))
        ]
      ]

  pub sent_some-Wrote :
      (current next : State) (w : World) (n : ℤ)
      → Whole env w
      → (length (pending w) < pos_part n → Cause env x assert_failed)
      → Yields
          (λ r. Wrote env current next w r.1 r.0)
          (Cause env x)
          (sent_some current next (pending w) w n)
  unfolding sent_some
  sent_some-Wrote current next w (pos zero) h past = returns _ (unsent env current next w h)
  sent_some-Wrote current next w (negsuc n) h past = returns _ (unsent env current next w h)
  sent_some-Wrote current next w (pos (suc k)) h past =
      elim (Bool-cases (leb (suc k) (length (pending w)))) [
        | inl fits ↦
            let (b, e, c) =
              read_adv-Consumed w.session.write_buffer (suc k) h.write (ground arith) in
            rw e (
              sent-Wrote current next w b _ h c.valid c.same_limit
                (read_adv-start w.session.write_buffer (suc k) h.write e))
        | inr over ↦
            rw (read_adv-past w.session.write_buffer (suc k) h.write (ground arith))
              (faults _ (past (ground arith)))
      ]

  pub write_status-Wrote :
      (current next : State) (w : World)
      → Whole env w
      → Yields (λ r. Wrote env current next w r.1 r.0) (Cause env x) (write_status current next w)
  unfolding write_status
  write_status-Wrote current next w h = rw (read_ptr-contents w.session.write_buffer h.write) (
      sent_some-Wrote current next w (w.env.send (pending w)) h
        (λ past. send_past (pending w) (rw h.same_env at past)))

  -- `read_status` begins its process with the bytes that are available, or it ends in an error.
  pub record Begun (w : World) : Type 0 where
    pub whole : Whole env w
    pub parser : w.session.request_parser ≡ x.request_parser
    pub write_buffer : w.session.write_buffer ≡ x.write_buffer
    pub bytes : contents w.session.read_buffer ≡ available env x

  pub filled-IsValid :
      (b : Buffer)
      → IsValid b
      → pos_part (env.recv (b.limit - b.write_at)).0 ≤ b.limit - b.write_at
      → IsValid (filled env b)
  filled-IsValid b v h =
      let r = env.recv (b.limit - b.write_at) in
      omega (
        arith,
        length-append (take b.write_at b.bytes) (r.1 ++ drop (b.write_at + length r.1) b.bytes),
        length-append r.1 (drop (b.write_at + length r.1) b.bytes),
        length-take b.write_at b.bytes,
        length-drop (b.write_at + length r.1) b.bytes,
      )

  count-Whole :
      (w : World) (n : ℤ) (b : Buffer)
      → Whole env w
      → IsValid b
      → Whole env (
          let w' = count_bytes w n in record w' { session = record w'.session { read_buffer = b } })
  count-Whole w n b h v = record {
    same_env = h.same_env;
    read = v;
    write = h.write;
    limit = h.limit;
    text = h.text;
    text_limit = h.text_limit;
    arg = h.arg;
    from = h.from;
  }

module _ (env : Env) (w : World) (h : Whole env w) where
  begins :
      (b : Buffer) (n : ℤ)
      → Buffer.can_read w.session.read_buffer ≡ false
      → IsValid b
      → filled env w.session.read_buffer ≡ b
      → Begun env w.session (
          let w' = count_bytes w n in record w' { session = record w'.session { read_buffer = b } })
  begins b n nothing v is = record {
    whole = count-Whole env w.session w n b h v;
    parser = refl;
    write_buffer = refl;
    bytes = rw nothing (ap contents (sym is));
  }

  received-Ends :
      {P : State × World → Type 0} (s : State) (process : World → Result (State × World))
      (r : ℤ × List ℕ)
      → Buffer.can_read w.session.read_buffer ≡ false
      → env.recv (w.session.read_buffer.limit - w.session.read_buffer.write_at) ≡ r
      → ((w' : World) → Begun env w.session w' → Yields P (Cause env w.session) (process w'))
      → ((w' : World) → Whole env w' → P (error, w'))
      → Yields P (Cause env w.session) (received s process w w.session.read_buffer.write_at r)
  unfolding received
  received-Ends s process (pos (suc k), bytes) nothing e go fail =
      let b = w.session.read_buffer in
      let at = stored b b.write_at bytes in
      let is : filled env b ≡ record at { write_at = b.write_at + suc k } = rw e refl in
      let count : pos_part (env.recv (b.limit - b.write_at)).0 ≡ suc k = rw e refl in
      elim (Bool-cases (leb (b.write_at + suc k) b.limit)) [
        | inl fits ↦
            let v = filled-IsValid env w.session b h.read (ground arith) in
            rw (write_adv-fits at (suc k) (ground arith))
              (go _ (begins _ (pos (suc k)) nothing (subst IsValid is v) is))
        | inr over ↦
            rw (write_adv-past at (suc k) (ground arith)) (faults _ (recv_past (ground arith)))
      ]
  received-Ends s process (pos zero, bytes) nothing e go fail =
      returns _ (fail _ (count-Whole env w.session w (pos zero) _ h h.read))
  received-Ends s process (negsuc n, bytes) nothing e go fail =
      returns _ (fail _ (count-Whole env w.session w (negsuc n) _ h h.read))

  pub read_status-Ends :
      {P : State × World → Type 0} (s : State) (process : World → Result (State × World))
      → ((w' : World) → Begun env w.session w' → Yields P (Cause env w.session) (process w'))
      → ((w' : World) → Whole env w' → P (error, w'))
      → Yields P (Cause env w.session) (read_status s process w)
  unfolding read_status
  read_status-Ends s process go fail =
      Yields-if (Buffer.can_read w.session.read_buffer)
        (λ some_left.
          go w
            (record { whole = h; parser = refl; write_buffer = refl; bytes = rw some_left refl }))
        (λ nothing. rw (write_ptr-room w.session.read_buffer h.read) (
          received-Ends s process _ nothing
            (ap (λ e. e.recv (w.session.read_buffer.limit - w.session.read_buffer.write_at))
              (sym h.same_env))
            go fail))

-- What `request_consume` leaves of a buffer, when it does not fault as the parser does.
abbrev Read : Result Stop → Outcome → Type 0
Read r o = (s : Stop) × (r ≡ ok s) × (o.p ≡ s.p) × IsValid o.b

Refines-Read :
    (limit : ℕ) (r : Result Stop) (q : Result Outcome)
    → Refines limit r q
    → Yields (Read r) (λ f. r ≡ err f) q
Refines-Read limit (err f) (err g) e = faults g (ap err e)
Refines-Read limit (ok s) (ok o) (p, _, _, _, v, _) = returns o (s, refl, p, v)
Refines-Read limit (err f) (ok o) e = absurd e
Refines-Read limit (ok s) (err g) e = absurd e

-- An answer that fits.
pub reply-fits :
    (env : Env) (text : List ℕ) (n : ℕ) (w : World)
    → Whole env w
    → IsFresh w.session
    → suc (length text) ≤ 2048
    → n ≤ 2048
    → (w' : World) × (reply text n w ≡ ok w')
      × Whole env w'
      × (w'.session.request_parser ≡ w.session.request_parser)
unfolding reply
reply-fits env text n w h fresh fits advances =
    let b = w.session.write_buffer in
    let (memory, copied, same) =
      string_copy-fits b.bytes b.write_at text (omega (arith, fresh, h.limit, h.write.in_memory)) in
    let room : b.write_at + n ≤ b.limit = omega (arith, fresh, h.limit) in
    let moved : Buffer = record b { bytes = memory; write_at = b.write_at + n } in
    (
      with_write_buffer w moved,
      rw (write_ptr-room b h.write, copied, write_adv-fits (record b { bytes = memory }) n room)
          refl,
      with_write-Whole env w moved w.interest w.sent h
          (moved-IsValid b memory n h.write (omega (arith, same)) room) h.limit,
      refl,
    )

module _ (env : Env) (x : Session) where
  -- What the parser has read of the bytes that were available.
  pub record Asked (w : World) : Type 0 where
    pub whole : Whole env w
    pub stop :
        (s : Stop) × (run (available env x) x.request_parser (some false) ≡ ok s)
        × (w.session.request_parser ≡ s.p)
    pub write_buffer : w.session.write_buffer ≡ x.write_buffer

  consumed-Asked :
      (w : World) (o : Outcome)
      → Begun env x w
      → Read (run (contents w.session.read_buffer) w.session.request_parser (some false)) o
      → Asked (record w { session = record w.session { read_buffer = o.b; request_parser = o.p } })
  consumed-Asked w o h (s, e, p, v) =
      let same =
        (run-size (contents w.session.read_buffer) w.session.request_parser (some false)).on_ok s
          e in
      record {
        whole = record {
          same_env = h.whole.same_env;
          read = v;
          write = h.whole.write;
          limit = h.whole.limit;
          text = h.whole.text;
          text_limit = h.whole.text_limit;
          arg = ap (λ q. length q.request.arg) p ∙ same ∙ h.whole.arg;
          from = h.whole.from;
        };
        stop = (s, rw (h.bytes, h.parser) at e, p);
        write_buffer = h.write_buffer;
      }

  runs_past :
      {f : Fault} → run (available env x) x.request_parser (some false) ≡ err f → Cause env x f
  runs_past {f} e =
      let is = run-fault (available env x) x.request_parser (some false) e in
      subst (Cause env x) (sym is) (too_long (inl (e ∙ ap err is)))

  pub consume_request-Asked :
      (w : World) → Begun env x w → Yields (λ r. Asked r.1) (Cause env x) (consume_request w)
  unfolding consume_request
  consume_request-Asked w h =
      Yields-bind _
        (Refines-Read _ _ _ (
          consume-Refines w.session.read_buffer w.session.request_parser (some false) h.whole.read))
        (λ f e. runs_past (rw (h.bytes, h.parser) at e))
        (λ o _ read. returns _ (consumed-Asked w o h read))

  pub reply-Ends :
      (text : List ℕ) (n : ℕ) (w : World)
      → Whole env w
      → IsFresh w.session
      → suc (length text) ≤ 2048
      → n ≤ 2048
      → Yields
          (λ w'. Whole env w' × (w'.session.request_parser ≡ w.session.request_parser))
          (Cause env x)
          (reply text n w)
  reply-Ends text n w h fresh fits advances =
      let (w', e, h', same) = reply-fits env text n w h fresh fits advances in
      rw e (returns w' (h', same))

  pub bye-Ends :
      (stay : State) (w : World)
      → Whole env w
      → IsFresh w.session
      → Yields (λ r. Whole env r.1 × (r.0 ≡ done)) (Cause env x) (bye stay w)
  unfolding bye
  bye-Ends stay w h fresh =
      Yields-bind _ (reply-Ends (codes "221 Bye\r\n") 9 w h fresh (omega arith) (omega arith))
        (λ f c. c)
        (λ w1 _ (h1, _).
          Yields-bind _ (write_status-Wrote env x stay done w1 h1) (λ f c. c)
            (λ r _ wrote. returns _ (wrote.whole, refl)))
