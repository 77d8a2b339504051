-- ===== src/Smtp/Total/Turn.antt =====
-- How one turn of the state machine of a session of smtpnio.c ends.
use tpe_protos.Base.{
  ℕ, arith, ◌≡◌, refl, ◌∙◌, ap, inl, inr, ltb, ◌==◌, false, some, ok, load, ◌>>=◌, Yields, returns,
  sym, Yields-implies, Holds, Yields-bind, Yields-Holds, Yields-after, Bool-cases,
}
use mathlib.Core.Path.{subst}
use tpe_protos.Buffer
use tpe_protos.Request
use tpe_protos.Data
use tpe_protos.Stm.{Machine, notify, depart, jump, is_current, handle_first, current_row, handle}
use tpe_protos.Smtp.{State, code, Session, Interest, Env, World}
use tpe_protos.Smtp.Io.{request_read_init}
use tpe_protos.Smtp.Handlers.{row, data_buffer_init, mail_info_read_close}
use tpe_protos.Smtp.Flow.{Edge, Sound, Goes, awaits}
use tpe_protos.Smtp.Flow.Rows.{handler, pick, row-Serves}
use tpe_protos.Smtp.Flow.Jump.{Running, jump-Running, load-row, code-low}
use tpe_protos.Smtp.Flow.Turn.{At, Running-At}
use tpe_protos.Smtp.Total.{Whole, Ready, Fit, Cause}
use tpe_protos.Smtp.Total.Bodies.{call-Ends}
use tpe_protos.Smtp.Total.Handlers.{handler-Ends}

Ready-other :
    (s : State) (x x' : Session)
    → x'.write_buffer ≡ x.write_buffer
    → x'.request_parser ≡ x.request_parser
    → Ready s x
    → Ready s x'
Ready-other State.failed_connection_read x x' b p h = ap (λ y. y.write_at) b ∙ h
Ready-other State.ehlo_read x x' b p h = ap (λ y. y.write_at) b ∙ h
Ready-other State.mail_from_read x x' b p h = ap (λ y. y.write_at) b ∙ h
Ready-other State.rcpt_to_read x x' b p h = ap (λ y. y.write_at) b ∙ h
Ready-other State.data_read x x' b p h = ap (λ y. y.write_at) b ∙ h
Ready-other State.mail_info_read x x' b p h = ap (λ y. y.write_at) b ∙ h
Ready-other State.rcpt_to_write x x' b p h = rw p h
Ready-other _ x x' b p h = tt

abbrev begun : World → World
begun w = record w { session = record w.session { request_parser = Request.init } }

abbrev restarted : World → World
restarted w = record w {
  session = record w.session { data_parser = Data.init w.session.data_parser.data_buffer.bytes };
}

-- A callback that may be null cannot fail.
module _ (env : Env) where
  restarted-Whole : (w : World) → Whole env w → Whole env (restarted w)
  unfolding Data.init Buffer.init
  restarted-Whole w h = record {
    same_env = h.same_env;
    read = h.read;
    write = h.write;
    limit = h.limit;
    text = omega (arith, h.text.in_memory, h.text_limit);
    text_limit = refl;
    arg = h.arg;
    from = h.from;
  }

  left-Fit :
      (x : Session) (s next : State) (w : World)
      → Fit env next w
      → Yields (Fit env next) (Cause env x) (notify (row s).on_departure (row s).state w)
  unfolding row data_buffer_init mail_info_read_close
  left-Fit x State.data_write next w (h, r) =
      returns (restarted w) (restarted-Whole w h, Ready-other next w.session _ refl refl r)
  left-Fit x State.mail_info_write next w (h, r) =
      call-Ends env x _ _ _ h.same_env (returns _ (h, Ready-other next w.session _ refl refl r))
  left-Fit x s next w h = returns w h

  begun-Whole : (w : World) → Whole env w → Whole env (begun w)
  unfolding Request.init
  begun-Whole w h = record {
    same_env = h.same_env;
    read = h.read;
    write = h.write;
    limit = h.limit;
    text = h.text;
    text_limit = h.text_limit;
    arg = refl;
    from = h.from;
  }

  entered-Fit :
      (s : State) (w : World)
      → Fit env s w
      → (w' : World) × (notify (row s).on_arrival (row s).state w ≡ ok w') × Fit env s w'
  unfolding row request_read_init
  entered-Fit State.failed_connection_read w (h, r) = (begun w, refl, (begun-Whole w h, r))
  entered-Fit State.ehlo_read w (h, r) = (begun w, refl, (begun-Whole w h, r))
  entered-Fit State.mail_from_read w (h, r) = (begun w, refl, (begun-Whole w h, r))
  entered-Fit State.rcpt_to_read w (h, r) = (begun w, refl, (begun-Whole w h, r))
  entered-Fit State.data_read w (h, r) = (begun w, refl, (begun-Whole w h, r))
  entered-Fit _ w h = (w, refl, h)

  -- A jump ends as the callback of the departure does.
  jump-Fit :
      (x : Session) (m : Machine World) (s next : State) (w : World)
      → Running m s
      → Fit env next w
      → Yields (λ r. Fit env next r.1) (Cause env x) (jump m (code next) w)
  unfolding jump depart
  jump-Fit x m s next w at h =
      let top : ltb m.max_state (code next) ≡ false = rw at.last (code-low next) in
      let there : load m.states (code next) ≡ ok (row next) = rw at.table (load-row next) in
      let from : load m.states (code s) ≡ ok (row s) = rw at.table (load-row s) in
      let here : is_current m.current (code next) ≡ (code s == code next) = rw at.now refl in
      elim (Bool-cases (code s == code next)) [
        | inl same ↦ rw (top, here ∙ same) (returns (m, w) h)
        | inr other ↦
            rw (top, here ∙ other, at.now, from)
              (Yields-bind _ (left-Fit x s next w h) (λ f c. c)
                (λ w1 _ h1.
                  let (w2, e2, h2) = entered-Fit next w1 h1 in rw (there, e2) (returns _ h2)))
      ]

  -- The machine is started by its first event, when that is needed.
  handle_first-Running :
      (m : Machine World) (s : State) (w : World)
      → At m s
      → (m' : Machine World) × (handle_first m w ≡ ok (m', w)) × Running m' s
  unfolding handle_first
  handle_first-Running m s w at = elim at.now [
    | inl now ↦ (m, rw now refl, record { table = at.table; last = at.last; now = now })
    | inr (unset, first, quiet) ↦
        let found : load m.states m.initial ≡ ok (row s) = rw (at.table, first) (load-row s) in
        (
          record m { current = some m.initial },
          rw (unset, found, quiet) refl,
          record { table = at.table; last = at.last; now = ap some first },
        )
  ]

  -- What a turn leaves: the state that its handler returned, and all that the state needs.
  pub record Turned (s : State) (r : ℕ × Machine World × World) : Type 0 where
    pub next : State
    pub is_next : r.0 ≡ code next
    pub edge : Edge s next
    pub at : At r.1 next
    pub sound : Sound next r.2
    pub fit : Fit env next r.2

  abbrev Coded : State → ℕ × World → Type 0
  Coded s r = (next : State) × (r.0 ≡ code next) × Goes s next r.1 × Fit env next r.1

  returned-Ends :
      (s : State) (w : World)
      → Fit env s w
      → Holds (λ r. Goes s r.0 r.1) (handler s w)
      → Yields (Coded s) (Cause env w.session) (handler s w >>= λ r. ok (code r.0, r.1))
  returned-Ends s w h goes =
      Yields-bind _ (Yields-Holds (handler-Ends env w h.0 s h.1) goes) (λ f c. c)
        (λ r _ (fit, went). returns _ (r.0, refl, went, fit))

  abbrev Landed : State → Machine World × World → Type 0
  Landed next r = At r.0 next × Sound next r.1 × Fit env next r.1

  jump-Turned :
      (x : Session) (m : Machine World) (s next : State) (w : World)
      → Running m s
      → Goes s next w
      → Fit env next w
      → Yields (Landed next) (Cause env x) (jump m (code next) w)
  jump-Turned x m s next w at went fit =
      Yields-implies (Yields-Holds (jump-Fit x m s next w at fit) (jump-Running m s next w at went))
        (λ r (fit', (there, sound)). (Running-At r.0 next there, sound, fit')) (λ f c. c)

  current_row-row : (m : Machine World) (s : State) → Running m s → current_row m ≡ ok (row s)
  unfolding current_row
  current_row-row m s running =
      let found : load m.states (code s) ≡ ok (row s) = rw running.table (load-row s) in
      rw running.now found

  pub turn-Ends :
      (i : Interest) (m : Machine World) (s : State) (w : World)
      → At m s
      → awaits s ≡ some i
      → Sound s w
      → Fit env s w
      → Yields
          (Turned s)
          (Cause env w.session)
          (handle_first m w >>= λ x. current_row x.0 >>= λ d. handle (pick i d) x.0 x.1)
  unfolding handle
  turn-Ends i m s w at waits h fit =
      let (m1, e, running) = handle_first-Running m s w at in
      let (has, goes) = row-Serves s i w waits h in
      let current : current_row m1 ≡ ok (row s) = current_row-row m1 s running in
      Yields-after _ e (
        Yields-after _ current (
          rw has (
            Yields-bind _ (returned-Ends s w fit goes) (λ f c. c)
              (λ r _ (next, is_next, went, fit').
                Yields-bind _
                  (subst (λ n. Yields (Landed next) (Cause env w.session) (jump m1 n r.1))
                    (sym is_next) (jump-Turned w.session m1 s next r.1 running went fit'))
                  (λ f c. c)
                  (λ j _ (there, sound, ready). returns _ (record {
                    next = next;
                    is_next = is_next;
                    edge = went.edge;
                    at = there;
                    sound = sound;
                    fit = ready;
                  }))))))
