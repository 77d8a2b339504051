-- ===== src/Smtp/Flow/Jump.antt =====
-- The jump from a state of smtpnio.c to the next.
use tpe_protos.Base.{
  equal→≡, ◌≡◌, refl, ◌∙◌, ap, inl, inr, ok, load, ltb, ◌==◌, false, true, some, none, Holds,
  Holds-value, Holds-bind, Holds-err, Bool-cases, aborted, ◌∷◌, ◌++◌, [], pos, ◌+ℤ◌,
}
use tpe_protos.Data
use tpe_protos.Stm.{Machine, notify, depart, jump, is_current}
use tpe_protos.Smtp.{Session, State, code, World, close_fds}
use tpe_protos.Smtp.Io.{request_read_init}
use tpe_protos.Smtp.Handlers.{row, client_statbl, data_buffer_init, mail_info_read_close}
use tpe_protos.Smtp.Flow.{
  Edge, stays, fails, mail_queued, Sound, Comes, Goes, Named, Filing, Filed, closed,
}

-- A machine of a session that has been started, in the state `s`.
pub record Running (m : Machine World) (s : State) : Type 0 where
  pub table : m.states ≡ client_statbl
  pub last : m.max_state ≡ 14
  pub now : m.current ≡ some (code s)

pub load-row : (s : State) → load client_statbl (code s) ≡ ok (row s)
unfolding client_statbl
load-row State.greeting_write = refl
load-row _ = refl

pub code-low : (s : State) → ltb 14 (code s) ≡ false
code-low State.greeting_write = refl
code-low _ = refl

abbrev after_close : World → World
after_close w = record w {
  server = record w.server { mails_sent = w.server.mails_sent +ℤ pos 1 };
  calls = w.calls ++ (close_fds w.session.rcpt_list ∷ []);
  session = record w.session { rcpt_list = [] };
}

when_closed :
    {next : State} (w : World)
    → Sound next (after_close w)
    → Holds (Sound next) (mail_info_read_close (code State.mail_info_write) w)
unfolding mail_info_read_close
when_closed w h = elim (Bool-cases (w.env.files (close_fds w.session.rcpt_list))) [
  | inl e ↦ rw e (Holds-value _ h)
  | inr e ↦ rw e (Holds-err aborted)
]

-- The mail that `mail_info_write` leaves open is closed on its departure.
closed-Sound :
    (next : State) (w : World)
    → Edge State.mail_info_write next
    → (code State.mail_info_write == code next) ≡ false
    → Comes State.mail_info_write next w
    → Holds (Sound next) (mail_info_read_close (code State.mail_info_write) w)
unfolding mail_info_read_close
closed-Sound _ w (stays _) other h = cc
closed-Sound _ w (fails _) other h =
    when_closed w (record { watched = tt; named = tt; filed = (none, closed w.calls _ h.filed) })
closed-Sound _ w mail_queued other h =
    when_closed w (record { watched = h.watched; named = tt; filed = closed w.calls _ h.filed })

Named-data_parser :
    (s : State) (x : Session) (p : Data.Parser) → Named s x → Named s (record x { data_parser = p })
Named-data_parser State.rcpt_to_write x p h = h
Named-data_parser State.data_read x p h = h
Named-data_parser State.data_write x p h = h
Named-data_parser State.mail_info_read x p h = h
Named-data_parser State.mail_info_write x p h = h
Named-data_parser _ x p h = tt

Filed-data_parser :
    (s : State) (w : World) (p : Data.Parser)
    → Filing s w.session w.calls
    → Filed s s (record w.session { data_parser = p }) w.calls
Filed-data_parser State.data_write w p h = h
Filed-data_parser State.mail_info_read w p h = h
Filed-data_parser State.mail_info_write w p h = h
Filed-data_parser State.done w p h = h
Filed-data_parser State.error w p h = h
Filed-data_parser _ w p h = h

Filing-Filed : (s : State) (w : World) → Filing s w.session w.calls → Filed s s w.session w.calls
Filing-Filed State.mail_info_write w h = h
Filing-Filed _ w h = h

settles :
    (s next : State) (w : World) → Comes s next w → Filing next w.session w.calls → Sound next w
settles s next w h filed = record {
  watched = h.watched;
  named = h.named;
  filed = Filing-Filed next w filed;
}

left-Sound :
    (s next : State) (w : World)
    → Edge s next
    → (code s == code next) ≡ false
    → Comes s next w
    → Holds (Sound next) (notify (row s).on_departure (row s).state w)
unfolding row data_buffer_init
left-Sound State.data_write next w edge other h = Holds-value _ (record {
  watched = h.watched;
  named =
      Named-data_parser next w.session (Data.init w.session.data_parser.data_buffer.bytes) h.named;
  filed = Filed-data_parser next w _ h.filed;
})
left-Sound State.mail_info_write next w edge other h = closed-Sound next w edge other h
left-Sound s next w edge other h = Holds-value _ (settles s next w h h.filed)

-- With no departure the state is that of before.
stayed-Sound :
    (s next : State) (w : World)
    → Edge s next
    → (code s == code next) ≡ true
    → Comes s next w
    → Sound next w
stayed-Sound State.mail_info_write _ w (stays _) same h = h
stayed-Sound State.mail_info_write _ w (fails _) same h = cc
stayed-Sound State.mail_info_write _ w mail_queued same h = cc
stayed-Sound s next w edge same h = settles s next w h h.filed

entered-Sound :
    (s : State) (w : World)
    → Sound s w
    → Holds (Sound s) (notify (row s).on_arrival (row s).state w)
unfolding row request_read_init
entered-Sound State.failed_connection_read w h =
    Holds-value _ (record { watched = h.watched; named = h.named; filed = h.filed })
entered-Sound State.ehlo_read w h =
    Holds-value _ (record { watched = h.watched; named = h.named; filed = h.filed })
entered-Sound State.mail_from_read w h =
    Holds-value _ (record { watched = h.watched; named = h.named; filed = h.filed })
entered-Sound State.rcpt_to_read w h =
    Holds-value _ (record { watched = h.watched; named = h.named; filed = h.filed })
entered-Sound State.data_read w h =
    Holds-value _ (record { watched = h.watched; named = h.named; filed = h.filed })
entered-Sound _ w h = Holds-value _ h

depart-Sound :
    (m : Machine World) (s next : State) (w : World)
    → Running m s
    → Edge s next
    → (code s == code next) ≡ false
    → Comes s next w
    → Holds (Sound next) (depart m w)
unfolding depart
depart-Sound m s next w at edge other h =
    let found : load m.states (code s) ≡ ok (row s) = rw at.table (load-row s) in
    rw (at.now, found) (left-Sound s next w edge other h)

-- A jump along an edge leads to its end, which is sound.
pub jump-Running :
    (m : Machine World) (s next : State) (w : World)
    → Running m s
    → Goes s next w
    → Holds (λ r. Running r.0 next × Sound next r.1) (jump m (code next) w)
unfolding jump
jump-Running m s next w at h =
    let top : ltb m.max_state (code next) ≡ false = rw at.last (code-low next) in
    let found : load m.states (code next) ≡ ok (row next) = rw at.table (load-row next) in
    let here : is_current m.current (code next) ≡ (code s == code next) = rw at.now refl in
    rw top (elim (Bool-cases (code s == code next)) [
      | inl same ↦ rw (here ∙ same) (
          Holds-value _ (
            record { table = at.table; last = at.last; now = at.now ∙ ap some (equal→≡ _ _ same) },
            stayed-Sound s next w h.edge same h.sound,
          ))
      | inr other ↦ rw (here ∙ other) (
          Holds-bind (depart m w) _ (depart-Sound m s next w at h.edge other h.sound) (λ w1 h1.
            rw found (
              Holds-bind (notify (row next).on_arrival (row next).state w1) _
                (entered-Sound next w1 h1)
                (λ w2 h2.
                  Holds-value _ (record { table = at.table; last = at.last; now = refl }, h2)))))
    ])
