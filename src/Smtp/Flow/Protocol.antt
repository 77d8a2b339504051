-- ===== src/Smtp/Flow/Protocol.antt =====
-- What holds of every connection of smtpnio.c that the events of the selector can lead to.
use tpe_protos.RcptList.{Node}
use tpe_protos.Base.{List, Option, Bool, true, false, ◌≡◌, refl, ◌⊎◌, inl, inr, ok, Result}
use tpe_protos.Stm.{state}
use tpe_protos.Smtp.{State, code, Env, Server, World}
use tpe_protos.Smtp.Handlers.{row, callback}
use tpe_protos.Smtp.Connection.{Connection}
use tpe_protos.Smtp.Flow.{Edge, Named, Addressed, Mails, Filing, Filed}
use tpe_protos.Smtp.Flow.Mail.{Mails-Addressed}
use tpe_protos.Smtp.Flow.Handlers.{Filed-Mails}
use tpe_protos.Smtp.Flow.Rows.{handler, pick, row-Serves}
use tpe_protos.Smtp.Flow.Reached.{
  Reached, Reached-Lies, renewed, deliver, IsSound-state, Reached-IsSound, on_event-Went,
  renewed-IsSound,
}

Filed-Filing : (s : State) (w : World) → Filed s s w.session w.calls → Filing s w.session w.calls
Filed-Filing State.mail_info_write w h = h
Filed-Filing _ w h = h

Filed-Addressed : (s : State) (w : World) → Filed s s w.session w.calls → Addressed w.calls
Filed-Addressed s w h = let (mail, m) = Filed-Mails s w h in Mails-Addressed m

-- An accepted connection that is open after any number of events, whatever the environment and the
-- other sessions do in between, is in a state whose row in `client_statbl` has a callback for the
-- event that its descriptor is watched for.
pub Reached-Serves :
    (c : Connection)
    → Reached c
    → c.is_open ≡ true
    → (s : State) × (state c.machine ≡ ok (code s))
      × (f : World → Result (State × World)) × (pick c.world.interest (row s) ≡ callback f)
Reached-Serves c reached is_open =
    let (s, h) = Reached-IsSound c reached is_open in
    let (has, goes) = row-Serves s c.world.interest c.world h.waits h.sound in
    (s, IsSound-state c s h, handler s, has)

-- A connection that the events lead to has made its calls on files in order: mails one behind the
-- other, each created for recipients, at least one, written, and closed for the same ones. While it is
-- open, a mail is open when its text is read or answered, or when the answer to DATA is written, for
-- the recipients of the session then, and else none; when it is closed, the last mail can be open.
pub Reached-Filing :
    (c : Connection)
    → Reached c
    → ((c.is_open ≡ false) × ((mail : Option (List Node)) × Mails c.world.calls mail))
      ⊎ ((s : State) × (c.is_open ≡ true)
          × (state c.machine ≡ ok (code s))
          × Filing s c.world.session c.world.calls)
Reached-Filing c reached = elim (Reached-Lies c reached) [
  | inl gone ↦ inl gone
  | inr (s, h) ↦ inr (s, h.still, IsSound-state c s h, Filed-Filing s c.world h.sound.filed)
]

-- Of such a connection: from the state that reads DATA on it has a recipient, and the calls that
-- create and write the files of mails have been made with a recipient.
pub Reached-Named :
    (c : Connection)
    → Reached c
    → c.is_open ≡ true
    → (s : State) × (state c.machine ≡ ok (code s))
      × Named s c.world.session
      × Addressed c.world.calls
Reached-Named c reached is_open =
    let (s, h) = Reached-IsSound c reached is_open in
    (s, IsSound-state c s h, h.sound.named, Filed-Addressed s c.world h.sound.filed)

-- When the event that such a connection waits for is handled and returns, the connection is closed
-- or its state is that of before, or one that follows it in the order of the protocol.
pub deliver-Edge :
    (unregistered : Bool) (c c' : Connection) (env : Env) (server : Server)
    → Reached c
    → c.is_open ≡ true
    → deliver unregistered (renewed c env server) ≡ ok c'
    → (s : State) × (state c.machine ≡ ok (code s))
      × ((c'.is_open ≡ false)
          ⊎ ((next : State) × Edge s next × (state c'.machine ≡ ok (code next))))
deliver-Edge unregistered c c' env server reached is_open e =
    let (s, h) = Reached-IsSound c reached is_open in
    let went =
      (on_event-Went c.world.interest unregistered (renewed c env server) s
          (renewed-IsSound c s env server h) refl).on_ok
        c' e in
    (
      s,
      IsSound-state c s h,
      elim went [
        | inl (closed, _) ↦ inl closed
        | inr (next, edge, sound) ↦ inr (next, edge, IsSound-state c' next sound)
      ],
    )
