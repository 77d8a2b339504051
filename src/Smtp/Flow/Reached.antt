-- ===== src/Smtp/Flow/Reached.antt =====
-- The connections of smtpnio.c that the events of the selector lead to.
use tpe_protos.Base.{
  some-inj, none-ne, not, ◌≡◌, refl, sym, ◌∙◌, ap, ◌⊎◌, inl, inr, ℕ, Result, ok, load, Bool, List,
  [], Option, true, false, some, none, if◌then◌else◌, Holds, Holds-err, Holds-value, Holds-bind,
  Holds-if, Holds-implies,
}
use mathlib.Core.Path.{subst}
use tpe_protos.Stm.Defined.{init-same}
use tpe_protos.Stm.{Machine, handler_read, handler_write, state, init}
use tpe_protos.RcptList.{Node}
use tpe_protos.Smtp.{Session, Server, State, code, Interest, op_read, op_write, Env, World}
use tpe_protos.Smtp.Handlers.{row}
use tpe_protos.Smtp.Connection.{
  less, Connection, smtp_close, Arrival, smtp_read, smtp_write, smtp_done, after, has_ended,
  establish, smtp_passive_accept, new_machine, first_state, is_minus_one,
}
use tpe_protos.Smtp.Flow.{Edge, Named, Filed, Mails, no_mail, Sound, awaits, Agrees}
use tpe_protos.Smtp.Flow.Jump.{load-row}
use tpe_protos.Smtp.Flow.Turn.{At, Moved, turn-Moved}

-- What the selector delivers to an open connection: the event that its descriptor is watched for.
abbrev pub on_event : Interest → Bool → Connection → Result Connection
on_event op_read unregistered c = smtp_read unregistered c
on_event op_write unregistered c = smtp_write unregistered c

abbrev pub deliver : Bool → Connection → Result Connection
deliver unregistered c = on_event c.world.interest unregistered c

-- The connection with what other sessions and the system do between two of its events.
abbrev pub renewed : Connection → Env → Server → Connection
renewed c env server = record c { world = record c.world { env = env; server = server } }

-- The connections that an accepted one can become.
pub data Reached : Connection → Type 0 where
  accepted :
      (a : Arrival) (env : Env) (before server : Server) {c : Connection}
      → smtp_passive_accept a env before ≡ ok (server, some c)
      → Reached c
  delivered :
      (unregistered : Bool) (c : Connection) (env : Env) (server : Server) {c' : Connection}
      → Reached c
      → c.is_open ≡ true
      → deliver unregistered (renewed c env server) ≡ ok c'
      → Reached c'

-- An open connection is in a state that is sound and that waits for something.
pub record IsSound (c : Connection) (s : State) : Type 0 where
  pub at : At c.machine s
  pub waits : awaits s ≡ some c.world.interest
  pub sound : Sound s c.world
  pub has_fd : is_minus_one c.fd ≡ false
  pub still : c.is_open ≡ true

true-ne : true ≡ false → ⊥
true-ne e = cc

pub has_ended-awaits :
    (s : State) (i : Interest)
    → has_ended (code s) ≡ false
    → Agrees (awaits s) i
    → awaits s ≡ some i
has_ended-awaits State.done i e a = cc
has_ended-awaits State.error i e a = cc
has_ended-awaits _ i e a = ap some (sym a)

ended-Mails :
    (s : State) (w : World)
    → has_ended (code s) ≡ true
    → Filed s s w.session w.calls
    → (mail : Option (List Node)) × Mails w.calls mail
ended-Mails State.done w e h = h
ended-Mails State.error w e h = h
ended-Mails _ w e h = cc

-- What an event leaves of a connection: it is closed, or has gone along an edge.
abbrev pub Went : State → Connection → Type 0
Went s c =
    ((c.is_open ≡ false) × ((mail : Option (List Node)) × Mails c.world.calls mail))
    ⊎ ((next : State) × Edge s next × IsSound c next)

smtp_done-closed :
    (unregistered : Bool) (c : Connection)
    → is_minus_one c.fd ≡ false
    → Holds
        (λ c'. (c'.is_open ≡ false) × (c'.world.calls ≡ c.world.calls))
        (smtp_done unregistered c)
unfolding smtp_done smtp_close
smtp_done-closed true c fd = rw fd (Holds-value _ (refl, refl))
smtp_done-closed false c fd = rw fd (Holds-err _)

after-Went :
    (unregistered : Bool) (c : Connection) (s : State) (r : ℕ × Machine World × World)
    → is_minus_one c.fd ≡ false
    → c.is_open ≡ true
    → Moved s r
    → Holds (Went s) (after unregistered c r)
unfolding after
after-Went unregistered c s r fd still (next, is_next, edge, at, sound) =
    Holds-if (has_ended r.0) _ _
      (λ ended.
        let (mail, m) = ended-Mails next r.2 (rw is_next at ended) sound.filed in
        Holds-implies _ (smtp_done-closed unregistered (record c { machine = r.1; world = r.2 }) fd)
          (λ c' (closed, same). inl (closed, (mail, rw same m))))
      (λ on. Holds-value _ (
        inr (
          next,
          edge,
          record {
            at = at;
            waits = has_ended-awaits next r.2.interest (rw is_next at on) sound.watched;
            sound = sound;
            has_fd = fd;
            still = still;
          },
        )))

pub on_event-Went :
    (i : Interest) (unregistered : Bool) (c : Connection) (s : State)
    → IsSound c s
    → c.world.interest ≡ i
    → Holds (Went s) (on_event i unregistered c)
unfolding smtp_read handler_read smtp_write handler_write
on_event-Went op_read unregistered c s h i =
    Holds-bind (handler_read c.machine c.world) _
      (turn-Moved op_read c.machine s c.world h.at (h.waits ∙ ap some i) h.sound)
      (λ r moved. after-Went unregistered c s r h.has_fd h.still moved)
on_event-Went op_write unregistered c s h i =
    Holds-bind (handler_write c.machine c.world) _
      (turn-Moved op_write c.machine s c.world h.at (h.waits ∙ ap some i) h.sound)
      (λ r moved. after-Went unregistered c s r h.has_fd h.still moved)

new_machine-At :
    (b : Bool)
    → let s = if b then State.greeting_write else State.failed_connection_write in
      At (new_machine s) s
      × (awaits s ≡ some op_write)
      × ((x : Session) → Named s x)
      × ((x : Session) → Filed s s x [])
unfolding row
new_machine-At true = (
  record { table = refl; last = refl; now = inr (refl, refl, refl) },
  refl,
  λ _. tt,
  λ _. no_mail,
)
new_machine-At false = (
  record { table = refl; last = refl; now = inr (refl, refl, refl) },
  refl,
  λ _. tt,
  λ _. no_mail,
)

first_watched :
    (b : Bool)
    → Agrees (awaits (if b then State.greeting_write else State.failed_connection_write)) op_write
first_watched true = refl
first_watched false = refl

-- What holds of the connection that is made holds of the one that is registered.
pub registered-Holds :
    {P : Connection → Type 0} (registered : Bool) (s : Server) (c : Connection)
    → P c
    → Holds
        (λ (r : Server × Option Connection). (c' : Connection) → r.1 ≡ some c' → P c')
        (if registered then ok (s, some c) else ok (s, none))
registered-Holds {P} true s c h = Holds-value _ (λ c' e. subst P (some-inj e) h)
registered-Holds false s c h = Holds-value _ (λ c' e. absurd (none-ne e))

-- A connection that is accepted is in its first state.
pub smtp_passive_accept-IsSound :
    (a : Arrival) (env : Env) (before : Server)
    → Holds
        (λ r. (c : Connection) → r.1 ≡ some c → IsSound c (first_state before))
        (smtp_passive_accept a env before)
unfolding smtp_passive_accept establish
smtp_passive_accept-IsSound a env before =
    Holds-if (is_minus_one a.client) _ _ (λ _. Holds-err _)
      (λ fd.
        Holds-if (not a.nio) _ _ (λ _. Holds-err _)
          (λ _.
            Holds-if (not a.allocated) _ _ (λ _. Holds-err _)
              (λ _.
                Holds-bind (init (new_machine (first_state before))) _
                  (init-same (new_machine (first_state before)))
                  (λ m is_new. registered-Holds a.registered _ _ (
                    rw is_new (
                      let (at, waits, named, unfiled) =
                        new_machine-At (less before.current_users before.max_user) in
                      record {
                        at = at;
                        waits = waits;
                        sound = record {
                          watched = first_watched (less before.current_users before.max_user);
                          named = named _;
                          filed = unfiled _;
                        };
                        has_fd = fd;
                        still = refl;
                      }))))))

pub renewed-IsSound :
    (c : Connection) (s : State) (env : Env) (server : Server)
    → IsSound c s
    → IsSound (renewed c env server) s
renewed-IsSound c s env server h = record {
  at = h.at;
  waits = h.waits;
  sound = record { watched = h.sound.watched; named = h.sound.named; filed = h.sound.filed };
  has_fd = h.has_fd;
  still = h.still;
}

-- Such a connection is closed, or open in a state that is sound.
pub Reached-Lies :
    (c : Connection)
    → Reached c
    → ((c.is_open ≡ false) × ((mail : Option (List Node)) × Mails c.world.calls mail))
      ⊎ ((s : State) × IsSound c s)
Reached-Lies c (accepted a env before server e) =
    inr (
      first_state before,
      (smtp_passive_accept-IsSound a env before).on_ok (server, some c) e c refl,
    )
Reached-Lies c (delivered unregistered c0 env server before was_open e) =
    elim (Reached-Lies c0 before) [
      | inl (closed, _) ↦ absurd (true-ne (sym was_open ∙ closed))
      | inr (s, h) ↦
          let went =
            (on_event-Went c0.world.interest unregistered (renewed c0 env server) s
                (renewed-IsSound c0 s env server h) refl).on_ok
              c e in
          elim went [ inl gone ↦ inl gone | inr (next, edge, sound) ↦ inr (next, sound) ]
    ]

pub Reached-IsSound : (c : Connection) → Reached c → c.is_open ≡ true → (s : State) × IsSound c s
Reached-IsSound c reached is_open = elim (Reached-Lies c reached) [
  | inl (closed, _) ↦ absurd (true-ne (sym is_open ∙ closed))
  | inr found ↦ found
]

state-row : (s : State) → (row s).state ≡ code s
unfolding row
state-row State.greeting_write = refl
state-row _ = refl

pub IsSound-state : (c : Connection) (s : State) → IsSound c s → state c.machine ≡ ok (code s)
unfolding state
IsSound-state c s h = elim h.at.now [
  | inl now ↦
      let found : load c.machine.states (code s) ≡ ok (row s) = rw h.at.table (load-row s) in
      rw (now, found, state-row s) refl
  | inr (unset, first, quiet) ↦ rw (unset, first) refl
]
