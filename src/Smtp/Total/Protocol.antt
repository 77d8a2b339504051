-- ===== src/Smtp/Total/Protocol.antt =====
-- How every event of a connection of smtpnio.c ends that the events of the selector can lead to.
use tpe_protos.Base.{
  ℕ, arith, Bool, true, false, some, ◌≡◌, refl, sym, ◌∙◌, ap, ◌⊎◌, inl, inr, ok, err, not, length,
  length-replicate, replicate, aborted, Yields, returns, faults, Yields-bind, Yields-if,
  Yields-implies, Yields-cases, Yields-value, Holds, Holds-err, Holds-bind, Holds-if, true-ne_false,
  Bool-cases,
}
use mathlib.Core.Path.{subst}
use tpe_protos.Base.Fault.{Fault}
use tpe_protos.Buffer
use tpe_protos.Data
use tpe_protos.Request
use tpe_protos.Stm.{Machine, handler_read, handler_write, init}
use tpe_protos.Stm.Defined.{init-same}
use tpe_protos.Smtp.{State, Session, Interest, op_read, op_write, Env, Server, World}
use tpe_protos.Smtp.Connection.{
  less, Connection, Arrival, smtp_read, smtp_write, smtp_done, after, has_ended, establish,
  smtp_passive_accept, new_machine, new_session, new_world, first_state, is_minus_one,
}
use tpe_protos.Smtp.Flow.Reached.{
  Reached, accepted, delivered, renewed, deliver, on_event, IsSound, has_ended-awaits,
  smtp_passive_accept-IsSound, registered-Holds, renewed-IsSound,
}
use tpe_protos.Smtp.Total.{Whole, Ready, Fit, Cause}
use tpe_protos.Smtp.Total.Turn.{Turned, turn-Ends}

-- A connection is closed, or open in a state for which it has all that is needed.
abbrev Stands : Env → Connection → Type 0
Stands env c = (c.is_open ≡ false) ⊎ ((s : State) × IsSound c s × Fit env s c.world)

-- What makes an event fault: a cause in its session, or a descriptor that cannot be unregistered.
abbrev pub Fails : Bool → Env → Connection → Fault → Type 0
Fails unregistered env c f = Cause env c.world.session f ⊎ ((unregistered ≡ false) × (f ≡ aborted))

smtp_done-Ends :
    (unregistered : Bool) (c : Connection)
    → is_minus_one c.fd ≡ false
    → Yields
        (λ c'. c'.is_open ≡ false)
        (λ f. (unregistered ≡ false) × (f ≡ aborted))
        (smtp_done unregistered c)
unfolding smtp_done
smtp_done-Ends true c fd = rw fd (returns _ refl)
smtp_done-Ends false c fd = rw fd (faults _ (refl, refl))

after-Ends :
    (env : Env) (unregistered : Bool) (c : Connection) (s : State) (r : ℕ × Machine World × World)
    → is_minus_one c.fd ≡ false
    → c.is_open ≡ true
    → Turned env s r
    → Yields (Stands env) (λ f. (unregistered ≡ false) × (f ≡ aborted)) (after unregistered c r)
unfolding after
after-Ends env unregistered c s r fd still t =
    Yields-if (has_ended r.0)
      (λ _.
        Yields-implies (smtp_done-Ends unregistered (record c { machine = r.1; world = r.2 }) fd)
          (λ c' closed. inl closed) (λ f x. x))
      (λ on. returns _ (
        inr (
          t.next,
          record {
            at = t.at;
            waits = has_ended-awaits t.next r.2.interest (rw t.is_next at on) t.sound.watched;
            sound = t.sound;
            has_fd = fd;
            still = still;
          },
          t.fit,
        )))

on_event-Ends :
    (env : Env) (i : Interest) (unregistered : Bool) (c : Connection) (s : State)
    → IsSound c s
    → Fit env s c.world
    → c.world.interest ≡ i
    → Yields (Stands env) (Fails unregistered env c) (on_event i unregistered c)
unfolding smtp_read handler_read smtp_write handler_write
on_event-Ends env op_read unregistered c s h fit i =
    Yields-bind _ (turn-Ends env op_read c.machine s c.world h.at (h.waits ∙ ap some i) h.sound fit)
      (λ f cause. inl cause)
      (λ r _ t.
        Yields-implies (after-Ends env unregistered c s r h.has_fd h.still t) (λ c' x. x)
          (λ f x. inr x))
on_event-Ends env op_write unregistered c s h fit i =
    Yields-bind _
      (turn-Ends env op_write c.machine s c.world h.at (h.waits ∙ ap some i) h.sound fit)
      (λ f cause. inl cause)
      (λ r _ t.
        Yields-implies (after-Ends env unregistered c s r h.has_fd h.still t) (λ c' x. x)
          (λ f x. inr x))

renewed-Fit :
    (c : Connection) (s : State) (env0 env : Env) (server : Server)
    → Fit env0 s c.world
    → Fit env s (renewed c env server).world
renewed-Fit c s env0 env server (h, r) = (
  record {
    same_env = refl;
    read = h.read;
    write = h.write;
    limit = h.limit;
    text = h.text;
    text_limit = h.text_limit;
    arg = h.arg;
    from = h.from;
  },
  r,
)

zeros : (n : ℕ) → length (replicate {A = ℕ} n 0) ≡ n
zeros n = length-replicate n 0

new_world-Whole : (a : Arrival) (env : Env) (before : Server) → Whole env (new_world a env before)
unfolding new_session Buffer.init Data.init Request.init
new_world-Whole a env before = record {
  same_env = refl;
  read = omega (arith, zeros 2048);
  write = omega (arith, zeros 2048);
  limit = refl;
  text = omega (arith, zeros 2048);
  text_limit = refl;
  arg = zeros 32;
  from = zeros 255;
}

first_state-Ready : (before : Server) (x : Session) → Ready (first_state before) x
first_state-Ready before x = elim (Bool-cases (less before.current_users before.max_user)) [
  | inl room ↦ rw room tt
  | inr full ↦ rw full tt
]

-- The session of a connection that is accepted.
smtp_passive_accept-world :
    (a : Arrival) (env : Env) (before : Server)
    → Holds
        (λ r. (c : Connection) → r.1 ≡ some c → c.world ≡ new_world a env before)
        (smtp_passive_accept a env before)
unfolding smtp_passive_accept establish
smtp_passive_accept-world a env before =
    Holds-if (is_minus_one a.client) _ _ (λ _. Holds-err _)
      (λ _.
        Holds-if (not a.nio) _ _ (λ _. Holds-err _)
          (λ _.
            Holds-if (not a.allocated) _ _ (λ _. Holds-err _)
              (λ _.
                Holds-bind (init (new_machine (first_state before))) _
                  (init-same (new_machine (first_state before)))
                  (λ m _.
                    registered-Holds {P = λ c. c.world ≡ new_world a env before} a.registered _ _
                      refl))))

Reached-Stands : (c : Connection) → Reached c → (env : Env) × Stands env c
Reached-Stands c (accepted a env before server e) =
    let sound = (smtp_passive_accept-IsSound a env before).on_ok (server, some c) e c refl in
    let same = (smtp_passive_accept-world a env before).on_ok (server, some c) e c refl in
    let fit : Fit env (first_state before) (new_world a env before) =
      (new_world-Whole a env before, first_state-Ready before _) in
    (env, inr (first_state before, sound, subst (Fit env (first_state before)) (sym same) fit))
Reached-Stands c (delivered unregistered c0 env server before was_open e) =
    let (env0, stands) = Reached-Stands c0 before in
    elim stands [
      | inl closed ↦ absurd (true-ne_false (sym was_open ∙ closed))
      | inr (s, h, fit) ↦ (
        env,
        Yields-value
            (on_event-Ends env c0.world.interest unregistered (renewed c0 env server) s
              (renewed-IsSound c0 s env server h) (renewed-Fit c0 s env0 env server fit) refl)
            e,
      )
    ]

-- Every event of an open connection that the events lead to returns, or it faults for one of these
-- causes: `recv` or `send` returns more than it was given, the greeting has been put behind itself up
-- to the end of the write buffer, there is no memory for a recipient, a call on files ends
-- the process, the descriptor cannot be unregistered, or the line that is read is too long: the parser writes past an array, or the argument
-- has no end in its array and is read past it.
pub deliver-Ends :
    (unregistered : Bool) (c : Connection) (env : Env) (server : Server)
    → Reached c
    → c.is_open ≡ true
    → ((c' : Connection) × (deliver unregistered (renewed c env server) ≡ ok c'))
      ⊎ ((f : Fault) × (deliver unregistered (renewed c env server) ≡ err f)
          × Fails unregistered env c f)
deliver-Ends unregistered c env server reached is_open =
    let (env0, stands) = Reached-Stands c reached in
    elim stands [
      | inl closed ↦ absurd (true-ne_false (sym is_open ∙ closed))
      | inr (s, h, fit) ↦
          elim (Yields-cases (
            on_event-Ends env c.world.interest unregistered (renewed c env server) s
              (renewed-IsSound c s env server h) (renewed-Fit c s env0 env server fit) refl)) [
                | inl (c', e, _) ↦ inl (c', e)
                | inr (f, e, cause) ↦ inr (f, e, cause)
              ]
    ]
