-- ===== src/Main.antt =====
-- main.c: the server from its arguments to its exit code.
pub mod Codes
mod Tests
use tpe_protos.Base.{
  ℕ, ℤ, pos, negsuc, Bool, true, false, not, ◌&&◌, Option, none, some, List, [], ◌∷◌, Result, ok,
  ◌>>=◌, codes, if◌then◌else◌,
}
use tpe_protos.Args.{SmtpArgs}
use tpe_protos.Selector.Select.{selector_destroy}
use tpe_protos.Selector.{Status, success, io, Interests, Handler, Selector, selector_new, register}

-- What the system answers: the two sockets, whether a port can be bound, whether `listen`, the calls of
-- `selector_fd_set_nio`, `selector_init`, `malloc` and `calloc` succeed; and, of each turn of the
-- selector until a signal ends the loop, the status and the table that it leaves, with the connections
-- that it has accepted.
pub record Answers : Type 0 where
  pub server : ℤ
  pub server_6969 : ℤ
  pub bind : ℕ → Bool
  pub listen : Bool
  pub nio : Bool
  pub nio_6969 : Bool
  pub init : Bool
  pub made : Bool
  pub allocated : Bool
  pub turns : List (Status × Selector ℕ)

-- The labels that `goto` names.
pub data Label : Type 0 where
  finally_udp finally_tcp finally : Label

-- Where the start or the service ends: the label, `ss`, `err_msg`, the selector if it is not null, and
-- whether the transformations are on.
pub record Ended : Type 0 where
  pub label : Label
  pub ss : Status
  pub err_msg : List ℕ
  pub selector : Option (Selector ℕ)
  pub transformations : Bool

-- The exit code, the message, which sockets have been closed, whether the transformations are on, and
-- what the callbacks of the selector have made of their world, which is 0, at its destruction.
pub record Outcome : Type 0 where
  pub ret : ℕ
  pub err_msg : List ℕ
  pub tcp_closed : Bool
  pub udp_closed : Bool
  pub transformations : Bool
  pub world : ℕ

abbrev pub is_negative : ℤ → Bool
is_negative (pos n) = false
is_negative (negsuc n) = true

abbrev pub is_success : Status → Bool
is_success success = true
is_success _ = false

abbrev pub stop : Label → Status → List ℕ → Ended
stop label ss err_msg = record {
  label = label;
  ss = ss;
  err_msg = err_msg;
  selector = none;
  transformations = false;
}

-- Behind `set_new_status`: `args.transformations` is never null.
abbrev pub stop_with : Label → Status → List ℕ → Selector ℕ → Ended
stop_with label ss err_msg s = record (stop label ss err_msg) {
  selector = some s;
  transformations = true;
}

-- The loop of `main`.
unfoldable pub serving : Selector ℕ → List (Status × Selector ℕ) → Ended
serving s [] = stop_with finally_udp success (codes "closing") s
serving s ((ss, t) ∷ turns) =
    let rest = serving t turns in
    if is_success ss then rest else stop_with finally ss (codes "serving") t

-- `smtp` and `udp`: `handle_close` is null.
abbrev pub passive : Handler ℕ
passive = record { handle_close = none }

abbrev pub op_read : Interests
op_read = record { op_read = true; op_write = false }

abbrev pub register_udp : Answers → Status × Selector ℕ → Result Ended
register_udp a r =
    if not (is_success r.0)
    then ok (stop_with finally r.0 (codes "registering fd") r.1)
    else (register a.allocated r.1 a.server_6969 (some passive) op_read >>= λ q. ok (
        if not (is_success q.0)
        then stop_with finally q.0 (codes "registering fd for port 6969") q.1
        else serving q.1 a.turns))

abbrev pub with_selector : Answers → Option (Selector ℕ) → Result Ended
with_selector a none = ok (stop finally success (codes "unable to create selector"))
with_selector a (some s) = register a.allocated s a.server (some passive) op_read >>= register_udp a

-- From the sockets to the selector.
unfoldable pub start : SmtpArgs → Answers → Result Ended
start args a =
    if is_negative a.server
    then ok (stop finally_tcp success (codes "unable to create socket"))
    else if is_negative a.server_6969
    then ok (stop finally_udp success (codes "unable to create socket for port 6969"))
    else if not (a.bind args.smtp_port)
    then ok (stop finally success (codes "unable to bind socket"))
    else if not a.listen
    then ok (stop finally success (codes "unable to listen"))
    else if not (a.bind 6969)
    then ok (stop finally success (codes "unable to bind socket for port 6969"))
    else if not a.nio
    then ok (stop finally success (codes "getting server socket flags"))
    else if not a.nio_6969
    then ok (stop finally success (codes "getting server_6969 socket flags"))
    else if not a.init
    then ok (stop finally success (codes "initializing selector"))
    else (selector_new a.made a.allocated 1024 >>= with_selector a)

abbrev pub closes_udp : Label → Bool
closes_udp finally_udp = true
closes_udp _ = false

abbrev pub closes_tcp : Label → Bool
closes_tcp finally = false
closes_tcp _ = true

abbrev pub destroy_if : Option (Selector ℕ) → Result ℕ
destroy_if none = ok 0
destroy_if (some s) = selector_destroy s 0

-- The part of `main` behind the labels; `err_msg` is never null there, and `selector_close` does
-- nothing.
abbrev pub finish : Answers → Ended → Result Outcome
finish a e = destroy_if e.selector >>= λ w. ok (record {
  ret = if is_success e.ss then 1 else 2;
  err_msg = e.err_msg;
  tcp_closed = closes_tcp e.label && not (is_negative a.server);
  udp_closed = closes_udp e.label && not (is_negative a.server_6969);
  transformations = e.transformations;
  world = w;
})

-- `main` behind `parse_args`
unfoldable pub main : SmtpArgs → Answers → Result Outcome
main args a = start args a >>= finish a
