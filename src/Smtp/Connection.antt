-- ===== src/Smtp/Connection.antt =====
-- The events of a connection in smtpnio.c: its arrival, what the selector delivers, and its end.
use tpe_protos.Base.{
  ℕ, ◌+◌, Bool, true, false, ◌&&◌, not, Option, none, some, List, [], ℤ, pos, negsuc, ◌+ℤ◌, Result,
  ok, err, aborted, out_of_bounds, ◌>>=◌, if◌then◌else◌, ◌==◌, leb, replicate,
}
use tpe_protos.Buffer
use tpe_protos.Request
use tpe_protos.Data
use tpe_protos.RcptList.{free_rcpt_list}
use tpe_protos.Stm
use tpe_protos.Stm.{Machine}
use tpe_protos.Smtp.{State, code, Session, Server, op_write, Env, World}
use tpe_protos.Smtp.Handlers.{client_statbl}

-- A descriptor that is registered with `smtp_handler`, with its session. `is_open` is false once it
-- has been unregistered.
pub record Connection : Type 0 where
  pub fd : ℤ
  pub machine : Machine World
  pub world : World
  pub is_open : Bool

-- The order of two signed numbers.
abbrev pub less : ℤ → ℤ → Bool
less (pos m) (pos n) = leb (m + 1) n
less (pos m) (negsuc n) = false
less (negsuc m) (pos n) = true
less (negsuc m) (negsuc n) = leb (n + 1) m

abbrev pub is_minus_one : ℤ → Bool
is_minus_one (pos n) = false
is_minus_one (negsuc n) = n == 0

abbrev pub with_session : World → Session → World
with_session w s = record w { session = s }

abbrev pub count_users : Server → ℤ → Server
count_users s n = record s { current_users = s.current_users +ℤ n }

-- The session's memory is freed: the list of recipients is gone.
unfoldable pub smtp_destroy : Session → Session
unfolding free_rcpt_list
smtp_destroy s = record s { rcpt_list = free_rcpt_list s.rcpt_list }

unfoldable pub smtp_close : Connection → Connection
unfolding smtp_destroy
smtp_close c = record c { world = with_session c.world (smtp_destroy c.world.session) }

-- `unregistered` is whether `selector_unregister_fd` succeeds, which then calls `smtp_close`.
unfoldable pub smtp_done : Bool → Connection → Result Connection
unfolding smtp_close
smtp_done unregistered c =
    let c' = smtp_close c in
    let closed = record c' {
      world = record c'.world { server = count_users c'.world.server (negsuc 0) };
      is_open = false;
    } in
    if is_minus_one c.fd then ok c else if unregistered then ok closed else err aborted

-- `st == ERROR || st == DONE`
abbrev pub has_ended : ℕ → Bool
has_ended st = if st == code State.error then true else st == code State.done

-- What follows a handler of the state machine.
unfoldable pub after : Bool → Connection → ℕ × Machine World × World → Result Connection
unfolding smtp_done
after unregistered c r =
    let c' = record c { machine = r.1; world = r.2 } in
    if has_ended r.0 then smtp_done unregistered c' else ok c'

unfoldable pub smtp_read : Bool → Connection → Result Connection
unfolding after
smtp_read unregistered c = Stm.handler_read c.machine c.world >>= λ r. after unregistered c r

unfoldable pub smtp_write : Bool → Connection → Result Connection
unfolding after
smtp_write unregistered c = Stm.handler_write c.machine c.world >>= λ r. after unregistered c r

-- What the system answers while a connection is accepted: the descriptor that `accept` returns,
-- whether it can be made non-blocking, whether there is memory for the session, whether the
-- selector registers it; and the `data` of the passive descriptor, the program that transforms mails.
pub record Arrival : Type 0 where
  pub client : ℤ
  pub nio : Bool
  pub allocated : Bool
  pub registered : Bool
  pub program : Option (List ℕ)

abbrev pub is_set : Option (List ℕ) → Bool
is_set none = false
is_set (some _) = true

abbrev pub raw_size : ℕ
raw_size = 2048

abbrev pub first_state : Server → State
first_state s =
    if less s.current_users s.max_user then State.greeting_write else State.failed_connection_write

-- The session after `memset` and the calls of the `init` functions.
unfoldable pub new_session : Bool → Session
new_session transformation = record {
  request_parser = Request.init;
  data_parser = Data.init (replicate raw_size 0);
  read_buffer = Buffer.init raw_size (replicate raw_size 0);
  write_buffer = Buffer.init raw_size (replicate raw_size 0);
  transformation = transformation;
  mailfrom = replicate 255 0;
  rcpt_list = [];
}

abbrev pub new_machine : State → Machine World
new_machine first = record {
  initial = code first;
  states = client_statbl;
  max_state = code State.error;
  current = none;
}

-- The variables of the server when a user has come.
abbrev pub with_user : Arrival → Server → Server
with_user a s = record s {
  program = a.program;
  current_users = s.current_users +ℤ pos 1;
  historic_users = s.historic_users +ℤ pos 1;
}

abbrev pub new_world : Arrival → Env → Server → World
new_world a env s = record {
  session = new_session (s.transformations && is_set a.program);
  server = with_user a s;
  interest = op_write;
  sent = [];
  calls = [];
  env = env;
}

abbrev pub new_connection : Arrival → Env → Server → Machine World → Connection
new_connection a env s m = record {
  fd = a.client;
  machine = m;
  world = new_world a env s;
  is_open = true;
}

-- `smtp_destroy` of a pointer: `s->rcpt_list` of a null pointer is read out of bounds.
abbrev pub destroy : Option Session → Result Session
destroy none = err out_of_bounds
destroy (some s) = ok (smtp_destroy s)

-- The label `fail`, with `state`; `close` acts on the system alone.
abbrev pub fail : Option Session → Server → Result (Server × Option Connection)
fail state s = destroy state >>= λ _. ok (s, none)

-- From the allocation on: the server with its counters, and the connection if it is registered.
unfoldable pub establish : Arrival → Env → Server → Result (Server × Option Connection)
unfolding new_session
establish a env s = Stm.init (new_machine (first_state s)) >>= λ m.
    let c = new_connection a env s m in
    let lost = fail (some c.world.session) (with_user a s) in
    if a.registered then ok (with_user a s, some c) else lost

unfoldable pub smtp_passive_accept : Arrival → Env → Server → Result (Server × Option Connection)
unfolding establish
smtp_passive_accept a env s =
    if is_minus_one a.client
    then fail none s
    else if not a.nio
    then fail none s
    else if not a.allocated
    then fail none s
    else establish a env s
