-- ===== src/Smtp/Tests.antt =====
-- A session of smtpnio.c on concrete answers of the system.
use tpe_protos.Base.{
  ℕ, ◌≡◌, refl, ◌⊎◌, true, false, none, some, List, [], ◌++◌, pos, Result, ok, length, replicate,
  codes,
}
use tpe_protos.Buffer
use tpe_protos.Buffer.{Buffer}
use tpe_protos.Smtp.Io.{request_read_init}
use tpe_protos.Stm.{init, state, handler_write}
use tpe_protos.Smtp.{State, code, op_read, op_write, Server, Env, World}
use tpe_protos.Smtp.Handlers.{client_statbl, row, callback, greeting_write}
use tpe_protos.Smtp.Connection.{
  Connection, Arrival, new_session, new_machine, smtp_passive_accept, smtp_write,
}
use tpe_protos.Smtp.Flow.{Edge, Named, Addressed, Mails, Filing}
use tpe_protos.Smtp.Flow.Rows.{pick}
use tpe_protos.Smtp.Flow.Reached.{Reached, accepted, delivered, renewed, deliver}
use tpe_protos.Smtp.Io.{write_status}
use tpe_protos.Smtp.Flow.Sends.{
  pending, Sends, not_empty, write_status-Sends, write_events, write_events-whole,
}
use tpe_protos.Buffer.Valid.{IsValid}
use tpe_protos.Base.{arith, Option, ◌+◌}
use tpe_protos.Base.Fault.{Fault}
use tpe_protos.RcptList.{Node}
use tpe_protos.Smtp.Total.Protocol.{Fails, deliver-Ends}
use tpe_protos.Smtp.Flow.Accept.{can_serve, Counts, smtp_passive_accept-Counts}
use tpe_protos.Base.{err, out_of_bounds}
use tpe_protos.Smtp.Flow.Protocol.{Reached-Serves, Reached-Named, Reached-Filing, deliver-Edge}

abbrev server : Server
server = record {
  historic_users = pos 0;
  current_users = pos 0;
  transferred_bytes = pos 0;
  mails_sent = pos 0;
  transformations = false;
  program = none;
  max_user = pos 500;
}

abbrev arrival : Arrival
arrival = record { client = pos 5; nio = true; allocated = true; registered = true; program = none }

-- Everything is sent, a client says nothing, and the selector accepts every interest.
abbrev env : Env
env = record {
  recv = λ _. (pos 0, []);
  send = λ bytes. pos (length bytes);
  accepts = λ _. true;
  allocated = true;
  files = λ _. true;
}

abbrev counted : Server
counted = record server { historic_users = pos 1; current_users = pos 1 }

abbrev fresh : Connection
fresh = record {
  fd = pos 5;
  machine = new_machine State.greeting_write;
  world = record {
    session = new_session false;
    server = counted;
    interest = op_write;
    sent = [];
    calls = [];
    env = env;
  };
  is_open = true;
}

fresh_accepted : smtp_passive_accept arrival env server ≡ ok (counted, some fresh)
unfolding smtp_passive_accept init client_statbl
fresh_accepted = refl

abbrev greeting : List ℕ
greeting = codes "220 localhost SMTP\r\n"

abbrev greeted_buffer : Buffer
greeted_buffer = record {
  bytes = greeting ++ replicate 2028 0;
  limit = 2048;
  read_at = 0;
  write_at = 0;
}

-- The connection when the greeting has been sent.
abbrev greeted : Connection
greeted = record fresh {
  machine = record (new_machine State.greeting_write) { current = some (code State.ehlo_read) };
  world = record fresh.world {
    session = record (new_session false) { write_buffer = greeted_buffer };
    interest = op_read;
    sent = greeting;
  };
}

greeted_delivered : deliver true fresh ≡ ok greeted
unfolding smtp_write handler_write row greeting_write new_session client_statbl Buffer.init
    Buffer.write_adv Buffer.read_ptr Buffer.read_adv Buffer.can_read Buffer.compact
    request_read_init
greeted_delivered = refl

fresh-Reached : Reached fresh
fresh-Reached = accepted arrival env server counted fresh_accepted

greeted-Reached : Reached greeted
greeted-Reached = delivered true fresh env counted fresh-Reached refl greeted_delivered

Reached-Serves_example :
    (s : State) × (state greeted.machine ≡ ok (code s))
    × (f : World → Result (State × World)) × (pick op_read (row s) ≡ callback f)
Reached-Serves_example = Reached-Serves greeted greeted-Reached refl

Reached-Named_example :
    (s : State) × (state greeted.machine ≡ ok (code s))
    × Named s greeted.world.session
    × Addressed []
Reached-Named_example = Reached-Named greeted greeted-Reached refl

Reached-Filing_example :
    ((true ≡ false) × ((mail : Option (List Node)) × Mails [] mail))
    ⊎ ((s : State) × (true ≡ true)
        × (state greeted.machine ≡ ok (code s))
        × Filing s greeted.world.session [])
Reached-Filing_example = Reached-Filing greeted greeted-Reached

deliver-Edge_example :
    (s : State) × (state fresh.machine ≡ ok (code s))
    × ((true ≡ false) ⊎ ((next : State) × Edge s next × (state greeted.machine ≡ ok (code next))))
deliver-Edge_example =
    deliver-Edge true fresh greeted env counted fresh-Reached refl greeted_delivered

-- The selector does not register the descriptor: the user is counted all the same.
abbrev unregistered_arrival : Arrival
unregistered_arrival = record arrival { registered = false }

smtp_passive_accept-Counts_example :
    ((can_serve unregistered_arrival ≡ false)
      × (smtp_passive_accept unregistered_arrival env server ≡ err out_of_bounds))
    ⊎ ((can_serve unregistered_arrival ≡ true)
        × Counts unregistered_arrival server (smtp_passive_accept unregistered_arrival env server))
smtp_passive_accept-Counts_example = smtp_passive_accept-Counts unregistered_arrival env server

abbrev goodbye : List ℕ
goodbye = codes "221 Bye\r\n"

abbrev goodbye_buffer : Buffer
goodbye_buffer = record {
  bytes = goodbye ++ replicate 2039 0;
  limit = 2048;
  read_at = 0;
  write_at = 9;
}

goodbye_buffer-IsValid : IsValid goodbye_buffer
goodbye_buffer-IsValid = record {
  read_le = omega arith;
  write_le = omega arith;
  in_memory = omega arith;
}

-- Each call of send(2) takes one byte.
abbrev slow_env : Env
slow_env = record env { send = λ _. pos 1 }

abbrev saying_goodbye : World
saying_goodbye = record fresh.world {
  session = record (new_session false) { write_buffer = goodbye_buffer };
  env = slow_env;
}

write_status-Sends_example :
    Sends State.ehlo_write State.done saying_goodbye
      (pos 1)
      (write_status State.ehlo_write State.done saying_goodbye)
write_status-Sends_example =
    write_status-Sends State.ehlo_write State.done saying_goodbye goodbye_buffer-IsValid
      (omega arith)

write_events-whole_example :
    (w' : World) × (write_events 9 State.ehlo_write State.done saying_goodbye ≡ ok (State.done, w'))
    × (w'.sent ≡ goodbye)
    × (pending w' ≡ [])
    × (w'.interest ≡ op_read)
write_events-whole_example =
    write_events-whole slow_env (λ bytes some. (omega arith, not_empty bytes some)) refl
      State.ehlo_write State.done 9 saying_goodbye refl goodbye_buffer-IsValid (λ e. cc)
      (omega arith)

-- A client that says more than there is room for: `recv` is not to do that.
abbrev flood : Env
flood = record env { recv = λ room. (pos (room + 1), replicate (room + 1) 0) }

deliver-Ends_example :
    ((c' : Connection) × (deliver true (renewed greeted flood counted) ≡ ok c'))
    ⊎ ((f : Fault) × (deliver true (renewed greeted flood counted) ≡ err f)
        × Fails true flood greeted f)
deliver-Ends_example = deliver-Ends true greeted flood counted greeted-Reached refl
