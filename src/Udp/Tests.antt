-- ===== src/Udp/Tests.antt =====
-- Witnesses for the supervision service of udpserver.c.
use tpe_protos.Base.{
  ℕ, pos, true, false, none, some, List, [], ◌∷◌, ◌≡◌, refl, arith, ok, Holds, codes, take,
}
use tpe_protos.Smtp.{Server}
use tpe_protos.Udp.{auth_success, before, find_client}
use tpe_protos.Udp.Handler.{Service, udp_read_handler}
use tpe_protos.Udp.Answers.{is_command}
use tpe_protos.Udp.Commands.{which}
use tpe_protos.Udp.Clients.{state_of}
use tpe_protos.Udp.Login.{Serves, udp_read_handler-Serves}
use tpe_protos.Udp.Guarded.{run, follow, run-follow}
use tpe_protos.Udp.Short.{run-start}
use tpe_protos.Udp.Words.{uint64_to_big_endian, from_big_endian}

abbrev server : Server
server = record {
  historic_users = pos 7;
  current_users = pos 2;
  transferred_bytes = pos 1200;
  mails_sent = pos 3;
  transformations = false;
  program = none;
  max_user = pos 500;
}

abbrev alice : List ℕ
alice = 1 ∷ 2 ∷ []

abbrev bob : List ℕ
bob = 1 ∷ 3 ∷ []

abbrev fresh : Service
fresh = record { clients = []; server = server; sent = [] }

-- A client that has logged in.
abbrev logged_in : Service
logged_in = record {
  clients = record { addr = alice; state = auth_success } ∷ [];
  server = server;
  sent = [];
}

abbrev mixed : List (List ℕ × List ℕ)
mixed =
    (alice, codes "hi\n")
    ∷ (bob, codes "hi\n")
    ∷ (alice, codes "user\n")
    ∷ (bob, codes "no\n")
    ∷ (alice, codes "User\n")
    ∷ []

udp_read_handler-Serves_example :
    Holds
      (Serves alice (take 1023 (codes "TRANSON\n")) logged_in)
      (udp_read_handler true (some (alice, codes "TRANSON\n")) logged_in)
udp_read_handler-Serves_example = udp_read_handler-Serves alice (codes "TRANSON\n") logged_in

run-follow_example :
    Holds
      (λ s'. state_of alice s'.clients ≡ follow alice (state_of alice fresh.clients) mixed)
      (run mixed fresh)
run-follow_example = run-follow alice mixed fresh

-- So alice logs in, whatever bob sends.
follows : follow alice none mixed ≡ some auth_success
follows = refl

is_no_command : is_command (before 0 (take 1023 (codes "max 5\n"))) ≡ false
unfolding which
is_no_command = refl

bob_unknown : state_of bob logged_in.clients ≡ none
unfolding find_client
bob_unknown = refl

run-start_example :
    (s' : Service) × (run ((bob, codes "hi\n") ∷ (bob, []) ∷ (bob, codes "US") ∷ []) logged_in
      ≡ ok s')
    × (state_of bob s'.clients ≡ some auth_success)
run-start_example =
    run-start bob (codes "hi\n") [] (codes "US") logged_in bob_unknown (omega arith, refl)
      (omega arith, refl)

from_big_endian-million : from_big_endian 0 (uint64_to_big_endian 1000000) ≡ 1000000
unfolding uint64_to_big_endian
from_big_endian-million = refl
