-- ===== src/Udp/Handler.antt =====
-- udpserver.c: what one datagram does to the clients and the server.
use tpe_protos.Base.{
  ℕ, Bool, Option, none, some, List, [], ◌∷◌, ◌++◌, Result, ok, err, out_of_bounds, ◌>>=◌, length,
  take,
}
use tpe_protos.Smtp.{Server}
use tpe_protos.Udp.{
  ClientState, init, wait_username, wait_password, auth_success, auth_failed, Client, find_client,
  add_client, set_state, before, ask_username, handle_authentication,
}
use tpe_protos.Udp.Commands.{help, answer}

-- The clients, the variables of the server, and the datagrams sent so far, each with the address it
-- goes to.
pub record Service : Type 0 where
  pub clients : List Client
  pub server : Server
  pub sent : List (List ℕ × List ℕ)

-- `sendto`
abbrev pub send : List ℕ → List ℕ → Service → Service
send addr text s = record s { sent = s.sent ++ ((addr, text) ∷ []) }

abbrev pub send_all : List ℕ → List (List ℕ) → Service → Service
send_all addr [] s = s
send_all addr (text ∷ texts) s = send_all addr texts (send addr text s)

abbrev pub enter : List ℕ → ClientState → Service → Service
enter addr state s = record s { clients = set_state addr state s.clients }

-- The help that follows a login.
abbrev pub welcome : ClientState → List (List ℕ)
welcome auth_success = help ∷ []
welcome _ = []

abbrev pub log_in : ClientState → List ℕ → List ℕ → Service → Service
log_in state addr received s =
    let (next, texts) = handle_authentication state (before 0 received) (length received) in
    send_all addr (texts ++ welcome next) (enter addr next s)

-- The part of the handler that depends on the state of the client. A datagram of `received` is a
-- string up to its first zero.
unfoldable pub serve : ClientState → List ℕ → List ℕ → Service → Result Service
serve init addr received s = ok (send addr ask_username (enter addr wait_username s))
serve wait_username addr received s = ok (log_in wait_username addr received s)
serve wait_password addr received s = ok (log_in wait_password addr received s)
serve auth_success addr received s =
    answer (before 0 received) s.server >>= λ r. ok (send addr r.0 (record s { server = r.1 }))
serve auth_failed addr received s = ok s

-- A client that is not found behind `add_client` is a null pointer.
abbrev pub serve_client : Option Client → List ℕ → List ℕ → Service → Result Service
serve_client none addr received s = err out_of_bounds
serve_client (some c) addr received s = serve c.state addr received s

abbrev pub known : Option Client → Bool → List ℕ → List Client → List Client
known none allocated addr clients = add_client allocated addr clients
known (some c) allocated addr clients = clients

-- `udp_read_handler`: `datagram` is what `recvfrom` gives, an address and bytes, of which at most
-- 1023 are received, or a failure; `allocated` is whether `malloc` succeeds.
unfoldable pub udp_read_handler : Bool → Option (List ℕ × List ℕ) → Service → Result Service
unfolding serve
udp_read_handler allocated none s = ok s
udp_read_handler allocated (some (addr, bytes)) s =
    let clients = known (find_client addr s.clients) allocated addr s.clients in
    serve_client (find_client addr clients) addr (take 1023 bytes) (record s { clients = clients })
