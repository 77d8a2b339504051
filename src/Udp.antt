-- ===== src/Udp.antt =====
-- udpserver.c and udpserver.h: the supervision service over datagrams. A client is its address and
-- the state of its login.
pub mod Commands
pub mod Handler
pub mod Words
pub mod Clients
pub mod Answers
pub mod Login
pub mod Guarded
pub mod Returns
pub mod Short
mod Tests
use tpe_protos.Base.{
  ℕ, ◌+◌, Bool, true, false, ◌&&◌, Option, none, some, List, [], ◌∷◌, ◌++◌, codes, same_text,
  same_nocase_n, length, ◌==◌, if◌then◌else◌,
}

-- `enum client_state`
pub data ClientState : Type 0 where
  init wait_username wait_password auth_success auth_failed : ClientState

-- `client_t`: the bytes of its address, as many as `client_addr_len` says, and its state.
pub record Client : Type 0 where
  pub addr : List ℕ
  pub state : ClientState

unfoldable pub find_client : List ℕ → List Client → Option Client
find_client addr [] = none
find_client addr (c ∷ clients) = if same_text c.addr addr then some c else find_client addr clients

-- `allocated` is whether `malloc` succeeds; if not, nothing is added.
unfoldable pub add_client : Bool → List ℕ → List Client → List Client
add_client true addr clients = record { addr = addr; state = init } ∷ clients
add_client false addr clients = clients

-- A write to the state of the client that `find_client` points to.
unfoldable pub set_state : List ℕ → ClientState → List Client → List Client
set_state addr state [] = []
set_state addr state (c ∷ clients) =
    if same_text c.addr addr
    then record c { state = state } ∷ clients
    else c ∷ set_state addr state clients

-- The bytes in front of the first `stop`: with a zero the string in a buffer, with a line feed what
-- `buffer[strcspn(buffer, "\n")] = '\0'` leaves of it.
abbrev pub before : ℕ → List ℕ → List ℕ
before stop [] = []
before stop (c ∷ s) = if c == stop then [] else c ∷ before stop s

abbrev pub user : List ℕ
user = codes "user"

-- The texts of the login; the letter ñ is two bytes in UTF-8.
abbrev pub ask_username : List ℕ
ask_username = codes "Ingrese usuario: "

abbrev pub ask_password : List ℕ
ask_password = codes "Ingrese contrase" ++ (195 ∷ 177 ∷ codes "a: ")

abbrev pub unknown_user : List ℕ
unknown_user = codes "Usuario inexistente. Ingrese usuario: "

abbrev pub granted : List ℕ
granted = codes "Acceso concedido. Puede escribir los comandos.\n"

abbrev pub wrong_password : List ℕ
wrong_password = 67 ∷ codes "ontrase" ++ (195 ∷ 177 ∷ codes "a incorrecta. Ingrese usuario: ")

-- `handle_authentication` for a datagram of `received` bytes whose string is `text`: the state of
-- the client, and the answers.
unfoldable pub handle_authentication : ClientState → List ℕ → ℕ → ClientState × List (List ℕ)
handle_authentication wait_username text received =
    if same_nocase_n (before b'\n' text) user received
    then (wait_password, ask_password ∷ [])
    else (wait_username, unknown_user ∷ [])
handle_authentication wait_password text received =
    if same_nocase_n (before b'\n' text) user received
    then (auth_success, granted ∷ [])
    else (wait_username, wrong_password ∷ [])
handle_authentication state text received = (state, [])
