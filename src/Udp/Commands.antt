-- ===== src/Udp/Commands.antt =====
-- udpserver.c: the commands of a client that has logged in, and their answers.
use tpe_protos.Base.{
  ℕ, ℤ, pos, negsuc, Bool, true, false, ◌&&◌, Option, none, some, List, [], ◌∷◌, ◌++◌, Result, ok,
  err, uninitialized, overflow, ◌>>=◌, codes, same_nocase, same_letter, take, drop, decimal_ℤ,
  is_digit, read_digits, ltb, ◌^◌, if◌then◌else◌, ◌==◌,
}
use tpe_protos.Smtp.{
  Server, get_historic_users, get_current_users, get_current_bytes, get_current_mails,
  get_current_status, set_new_status, set_max_users, get_cant_max_users,
}
use tpe_protos.Udp.{before}

abbrev pub help_lines : List ℕ
help_lines =
    codes "HELP\n - Ingrese 'historico' para obtener el historico de usuarios conectados\n"
    ++ (codes " - Ingrese 'actual' para obtener los usuarios conectados ahora\n"
        ++ (codes " - Ingrese 'mail' para obtener la cantidad de mails enviados\n"
            ++ (codes " - Ingrese 'bytes' para obtener la cantidad de bytes transferidos\n"
                ++ (codes " - Ingrese 'status' para ver el estado de las transformaciones\n"
                    ++ (codes " - Ingrese 'transon' para activar las transformaciones\n"
                        ++ (codes " - Ingrese 'transoff' para desactivar las transformaciones\n"
                            ++ codes
                                " - Ingrese 'cant' para obtener la maxima cantidad de usuarios\n"))))))

-- `help`
unfoldable pub help : List ℕ
help = help_lines

-- `snprintf` to `rta`, an array of 1024 bytes.
abbrev pub print : List ℕ → List ℕ
print text = take 1023 text

abbrev pub is_number : List ℕ → Bool
is_number [] = true
is_number (c ∷ s) = is_digit c && is_number s

-- `atoi` of digits: what an int of 32 bits cannot hold is undefined.
abbrev pub atoi : List ℕ → Result ℤ
atoi s = let n = (read_digits 0 s).0 in if ltb n (2 ^ 31) then ok (pos n) else err overflow

abbrev pub invalid_argument : List ℕ
invalid_argument = print (codes "Error: Argumento inv" ++ (195 ∷ 161 ∷ codes "lido\n\n"))

-- The letters ú and á are two bytes each in UTF-8.
abbrev pub new_max : List ℕ → List ℕ
new_max digits = print (
    codes "Nuevo n"
    ++ (195 ∷ 186 ∷ codes "mero m"
        ++ (195 ∷ 161 ∷ codes "ximo de usuarios: " ++ (digits ++ codes "\n\n"))))

abbrev pub is_max : List ℕ → Bool
is_max (m ∷ a ∷ x ∷ blank ∷ s) =
    same_letter m b'm' && same_letter a b'a' && same_letter x b'x' && (blank == b' ')
is_max _ = false

abbrev pub set_max : Server → ℤ → List ℕ × Server
set_max server (pos n) = (new_max (decimal_ℤ (pos n)), set_max_users (pos n) server)
set_max server (negsuc n) = (invalid_argument, server)

-- What stands in the branch of help.
unfoldable pub max_command : List ℕ → Server → Result (List ℕ × Server)
max_command text server =
    let number = before b'\n' (drop 4 text) in
    if is_max text
    then if is_number number
      then (atoi number >>= λ n. ok (set_max server n))
      else ok (invalid_argument, server)
    else ok (print (codes "Comando no reconocido\n " ++ help), server)

abbrev pub amount : List ℕ → ℤ → List ℕ
amount label n = print (label ++ (decimal_ℤ n ++ codes "\n\n"))

abbrev pub status_text : Bool → List ℕ
status_text true = codes "Las transformaciones estan activadas\n\n"
status_text false = codes "Las transformaciones estan desactivadas\n\n"

-- The commands in front of help.
pub data Command : Type 0 where
  historico actual bytes mail cant status transon transoff : Command

-- The tests of the text for these commands, in their order.
unfoldable pub which : List ℕ → Option Command
which text =
    if same_nocase text (codes "historico\n")
    then some historico
    else if same_nocase text (codes "actual\n")
    then some actual
    else if same_nocase text (codes "bytes\n")
    then some bytes
    else if same_nocase text (codes "mail\n")
    then some mail
    else if same_nocase text (codes "cant\n")
    then some cant
    else if same_nocase text (codes "status\n")
    then some status
    else if same_nocase text (codes "transon\n")
    then some transon
    else if same_nocase text (codes "transoff\n")
    then some transoff
    else none

-- What a command does: the answer, with the server behind it.
unfoldable pub execute : Command → Server → List ℕ × Server
unfolding set_new_status
execute historico server =
    (amount (codes "Cantidad historica ") (get_historic_users server), server)
execute actual server = (amount (codes "Cantidad actual ") (get_current_users server), server)
execute bytes server = (amount (codes "Bytes transferidos ") (get_current_bytes server), server)
execute mail server = (amount (codes "Mails enviados ") (get_current_mails server), server)
execute cant server =
    (amount (codes "Cantidad maxima de usuarios ") (get_cant_max_users server), server)
execute status server = (status_text (get_current_status server), server)
execute transon server = (codes "Transformaciones activadas\n\n", set_new_status true server)
execute transoff server = (codes "Transformaciones desactivadas\n\n", set_new_status false server)

-- The last test is for help; what no branch has written to `rta` is read by `strlen`.
abbrev pub answer_to : Option Command → List ℕ → Server → Result (List ℕ × Server)
answer_to (some c) text server = ok (execute c server)
answer_to none text server =
    if same_nocase text (codes "help\n") then max_command text server else err uninitialized

unfoldable pub answer : List ℕ → Server → Result (List ℕ × Server)
answer text server = answer_to (which text) text server
