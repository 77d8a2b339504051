-- ===== src/Smtp.antt =====
-- smtpnio.c: the states of an SMTP session, what a session and the server keep, and what the
-- handlers see of their environment. The handlers are in the modules below.
pub mod Io
pub mod Process
pub mod Handlers
pub mod Connection
pub mod Flow
pub mod Total
pub mod Text
mod Tests
use tpe_protos.Base.{ℕ, Bool, true, false, Option, List, [], ℤ, codes, replicate}
use tpe_protos.Buffer.{Buffer}
use tpe_protos.Request
use tpe_protos.Data
use tpe_protos.RcptList.{Node}

-- `enum smtp_state`
pub data State : Type 0 where
  greeting_write failed_connection_read failed_connection_write ehlo_read ehlo_write : State
  mail_from_read mail_from_write rcpt_to_read rcpt_to_write data_read data_write : State
  mail_info_read mail_info_write done error : State

abbrev pub code : State → ℕ
code greeting_write = 0
code failed_connection_read = 1
code failed_connection_write = 2
code ehlo_read = 3
code ehlo_write = 4
code mail_from_read = 5
code mail_from_write = 6
code rcpt_to_read = 7
code rcpt_to_write = 8
code data_read = 9
code data_write = 10
code mail_info_read = 11
code mail_info_write = 12
code done = 13
code error = 14

-- What a descriptor is watched for: `OP_READ`, `OP_WRITE`.
pub data Interest : Type 0 where
  op_read op_write : Interest

-- `struct smtp` without its state machine, its address and `file_buffer`, which is never used.
pub record Session : Type 0 where
  pub request_parser : Request.Parser
  pub data_parser : Data.Parser
  pub read_buffer : Buffer
  pub write_buffer : Buffer
  pub transformation : Bool
  pub mailfrom : List ℕ
  pub rcpt_list : List Node

-- The variables of the server.
pub record Server : Type 0 where
  pub historic_users : ℤ
  pub current_users : ℤ
  pub transferred_bytes : ℤ
  pub mails_sent : ℤ
  pub transformations : Bool
  pub program : Option (List ℕ)
  pub max_user : ℤ

-- The calls of the functions of rcpt_to_list.c that work on files.
pub data FileCall : Type 0 where
  create_mails_files : List Node → List ℕ → Option (List ℕ) → Bool → FileCall
  write_to_files : List Node → List ℕ → FileCall
  close_fds : List Node → FileCall

-- The answers of the system to the calls of one handler: what `recv` returns and stores, given the
-- room; what `send` returns, given the bytes; whether the selector accepts an interest; whether
-- `malloc` succeeds; whether a call on files returns, which else ends the process.
pub record Env : Type 0 where
  pub recv : ℕ → ℤ × List ℕ
  pub send : List ℕ → ℤ
  pub accepts : Interest → Bool
  pub allocated : Bool
  pub files : FileCall → Bool

-- What a handler can see and change: the session, the variables of the server, the interest in the
-- session's descriptor, the bytes sent to it and the calls on files so far, and the environment.
pub record World : Type 0 where
  pub session : Session
  pub server : Server
  pub interest : Interest
  pub sent : List ℕ
  pub calls : List FileCall
  pub env : Env

-- `get_current_status`, `set_new_status`, `set_max_users` and the other accessors.
unfoldable pub get_historic_users : Server → ℤ
get_historic_users s = s.historic_users

unfoldable pub get_current_users : Server → ℤ
get_current_users s = s.current_users

unfoldable pub get_current_bytes : Server → ℤ
get_current_bytes s = s.transferred_bytes

unfoldable pub get_current_mails : Server → ℤ
get_current_mails s = s.mails_sent

unfoldable pub get_current_status : Server → Bool
get_current_status s = s.transformations

unfoldable pub set_new_status : Bool → Server → Server
set_new_status status s = record s { transformations = status }

unfoldable pub set_max_users : ℤ → Server → Server
set_max_users n s = record s { max_user = n }

unfoldable pub get_cant_max_users : Server → ℤ
get_cant_max_users s = s.max_user
