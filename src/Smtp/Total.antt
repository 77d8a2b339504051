-- ===== src/Smtp/Total.antt =====
-- How an event of a session of smtpnio.c ends: what a session needs for its next event, and what can
-- make an event fault.
pub mod Parts
pub mod Bodies
pub mod Handlers
pub mod Turn
pub mod Protocol
use tpe_protos.Base.{
  ℕ, ◌+◌, ◌-◌, ◌<◌, Bool, true, false, List, ◌≡◌, ◌⊎◌, some, ok, err, length, pos_part, c_string,
  assert_failed, aborted, out_of_bounds, if◌then◌else◌,
}
use tpe_protos.Base.Fault.{Fault}
use tpe_protos.Buffer
use tpe_protos.Buffer.{Buffer}
use tpe_protos.Buffer.Valid.{IsValid, contents}
use tpe_protos.Request.Consume.Refine.{run, Stop}
use tpe_protos.Smtp.{State, Session, FileCall, Env, World}
use tpe_protos.Smtp.Io.{stored}
use tpe_protos.Smtp.Handlers.{rcpt_to_next}

-- The environment is `env`, the buffers are valid and have the size of their arrays, and so have the
-- other arrays.
pub record Sized (env now : Env) (b out content : Buffer) (name mailfrom : List ℕ) : Type 0 where
  pub same_env : now ≡ env
  pub read : IsValid b
  pub write : IsValid out
  pub limit : out.limit ≡ 2048
  pub text : IsValid content
  pub text_limit : content.limit ≡ 2048
  pub arg : length name ≡ 32
  pub from : length mailfrom ≡ 255

abbrev pub Whole : Env → World → Type 0
Whole env w =
    let x = w.session in
    Sized env w.env x.read_buffer x.write_buffer x.data_parser.data_buffer
      x.request_parser.request.arg x.mailfrom

-- Nothing is left of the answer before.
abbrev pub IsFresh : Session → Type 0
IsFresh x = x.write_buffer.write_at ≡ 0

-- What the state needs besides: a state that reads begins its answer at the start of the write
-- buffer, and the argument that is read again behind the answer to RCPT TO is a string.
abbrev pub Ready : State → Session → Type 0
Ready State.failed_connection_read x = IsFresh x
Ready State.ehlo_read x = IsFresh x
Ready State.mail_from_read x = IsFresh x
Ready State.rcpt_to_read x = IsFresh x
Ready State.data_read x = IsFresh x
Ready State.mail_info_read x = IsFresh x
Ready State.rcpt_to_write x =
    (next : State) × (rcpt_to_next x.request_parser.command x.request_parser.request.arg ≡ ok next)
Ready _ x = Unit {0}

abbrev pub Fit : Env → State → World → Type 0
Fit env s w = Whole env w × Ready s w.session

-- The read buffer when `recv` has stored its bytes.
abbrev pub filled : Env → Buffer → Buffer
filled env b =
    let r = env.recv (b.limit - b.write_at) in
    record (stored b b.write_at r.1) { write_at = b.write_at + pos_part r.0 }

-- The bytes that a handler which reads works on.
abbrev pub available : Env → Session → List ℕ
available env x =
    contents (if Buffer.can_read x.read_buffer then x.read_buffer else filled env x.read_buffer)

-- The line that is read is too long: the parser writes past an array, or the argument has no end in
-- its array and is read past it.
abbrev pub Breaks : Env → Session → Type 0
Breaks env x =
    (run (available env x) x.request_parser (some false) ≡ err out_of_bounds)
    ⊎ ((s : Stop) × (run (available env x) x.request_parser (some false) ≡ ok s)
        × (c_string s.p.request.arg ≡ err out_of_bounds))

-- What makes an event of the session `x` fault in the environment `env`: `recv` or `send` returns
-- more than it was given, the greeting has been put behind itself up to the end of the write
-- buffer, there is no memory, a call on files ends the process, or the line is too long.
pub data Cause (env : Env) (x : Session) : Fault → Type 0 where
  recv_past :
      x.read_buffer.limit - x.read_buffer.write_at
        < pos_part (env.recv (x.read_buffer.limit - x.read_buffer.write_at)).0
      → Cause env x assert_failed
  send_past :
      (bytes : List ℕ) → length bytes < pos_part (env.send bytes) → Cause env x assert_failed
  refilled : 2048 < x.write_buffer.write_at + 61 → Cause env x assert_failed
  no_memory : env.allocated ≡ false → Cause env x aborted
  files_ended : (c : FileCall) → env.files c ≡ false → Cause env x aborted
  too_long : Breaks env x → Cause env x out_of_bounds
