-- ===== src/Smtp/Io.antt =====
-- The parts of the handlers of smtpnio.c that read, write and answer.
use tpe_protos.Base.{
  ℕ, zero, suc, ◌+◌, Bool, true, false, none, some, List, [], ◌∷◌, ◌++◌, ℤ, pos, negsuc, ◌+ℤ◌,
  Result, ok, ◌>>=◌, if◌then◌else◌, length, take, drop, codes, string_copy, same_text, ◌==◌,
}
use tpe_protos.Buffer
use tpe_protos.Buffer.{Buffer}
use tpe_protos.Request.{init}
use tpe_protos.Request.Consume.{consume, is_done}
use tpe_protos.Smtp.{State, done, error, Interest, op_read, op_write, World}

-- `DOMAIN`
abbrev pub domain : List ℕ
domain = codes "@smtpd.com"

-- `strchr(email, '@')`, or the empty text for a null pointer.
abbrev pub from_at : List ℕ → List ℕ
from_at [] = []
from_at (c ∷ s) = if c == b'@' then c ∷ s else from_at s

unfoldable pub check_email_domain : List ℕ → Bool
check_email_domain email = same_text (from_at email) domain

-- `selector_set_interest_key`
unfoldable pub set_interest : Interest → World → Bool × World
set_interest i w = if w.env.accepts i then (true, record w { interest = i }) else (false, w)

-- The state to go to when the interest has been changed, or the error state.
abbrev pub interest_state : Bool × World → State → State × World
interest_state (true, w) next = (next, w)
interest_state (false, w) next = (error, w)

abbrev pub with_write_buffer : World → Buffer → World
with_write_buffer w b = record w { session = record w.session { write_buffer = b } }

-- What `write_status` does with the number that `send` returns for the bytes `out`.
unfoldable pub sent_some : State → State → List ℕ → World → ℤ → Result (State × World)
unfolding set_interest
sent_some current next out w (pos (suc k)) =
    Buffer.read_adv w.session.write_buffer (pos (suc k)) >>= λ b.
    let w' = record (with_write_buffer w b) { sent = w.sent ++ take (suc k) out } in
    if Buffer.can_read b
    then ok (current, w')
    else ok (interest_state (set_interest op_read w') next)
sent_some current next out w (pos zero) = ok (error, w)
sent_some current next out w (negsuc n) = ok (error, w)

unfoldable pub write_status : State → State → World → Result (State × World)
unfolding sent_some
write_status current next w = Buffer.read_ptr w.session.write_buffer >>= λ p.
    let out = take p.1 (drop p.0 w.session.write_buffer.bytes) in
    sent_some current next out w (w.env.send out)

-- The bytes that `recv` stores behind the write pointer.
abbrev pub stored : Buffer → ℕ → List ℕ → Buffer
stored b at bytes = record b {
  bytes = take at b.bytes ++ (bytes ++ drop (at + length bytes) b.bytes);
}

abbrev pub count_bytes : World → ℤ → World
count_bytes w n = record w {
  server = record w.server { transferred_bytes = w.server.transferred_bytes +ℤ n };
}

-- What `read_status` does with the number that `recv` returns.
unfoldable pub received :
    State → (World → Result (State × World)) → World → ℕ → ℤ × List ℕ → Result (State × World)
received current process w at (pos (suc k), bytes) =
    Buffer.write_adv (stored w.session.read_buffer at bytes) (pos (suc k)) >>= λ b.
    let w' = count_bytes w (pos (suc k)) in
    process (record w' { session = record w'.session { read_buffer = b } })
received current process w at (n, bytes) = ok (error, count_bytes w n)

unfoldable pub read_status :
    State → (World → Result (State × World)) → World → Result (State × World)
unfolding received
read_status current process w =
    let fresh = Buffer.write_ptr w.session.read_buffer >>= λ p.
    received current process w p.0 (w.env.recv p.1) in
    if Buffer.can_read w.session.read_buffer then process w else fresh

-- `strcpy` or `sprintf` to the write pointer, and `buffer_write_adv` by `n`.
unfoldable pub reply : List ℕ → ℕ → World → Result World
reply text n w = Buffer.write_ptr w.session.write_buffer >>= λ p.
    string_copy w.session.write_buffer.bytes p.0 text >>= λ memory.
    Buffer.write_adv (record w.session.write_buffer { bytes = memory }) (pos n) >>= λ b.
    ok (with_write_buffer w b)

-- `request_consume` on the read buffer and the parser of the session, and `request_is_done`.
unfoldable pub consume_request : World → Result (Bool × World)
consume_request w = consume w.session.read_buffer w.session.request_parser (some false) >>= λ o.
    ok (
      (is_done o.st none).0,
      record w { session = record w.session { read_buffer = o.b; request_parser = o.p } },
    )

-- The frame of the read handlers: a command that is not complete leaves the state; a complete one
-- is answered by `body` once the interest is changed to writing.
unfoldable pub answer : State → (World → Result (State × World)) → World → Result (State × World)
unfolding consume_request set_interest
answer stay body w = consume_request w >>= λ r.
    if r.0
    then (let x = set_interest op_write r.1 in if x.0 then body x.1 else ok (error, x.1))
    else ok (stay, r.1)

-- The answer to QUIT; what `write_status` returns is not used.
unfoldable pub bye : State → World → Result (State × World)
unfolding reply write_status
bye stay w =
    reply (codes "221 Bye\r\n") 9 w >>= λ w1. write_status stay done w1 >>= λ r. ok (done, r.1)

-- `request_read_init`
unfoldable pub request_read_init : ℕ → World → Result World
request_read_init state w = ok (record w { session = record w.session { request_parser = init } })
