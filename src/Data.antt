-- ===== src/Data.antt =====
-- data.c and data.h: the parser that copies the text of a mail into a buffer, up to the line that
-- holds a single dot.
pub mod Refine
pub mod Lossless
pub mod Pointers
pub mod Body
mod Tests
use tpe_protos.Base.{
  ℕ, zero, suc, ◌-◌, Bool, true, false, List, [], ◌∷◌, Result, ok, err, out_of_fuel, ◌>>=◌, ◌==◌,
  if◌then◌else◌,
}
use tpe_protos.Buffer
use tpe_protos.Buffer.{Buffer}

pub data State : Type 0 where
  data_ cr crlf crlfdot crlfdotcr done : State

-- `struct data_parser`. Its array `raw_data_buffer` is the memory behind `data_buffer`.
pub record Parser : Type 0 where
  pub data_buffer : Buffer
  pub state : State

abbrev pub raw_size : ℕ
raw_size = 2048

-- `raw` is what the array `raw_data_buffer` of 2048 bytes holds.
unfoldable pub init : List ℕ → Parser
unfolding Buffer.init
init raw = record { data_buffer = Buffer.init raw_size raw; state = data_ }

-- Calls of `buffer_write` for these bytes, in this order.
unfoldable pub write_each : List ℕ → Buffer → Result Buffer
write_each [] b = ok b
write_each (c ∷ cs) b = Buffer.write b c >>= λ b'. write_each cs b'

-- `buffer_write(…); …; next = s`
unfoldable pub emit : State → List ℕ → Parser → Result Parser
unfolding write_each
emit s cs p = write_each cs p.data_buffer >>= λ b. ok (record { data_buffer = b; state = s })

-- `data_parser_feed`. The value that it returns is the state that it leaves in the parser.
unfoldable pub feed_in : State → Parser → ℕ → Result Parser
unfolding emit
feed_in data_ p c = if c == b'\r' then ok (record p { state = cr }) else emit data_ (c ∷ []) p
feed_in cr p c =
    if c == b'\n' then ok (record p { state = crlf }) else emit data_ (b'\r' ∷ c ∷ []) p
feed_in crlf p c =
    if c == b'.' then ok (record p { state = crlfdot }) else emit data_ (b'\r' ∷ b'\n' ∷ c ∷ []) p
feed_in crlfdot p c =
    if c == b'\r'
    then ok (record p { state = crlfdotcr })
    else emit data_ (b'\r' ∷ b'\n' ∷ b'.' ∷ c ∷ []) p
feed_in crlfdotcr p c =
    if c == b'\n'
    then ok (record p { state = done })
    else emit data_ (b'\r' ∷ b'\n' ∷ b'.' ∷ b'\r' ∷ c ∷ []) p
feed_in done p c = ok (record p { state = done })

unfoldable pub feed : Parser → ℕ → Result Parser
unfolding feed_in
feed p c = feed_in p.state p c

-- `st >= data_done`: `data_done` is the last state.
abbrev pub is_done : State → Bool
is_done done = true
is_done _ = false

-- What a call of `data_consume` returns and leaves behind its pointers.
pub record Outcome : Type 0 where
  pub st : State
  pub b : Buffer
  pub p : Parser

-- The `while` loop, on fuel.
unfoldable pub consume_loop : ℕ → State → Buffer → Parser → Result Outcome
consume_loop zero st b p =
    if Buffer.can_read b then err out_of_fuel else ok (record { st = st; b = b; p = p })
consume_loop (suc n) st b p =
    let round = Buffer.read b >>= λ r. feed p r.0 >>= λ p'.
    let more = consume_loop n p'.state r.1 p' in
    if is_done p'.state then ok (record { st = p'.state; b = r.1; p = p' }) else more in
    if Buffer.can_read b then round else ok (record { st = st; b = b; p = p })

-- `data_consume`. Each round reads a byte, so as many rounds as bytes are enough.
unfoldable pub consume : Buffer → Parser → Result Outcome
unfolding consume_loop
consume b p = consume_loop (b.write_at - b.read_at) p.state b p

-- `data_close` does nothing.
unfoldable pub close : Parser → Parser
close p = p
