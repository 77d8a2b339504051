-- ===== src/Request/Consume.antt =====
-- `request_consume`, `request_is_done` and `request_close` of request.c: the loop that feeds the
-- parser from a buffer.
pub mod Refine
use tpe_protos.Base.{
  ℕ, zero, suc, ◌-◌, Bool, true, false, Option, none, some, Result, ok, err, out_of_fuel, ◌>>=◌,
  if◌then◌else◌,
}
use tpe_protos.Buffer
use tpe_protos.Buffer.{Buffer}
use tpe_protos.Request.{State, done, error, Parser}
use tpe_protos.Request.Feed.{feed}

-- `st >= request_error`: `request_error` is the last state.
abbrev pub is_error : State → Bool
is_error error = true
is_error _ = false

abbrev pub is_done_state : State → Bool
is_done_state done = true
is_done_state _ = false

-- `errored` is a pointer that may be null (`none`).
abbrev pub mark_error : State → Option Bool → Option Bool
mark_error st none = none
mark_error st (some e) = some (if is_error st then true else e)

-- The result, and what is behind `errored` afterwards.
unfoldable pub is_done : State → Option Bool → Bool × Option Bool
is_done st errored = (is_done_state st, mark_error st errored)

-- What a call of `request_consume` returns and leaves behind its pointers.
pub record Outcome : Type 0 where
  pub st : State
  pub b : Buffer
  pub p : Parser
  pub errored : Option Bool

-- The `while` loop, on fuel.
unfoldable pub consume_loop : ℕ → State → Buffer → Parser → Option Bool → Result Outcome
unfolding is_done
consume_loop zero st b p errored =
    if Buffer.can_read b
    then err out_of_fuel
    else ok (record { st = st; b = b; p = p; errored = errored })
consume_loop (suc n) st b p errored =
    let round = Buffer.read b >>= λ r. feed p r.0 >>= λ p'.
    let (stop, errored') = is_done p'.state errored in
    let more = consume_loop n p'.state r.1 p' errored' in
    if stop then ok (record { st = p'.state; b = r.1; p = p'; errored = errored' }) else more in
    if Buffer.can_read b then round else ok (record { st = st; b = b; p = p; errored = errored })

-- `request_consume`. Each round reads a byte, so as many rounds as bytes are enough.
unfoldable pub consume : Buffer → Parser → Option Bool → Result Outcome
unfolding consume_loop
consume b p errored = consume_loop (b.write_at - b.read_at) p.state b p errored

-- `request_close` does nothing.
unfoldable pub close : Parser → Parser
close p = p
