-- ===== src/Netutils.antt =====
-- netutils.c: bytes that are written and copied until all are sent. What send(2) returns is a function
-- of the number of the call and of the bytes; `errno` one of the number of the call.
pub mod Write
pub mod Copy
pub mod Human
pub mod Printed
mod Tests
use tpe_protos.Base.{
  ℕ, zero, suc, ◌+◌, ℤ, pos, pos_part, Bool, Option, none, some, List, [], ◌∷◌, ◌++◌, Result, ok,
  err, out_of_fuel, ◌>>=◌, ◌==◌, if◌then◌else◌, length, take, drop,
}
use tpe_protos.Buffer.{Buffer, read_ptr, read_adv, can_read}

module _ (send : ℕ → List ℕ → ℤ) (errno : ℕ → ℕ) where
  -- The loop of `sock_blocking_write`, with the rounds left, the number of the call and what has been
  -- sent: the return value, the buffer and what has been sent.
  unfoldable pub write_loop : ℕ → ℕ → Buffer → List ℕ → Result (ℕ × Buffer × List ℕ)
  write_loop zero i b sent = err out_of_fuel
  write_loop (suc n) i b sent = read_ptr b >>= λ p.
      let bytes = take p.1 (drop p.0 b.bytes) in
      let nwritten = pos_part (send i bytes) in
      let more = read_adv b (pos nwritten) >>= λ b'.
      let sent' = sent ++ take nwritten bytes in
      let rest = write_loop n (i + 1) b' sent' in if can_read b' then rest else ok (0, b', sent') in
      if nwritten == 0 then ok (errno i, b, sent) else more

  -- `sock_blocking_write`, on `n` rounds.
  unfoldable pub sock_blocking_write : ℕ → Buffer → Result (ℕ × Buffer × List ℕ)
  sock_blocking_write n b = write_loop n 0 b []

  -- The inner loop of `sock_blocking_copy`, with the rounds left, the number of the call, the bytes at
  -- `out_ptr` and what has been sent: an error number, the number of the next call and what has been sent.
  unfoldable pub send_chunk : ℕ → ℕ → List ℕ → List ℕ → Result (Option ℕ × ℕ × List ℕ)
  send_chunk zero i bytes sent = err out_of_fuel
  send_chunk (suc n) i bytes sent =
      let nwritten = pos_part (send i bytes) in
      let left = drop nwritten bytes in
      let sent' = sent ++ take nwritten bytes in
      let rest = send_chunk n (i + 1) left sent' in
      if nwritten == 0
      then ok (some (errno i), i + 1, sent)
      else if length left == 0
      then ok (none, i + 1, sent')
      else rest

  abbrev pub unless_error :
      (ℕ → List ℕ → Result (ℕ × List ℕ)) → Option ℕ × ℕ × List ℕ → Result (ℕ × List ℕ)
  unless_error go (none, i, sent) = go i sent
  unless_error go (some e, i, sent) = ok (e, sent)

  -- The outer loop, over what recv(2) stores before it returns no positive number.
  unfoldable pub copy_loop : List (List ℕ) → ℕ → List ℕ → Result (ℕ × List ℕ)
  unfolding send_chunk
  copy_loop [] i sent = ok (0, sent)
  copy_loop (bytes ∷ chunks) i sent =
      send_chunk (length bytes) i bytes sent >>= unless_error (copy_loop chunks)

  -- `sock_blocking_copy`; a chunk of some bytes needs at most one round for each of them.
  unfoldable pub sock_blocking_copy : List (List ℕ) → Result (ℕ × List ℕ)
  sock_blocking_copy chunks = copy_loop chunks 0 []
