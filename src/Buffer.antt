-- ===== src/Buffer.antt =====
-- buffer.c and buffer.h: a byte buffer with a read and a write pointer.
-- A pointer is its offset from `data`; the memory behind `data` is the list `bytes`.
pub mod Valid
pub mod Ends
pub mod Queue
mod Tests
use tpe_protos.Base.{
  ℤ, pos, negsuc, ℕ, ◌+◌, ◌-◌, Bool, List, ◌++◌, Result, ok, err, assert_failed, ◌>>=◌, ◌>>◌,
  assert, load, store, ltb, leb, ◌==◌, if◌then◌else◌, take, drop,
}

pub record Buffer : Type 0 where
  pub bytes : List ℕ
  pub limit : ℕ
  pub read_at : ℕ
  pub write_at : ℕ

unfoldable pub reset : Buffer → Buffer
reset b = record b { read_at = 0; write_at = 0 }

-- `limit` and the pointers are given anew, so what the fields held before does not matter.
unfoldable pub init : ℕ → List ℕ → Buffer
init n memory = record { bytes = memory; limit = n; read_at = 0; write_at = 0 }

unfoldable pub can_write : Buffer → Bool
can_write b = ltb b.write_at b.limit

-- The pointer, and what goes through `nbyte`.
unfoldable pub write_ptr : Buffer → Result (ℕ × ℕ)
write_ptr b = do assert (leb b.write_at b.limit); ok (b.write_at, b.limit - b.write_at)

unfoldable pub can_read : Buffer → Bool
can_read b = ltb b.read_at b.write_at

unfoldable pub read_ptr : Buffer → Result (ℕ × ℕ)
read_ptr b = do assert (leb b.read_at b.write_at); ok (b.read_at, b.write_at - b.read_at)

unfoldable pub write_adv : Buffer → ℤ → Result Buffer
write_adv b (pos n) = do
  assert (leb (b.write_at + n) b.limit)
  ok (record b { write_at = b.write_at + n })
write_adv b (negsuc _) = ok b

-- `memmove(data, read, n)`
abbrev pub move_down : List ℕ → ℕ → ℕ → List ℕ
move_down xs from n = take n (drop from xs) ++ drop n xs

unfoldable pub compact : Buffer → Buffer
compact b =
    if b.read_at == 0
    then b
    else if b.read_at == b.write_at
    then record b { read_at = 0; write_at = 0 }
    else record b {
      bytes = move_down b.bytes b.read_at (b.write_at - b.read_at);
      read_at = 0;
      write_at = b.write_at - b.read_at;
    }

unfoldable pub read_adv : Buffer → ℤ → Result Buffer
read_adv b (pos n) = do
  assert (leb (b.read_at + n) b.write_at)
  let b' = record b { read_at = b.read_at + n }
  ok (if b'.read_at == b'.write_at then compact b' else b')
read_adv b (negsuc _) = ok b

unfoldable pub read : Buffer → Result (ℕ × Buffer)
unfolding can_read read_adv
read b =
    if can_read b
    then (do c ← load b.bytes b.read_at; b' ← read_adv b (pos 1); ok (c, b'))
    else ok (0, b)

unfoldable pub write : Buffer → ℕ → Result Buffer
unfolding can_write write_adv
write b c =
    if can_write b
    then (do bytes ← store b.bytes b.write_at c; write_adv (record b { bytes = bytes }) (pos 1))
    else ok b
