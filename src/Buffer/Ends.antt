-- ===== src/Buffer/Ends.antt =====
-- How the operations of buffer.c end on a valid buffer, the failed assertions included.
use tpe_protos.Base.{ℕ, ◌+◌, ◌-◌, ◌≤◌, ◌<◌, arith, ◌≡◌, List, pos, length, ok, err, assert_failed}
use tpe_protos.Buffer.{Buffer, write_ptr, write_adv}
use tpe_protos.Buffer.Valid.{IsValid}

-- `buffer_write_ptr` gives the room behind the write pointer.
pub write_ptr-room : (b : Buffer) → IsValid b → write_ptr b ≡ ok (b.write_at, b.limit - b.write_at)
unfolding write_ptr
write_ptr-room b v = ground arith

-- `buffer_write_adv` within the limit.
pub write_adv-fits :
    (b : Buffer) (n : ℕ)
    → b.write_at + n ≤ b.limit
    → write_adv b (pos n) ≡ ok (record b { write_at = b.write_at + n })
unfolding write_adv
write_adv-fits b n h = ground arith

-- Past the limit its assertion fails.
pub write_adv-past :
    (b : Buffer) (n : ℕ) → b.limit < b.write_at + n → write_adv b (pos n) ≡ err assert_failed
unfolding write_adv
write_adv-past b n h = ground arith

-- Bytes over the memory leave a buffer valid when it does not shrink.
pub moved-IsValid :
    (b : Buffer) (bytes : List ℕ) (n : ℕ)
    → IsValid b
    → length b.bytes ≤ length bytes
    → b.write_at + n ≤ b.limit
    → IsValid (record b { bytes = bytes; write_at = b.write_at + n })
moved-IsValid b bytes n v h fits = omega arith
