-- ===== src/Udp/Words.antt =====
-- udpserver.c: numbers of 64 bits as bytes, the highest first.
use tpe_protos.Base.{ℕ, ◌+◌, ◌*◌, ◌/◌, ◌%◌, ◌^◌, ◌<◌, List, [], ◌∷◌, ◌≡◌, arith}

-- `uint64_to_big_endian`; `& 0xFF` is the remainder by 256.
unfoldable pub uint64_to_big_endian : ℕ → List ℕ
uint64_to_big_endian v =
    v / 2 ^ 56 % 256
    ∷ v / 2 ^ 48 % 256
    ∷ v / 2 ^ 40 % 256
    ∷ v / 2 ^ 32 % 256
    ∷ v / 2 ^ 24 % 256
    ∷ v / 2 ^ 16 % 256
    ∷ v / 2 ^ 8 % 256
    ∷ v % 256
    ∷ []

-- The number that bytes stand for, the highest first, behind `value`.
abbrev pub from_big_endian : ℕ → List ℕ → ℕ
from_big_endian value [] = value
from_big_endian value (b ∷ bytes) = from_big_endian (value * 256 + b) bytes

-- The bytes of a number of 64 bits stand for that number.
pub from_big_endian-uint64 : (v : ℕ) → v < 2 ^ 64 → from_big_endian 0 (uint64_to_big_endian v) ≡ v
unfolding uint64_to_big_endian
from_big_endian-uint64 v h = omega arith
