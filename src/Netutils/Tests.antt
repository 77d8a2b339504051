-- ===== src/Netutils/Tests.antt =====
-- Witnesses for netutils.c.
use tpe_protos.Base.{
  ℕ, ◌+◌, ℤ, pos, pos_part, ◌==◌, if◌then◌else◌, Bool-cases, inl, inr, ◌≤◌, arith, List, [], ◌∷◌,
  codes, length, min, replicate, ◌≡◌, refl, decimal,
}
use tpe_protos.Buffer.{Buffer}
use tpe_protos.Buffer.Valid.{IsValid, contents}
use tpe_protos.Netutils.{sock_blocking_write, sock_blocking_copy}
use tpe_protos.Netutils.Write.{Writes, sock_blocking_write-Writes}
use tpe_protos.Netutils.Copy.{Copies, joined, sock_blocking_copy-Copies}

-- Three bytes are taken at most, and none by the third call.
abbrev send : ℕ → List ℕ → ℤ
send i bytes = if i == 2 then pos 0 else pos (min 3 (length bytes))

abbrev errno : ℕ → ℕ
errno i = 32

send-fits : (i : ℕ) (bytes : List ℕ) → pos_part (send i bytes) ≤ length bytes
send-fits i bytes = elim (Bool-cases (i == 2)) [
  | inl e ↦ rw e (omega arith)
  | inr e ↦ rw e (omega arith)
]

abbrev hello : Buffer
hello = record { bytes = codes "hello"; limit = 5; read_at = 0; write_at = 5 }

hello-IsValid : IsValid hello
hello-IsValid = omega arith

sock_blocking_write-Writes_example :
    Writes send errno hello [] (sock_blocking_write send errno (length (contents hello) + 1) hello)
sock_blocking_write-Writes_example =
    sock_blocking_write-Writes send errno send-fits hello hello-IsValid

abbrev chunks : List (List ℕ)
chunks = codes "hell" ∷ codes "o" ∷ []

sock_blocking_copy-Copies_example :
    Copies send errno (joined chunks) [] (sock_blocking_copy send errno chunks)
sock_blocking_copy-Copies_example =
    sock_blocking_copy-Copies send errno send-fits chunks (omega arith, (omega arith, tt))

abbrev blank : List ℕ
blank = replicate 60 0

four_digits : length (decimal 1209) ≡ 4
unfolding decimal
four_digits = refl
