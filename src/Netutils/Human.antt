-- ===== src/Netutils/Human.antt =====
-- netutils.c: an address as text.
use tpe_protos.Base.{
  ℕ, ◌+◌, ◌-◌, Option, none, some, List, ◌++◌, Result, ok, err, out_of_bounds, ◌>>=◌, store, codes,
  c_string, string_copy, decimal, leb, if◌then◌else◌, length, take, drop, replicate,
}

-- What `addr` points to: nothing, an address of the families AF_INET and AF_INET6 with the text that
-- inet_ntop(3) has for it and its port, or one of another family.
pub data Address : Type 0 where
  null_address other_family : Address
  internet : Option (List ℕ) → ℕ → Address

-- `strncpy` of `n` bytes to the start of an array.
abbrev pub strncpy : List ℕ → List ℕ → ℕ → Result (List ℕ)
strncpy memory s n =
    if leb n (length memory)
    then ok (take n (s ++ replicate (n - length s) 0) ++ drop n memory)
    else err out_of_bounds

-- `inet_ntop`, which fails when the text has no room in `size` bytes.
abbrev pub inet_ntop : Option (List ℕ) → List ℕ → ℕ → Option (Result (List ℕ))
inet_ntop none memory size = none
inet_ntop (some s) memory size =
    if leb (length s + 1) size then some (string_copy memory 0 s) else none

abbrev pub or_unknown : Option (Result (List ℕ)) → List ℕ → ℕ → Result (List ℕ)
or_unknown (some memory') memory buffsize = memory'
or_unknown none memory buffsize =
    strncpy memory (codes "unknown ip") buffsize >>= λ m. store m (buffsize - 1) 0

-- `strncat(buff, ":", buffsize)` and the zero in the last place.
unfoldable pub add_colon : List ℕ → ℕ → Result (List ℕ)
add_colon memory buffsize = c_string memory >>= λ s.
    string_copy memory (length s) (codes ":") >>= λ m. store m (buffsize - 1) 0

-- `snprintf` of the port behind the text of length `len`, and the zero in the last place.
unfoldable pub add_port : List ℕ → ℕ → ℕ → Result (List ℕ)
add_port memory buffsize port = c_string memory >>= λ s.
    let room = buffsize - length s in
    string_copy memory (length s) (take (room - 1) (decimal port)) >>= λ m. store m (buffsize - 1) 0

-- `sockaddr_to_human`: what is in the array `memory` of `buff`.
unfoldable pub sockaddr_to_human : List ℕ → ℕ → Address → Result (List ℕ)
sockaddr_to_human memory buffsize null_address = strncpy memory (codes "null") buffsize
sockaddr_to_human memory buffsize other_family = strncpy memory (codes "unknown") buffsize >>= λ m.
    add_colon m buffsize >>= λ m'. store m' (buffsize - 1) 0
sockaddr_to_human memory buffsize (internet text port) =
    or_unknown (inet_ntop text memory buffsize) memory buffsize >>= λ m.
    add_colon m buffsize >>= λ m'. add_port m' buffsize port
