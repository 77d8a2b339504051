-- ===== src/RcptList.antt =====
-- The list of recipients of rcpt_to_list.c and rcpt_to_list.h. A list is the sequence of its nodes,
-- and a null pointer is the empty list. A node is its array `email` of 40 bytes: its descriptor and
-- file name are used by the functions on files alone, whose calls are recorded by the session.
pub mod Stored
pub mod Disk
pub mod Files
pub mod Dirs
pub mod Contents
pub mod Closing
pub mod Delivery
pub mod Slash
mod Tests
use tpe_protos.Base.{
  ℕ, ◌-◌, Bool, true, false, List, [], ◌∷◌, ◌++◌, Result, ok, err, aborted, ◌>>=◌, length, take,
  replicate,
}

abbrev pub max_email_length : ℕ
max_email_length = 40

pub record Node : Type 0 where
  pub email : List ℕ

-- `strncpy(new_node->email, email, MAX_EMAIL_LENGTH)`, and a zero in the last place.
abbrev pub email_array : List ℕ → List ℕ
email_array s =
    take (max_email_length - 1) (s ++ replicate (max_email_length - length s) 0) ++ (0 ∷ [])

-- `allocated` is whether `malloc` succeeds; if not, the process exits.
unfoldable pub create_rcpt_node : Bool → List ℕ → Result Node
create_rcpt_node true email = ok (record { email = email_array email })
create_rcpt_node false email = err aborted

unfoldable pub add_rcpt_to_list : Bool → List Node → List ℕ → Result (List Node)
unfolding create_rcpt_node
add_rcpt_to_list allocated head email =
    create_rcpt_node allocated email >>= λ node. ok (node ∷ head)

-- After `free_rcpt_list` the pointer must not be used; the callers forget or clear it.
unfoldable pub free_rcpt_list : List Node → List Node
free_rcpt_list [] = []
free_rcpt_list (node ∷ rest) = free_rcpt_list rest
