-- ===== src/RcptList/Stored.antt =====
-- What a node of rcpt_to_list.c keeps of an address.
use tpe_protos.Base.{
  ℕ, zero, suc, ◌-◌, ◌≤◌, ◌≡◌, refl, ap, true, List, [], ◌∷◌, ◌++◌, append_assoc, ok, IsText,
  c_string-ended, c_string, length, take, replicate, take-append, length-take, length-append,
  length-replicate, arith,
}
use tpe_protos.RcptList.{Node, email_array, create_rcpt_node, add_rcpt_to_list}

take-IsText : (n : ℕ) (s : List ℕ) → IsText s → IsText (take n s)
take-IsText zero s h = tt
take-IsText (suc n) [] h = tt
take-IsText (suc n) (c ∷ s) (ne, h) = (ne, take-IsText n s h)

c_string-zeros :
    (s : List ℕ) (k : ℕ) → IsText s → c_string (s ++ (replicate k 0 ++ (0 ∷ []))) ≡ ok s
c_string-zeros s zero h = c_string-ended s [] h
c_string-zeros s (suc k) h = c_string-ended s (replicate k 0 ++ (0 ∷ [])) h

take-replicate : (n m : ℕ) → n ≤ m → take {A = ℕ} n (replicate m 0) ≡ replicate n 0
take-replicate zero m h = refl
take-replicate (suc n) zero h = absurd (omega arith)
take-replicate (suc n) (suc m) h = ap (◌∷◌ 0) (take-replicate n m (omega arith))

email_array-shape :
    (s : List ℕ) → email_array s ≡ take 39 s ++ (replicate (39 - length s) 0 ++ (0 ∷ []))
email_array-shape s =
    rw
      (
        take-append 39 s (replicate (40 - length s) 0),
        take-replicate (39 - length s) (40 - length s) (omega arith),
      )
      (append_assoc (take 39 s) (replicate (39 - length s) 0) (0 ∷ []))

-- When there is memory, a new recipient stands in front of the others, in an array of 40 bytes that
-- holds the first 39 bytes of the address as a string that ends in it.
pub add_rcpt_to_list-stored :
    (head : List Node) (email : List ℕ)
    → IsText email
    → (node : Node) × (add_rcpt_to_list true head email ≡ ok (node ∷ head))
      × (c_string node.email ≡ ok (take 39 email))
      × (length node.email ≡ 40)
unfolding add_rcpt_to_list create_rcpt_node
add_rcpt_to_list-stored head email h = (
  record { email = email_array email },
  refl,
  rw (email_array-shape email)
      (c_string-zeros (take 39 email) (39 - length email) (take-IsText 39 email h)),
  omega (
    arith,
    length-append (take 39 (email ++ replicate (40 - length email) 0)) (0 ∷ []),
    length-take 39 (email ++ replicate (40 - length email) 0),
    length-append email (replicate (40 - length email) 0),
    length-replicate {A = ℕ} (40 - length email) 0,
  ),
)
