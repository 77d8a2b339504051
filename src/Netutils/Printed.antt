-- ===== src/Netutils/Printed.antt =====
-- netutils.c: what sockaddr_to_human writes for an address of the internet.
use tpe_protos.Base.{
  ℕ, zero, suc, ◌+◌, ◌-◌, ◌/◌, ◌%◌, ◌≤◌, arith, some, List, [], ◌∷◌, ◌++◌, append_assoc, ◌≡◌, ◌≢◌,
  refl, sym, ap, ◌∙◌, inl, inr, ok, store, codes, c_string, string_copy, digits, decimal, le→leb,
  ltb, lt→ltb, length, length-append, length-drop, length-set, set, take, take_all,
  take-length-append, drop, IsText, c_string-ended, append-IsText, bind-ok, Bool-cases,
}
use tpe_protos.Netutils.Human.{
  internet, inet_ntop, or_unknown, add_colon, add_port, sockaddr_to_human,
}

-- An array of `n` bytes that begins with the string `t`.
abbrev pub Contains : List ℕ → ℕ → List ℕ → Type 0
Contains t n m = (rest : List ℕ) × (m ≡ t ++ (0 ∷ rest)) × (length m ≡ n)

copy-Contains :
    (t s m : List ℕ) (n : ℕ)
    → Contains t n m
    → length t + length s + 1 ≤ n
    → (m' : List ℕ) × (string_copy m (length t) s ≡ ok m') × Contains (t ++ s) n m'
copy-Contains t s m n (rest, shape, size) h =
    let k = length t + length s + 1 in
    let front : take (length t) m ≡ t =
      ap (take (length t)) shape ∙ take-length-append t (0 ∷ rest) in
    let m' = t ++ (s ++ (0 ∷ drop k m)) in
    let same = append_assoc t s (0 ∷ drop k m) in
    (
      m',
      rw (le→leb k (length m) (omega (arith, size)), front) refl,
      (
        drop k m,
        sym same,
        omega (
          arith,
          size,
          length-append t (s ++ (0 ∷ drop k m)),
          length-append s (0 ∷ drop k m),
          length-drop k m,
        ),
      ),
    )

set-behind :
    (t rest : List ℕ) (k : ℕ)
    → length t ≤ k
    → (rest' : List ℕ) × (set (t ++ (0 ∷ rest)) k 0 ≡ t ++ (0 ∷ rest'))
set-behind [] rest zero h = (rest, refl)
set-behind [] rest (suc k) h = (set rest k 0, refl)
set-behind (c ∷ t) rest zero h = absurd (omega arith)
set-behind (c ∷ t) rest (suc k) h =
    let (rest', e) = set-behind t rest k (omega arith) in (rest', ap (◌∷◌ c) e)

-- The zero in the last place.
last-Contains :
    (t m : List ℕ) (n : ℕ)
    → Contains t n m
    → length t + 1 ≤ n
    → (m' : List ℕ) × (store m (n - 1) 0 ≡ ok m') × Contains t n m'
last-Contains t m n (rest, shape, size) h =
    let (rest', e) = set-behind t rest (n - 1) (omega arith) in
    (
      set m (n - 1) 0,
      rw (lt→ltb (n - 1) (length m) (omega (arith, size, h))) refl,
      (rest', ap (λ x. set x (n - 1) 0) shape ∙ e, length-set m (n - 1) 0 ∙ size),
    )

digit-ne : (d : ℕ) → b'0' + d ≢ 0
digit-ne d e = omega (arith, e)

digits-IsText : (k n : ℕ) (rest : List ℕ) → IsText rest → IsText (digits k n rest)
unfolding digits
digits-IsText zero n rest h = (digit-ne n, h)
digits-IsText (suc k) n rest h = elim (Bool-cases (ltb n 10)) [
  | inl small ↦ rw small (digit-ne n, h)
  | inr large ↦ rw large (digits-IsText k (n / 10) ((b'0' + n % 10) ∷ rest) (digit-ne (n % 10), h))
]

decimal-IsText : (n : ℕ) → IsText (decimal n)
unfolding decimal
decimal-IsText n = digits-IsText n n [] tt

module _ (n : ℕ) where
  string-Contains : (t m : List ℕ) → IsText t → Contains t n m → c_string m ≡ ok t
  string-Contains t m h (rest, shape, size) = ap c_string shape ∙ c_string-ended t rest h

  inet_ntop-Contains :
      (s m : List ℕ)
      → length m ≡ n
      → length s + 1 ≤ n
      → (m' : List ℕ) × (or_unknown (inet_ntop (some s) m n) m n ≡ ok m') × Contains s n m'
  inet_ntop-Contains s m size h =
      let m' = s ++ (0 ∷ drop (0 + length s + 1) m) in
      (
        m',
        rw (le→leb (length s + 1) n h, le→leb (0 + length s + 1) (length m) (omega (arith, size)))
            refl,
        (
          drop (0 + length s + 1) m,
          refl,
          omega (
            arith,
            size,
            length-append s (0 ∷ drop (0 + length s + 1) m),
            length-drop (0 + length s + 1) m,
          ),
        ),
      )

  add_colon-Contains :
      (s m : List ℕ)
      → IsText s
      → Contains s n m
      → length s + 2 ≤ n
      → (m' : List ℕ) × (add_colon m n ≡ ok m') × Contains (s ++ codes ":") n m'
  unfolding add_colon
  add_colon-Contains s m h holds room =
      let (m1, e1, holds1) = copy-Contains s (codes ":") m n holds (omega arith) in
      let (m2, e2, holds2) =
        last-Contains (s ++ codes ":") m1 n holds1 (omega (arith, length-append s (codes ":"))) in
      (m2, bind-ok _ (string-Contains s m h holds) (bind-ok _ e1 e2), holds2)

  add_port-Contains :
      (s m : List ℕ) (port : ℕ)
      → IsText s
      → Contains s n m
      → length s + length (decimal port) + 1 ≤ n
      → (m' : List ℕ) × (add_port m n port ≡ ok m') × Contains (s ++ decimal port) n m'
  unfolding add_port
  add_port-Contains s m port h holds room =
      let all = take_all (n - length s - 1) (decimal port) (omega arith) in
      let (m1, e1, holds1) = copy-Contains s (decimal port) m n holds room in
      let (m2, e2, holds2) =
        last-Contains (s ++ decimal port) m1 n holds1
          (omega (arith, length-append s (decimal port))) in
      (
        m2,
        bind-ok _ (string-Contains s m h holds)
            (bind-ok _ (ap (string_copy m (length s)) all ∙ e1) e2),
        holds2,
      )

  -- In an array of `n` bytes with room for it, `sockaddr_to_human` writes the address of the internet
  -- that inet_ntop(3) has, a colon and the port in decimal, as a string that ends in the array.
  pub sockaddr_to_human-text :
      (s m : List ℕ) (port : ℕ)
      → IsText s
      → length m ≡ n
      → length s + 1 + length (decimal port) + 1 ≤ n
      → (m' : List ℕ) × (sockaddr_to_human m n (internet (some s) port) ≡ ok m')
        × (c_string m' ≡ ok (s ++ (codes ":" ++ decimal port)))
        × (length m' ≡ n)
  unfolding sockaddr_to_human
  sockaddr_to_human-text s m port h size room =
      let (m1, e1, holds1) = inet_ntop-Contains s m size (omega arith) in
      let (m2, e2, holds2) = add_colon-Contains s m1 h holds1 (omega arith) in
      let colon : IsText (s ++ codes ":") =
        append-IsText s (codes ":") h ((λ e. omega (arith, e)), tt) in
      let (m3, e3, holds3) =
        add_port-Contains (s ++ codes ":") m2 port colon holds2
          (omega (arith, length-append s (codes ":"))) in
      (
        m3,
        bind-ok _ e1 (bind-ok _ e2 e3),
        string-Contains ((s ++ codes ":") ++ decimal port) m3
              (append-IsText (s ++ codes ":") (decimal port) colon (decimal-IsText port)) holds3
            ∙ ap ok (append_assoc s (codes ":") (decimal port)),
        holds3.2,
      )
