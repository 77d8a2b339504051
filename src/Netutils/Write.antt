-- ===== src/Netutils/Write.antt =====
-- netutils.c: sock_blocking_write loses no byte.
use tpe_protos.Base.{
  ℕ, zero, suc, ◌+◌, ◌≤◌, ◌<◌, arith, ℤ, pos_part, false, List, [], ◌++◌, append-nil, append_assoc,
  ◌≡◌, refl, sym, ap, ◌∙◌, inl, inr, ◌⊎◌, Result, ok, ltb-false, ◌==◌, length, take,
  append-take-drop, no_elements, length-drop, not_zero, Bool-cases, equal→≡,
}
use tpe_protos.Buffer.{Buffer, can_read}
use tpe_protos.Buffer.Valid.{
  read_ptr-contents, IsValid, contents, read_adv-Consumed, length-contents,
}
use tpe_protos.Netutils.{write_loop, sock_blocking_write}

nothing_left : (b : Buffer) → IsValid b → can_read b ≡ false → contents b ≡ []
unfolding can_read
nothing_left b v e =
    no_elements (contents b) (omega (arith, length-contents b v, ltb-false b.read_at b.write_at e))

module _ (send : ℕ → List ℕ → ℤ) (errno : ℕ → ℕ) where
  -- How the loop ends: everything is sent, or a call has sent nothing.
  abbrev pub Ends : ℕ → Buffer → Type 0
  Ends ret b =
      ((ret ≡ 0) × (contents b ≡ []))
      ⊎ ((j : ℕ) × (ret ≡ errno j) × (pos_part (send j (contents b)) ≡ 0))

  abbrev pub Writes : Buffer → List ℕ → Result (ℕ × Buffer × List ℕ) → Type 0
  Writes b sent m =
      (ret : ℕ) × (b' : Buffer) × (out : List ℕ) × (m ≡ ok (ret, b', sent ++ out))
      × (out ++ contents b' ≡ contents b)
      × IsValid b'
      × Ends ret b'

  module _ (fits : (i : ℕ) (bytes : List ℕ) → pos_part (send i bytes) ≤ length bytes) where
    write_loop-Writes :
        (n i : ℕ) (b : Buffer) (sent : List ℕ)
        → IsValid b
        → length (contents b) < n
        → Writes b sent (write_loop send errno n i b sent)
    unfolding write_loop
    write_loop-Writes zero i b sent v h = absurd (omega arith)
    write_loop-Writes (suc n) i b sent v h =
        let k = pos_part (send i (contents b)) in
        let start = read_ptr-contents b v in
        elim (Bool-cases (k == 0)) [
          | inl none_sent ↦ (
            errno i,
            b,
            [],
            rw (start, none_sent) (ap (λ x. ok (errno i, b, x)) (sym (append-nil sent))),
            refl,
            v,
            inr (i, refl, equal→≡ k 0 none_sent),
          )
          | inr some_sent ↦
              let (b', e, c) = read_adv-Consumed b k v (fits i (contents b)) in
              elim (Bool-cases (can_read b')) [
                | inl more ↦
                    let shorter = length-drop k (contents b) in
                    let held = ap length c.left in
                    let some = not_zero k some_sent in
                    let (ret, last, out, e2, split, valid, ends) =
                      write_loop-Writes n (i + 1) b' (sent ++ take k (contents b)) c.valid
                        (omega (arith, shorter, held, some, fits i (contents b))) in
                    (
                      ret,
                      last,
                      take k (contents b) ++ out,
                      rw (start, some_sent, e, more)
                          (e2
                            ∙ ap (λ x. ok (ret, last, x))
                                (append_assoc sent (take k (contents b)) out)),
                      append_assoc (take k (contents b)) out (contents last)
                          ∙ ap (λ x. take k (contents b) ++ x) (split ∙ c.left)
                          ∙ append-take-drop k (contents b),
                      valid,
                      ends,
                    )
                | inr empty ↦ (
                  0,
                  b',
                  take k (contents b),
                  rw (start, some_sent, e, empty) refl,
                  ap (λ x. take k (contents b) ++ x) c.left ∙ append-take-drop k (contents b),
                  c.valid,
                  inl (refl, nothing_left b' c.valid empty),
                )
              ]
        ]

    -- When send(2) takes at most the bytes that it is given, `sock_blocking_write` of a valid buffer
    -- returns within a round for each byte and one: the bytes that it has sent are the first ones of
    -- the buffer, those that are left are the others, and it returns 0 with nothing left, or the errno of
    -- a call that has sent none of what is left.
    pub sock_blocking_write-Writes :
        (b : Buffer)
        → IsValid b
        → Writes b [] (sock_blocking_write send errno (length (contents b) + 1) b)
    unfolding sock_blocking_write
    sock_blocking_write-Writes b v =
        write_loop-Writes (length (contents b) + 1) 0 b [] v (omega arith)
