-- ===== src/Netutils/Copy.antt =====
-- netutils.c: sock_blocking_copy sends what it receives, in its order.
use tpe_protos.Base.{
  ℕ, zero, suc, ◌+◌, ◌≤◌, arith, ℤ, pos_part, Option, none, some, List, [], ◌∷◌, ◌++◌, append-nil,
  append_assoc, ◌≡◌, refl, sym, ap, ◌∙◌, inl, inr, ◌⊎◌, Result, ok, ◌==◌, length, take, drop,
  append-take-drop, no_elements, length-drop, not_zero, Bool-cases, equal→≡,
}
use tpe_protos.Netutils.{send_chunk, copy_loop, sock_blocking_copy}

abbrev pub joined : List (List ℕ) → List ℕ
joined [] = []
joined (chunk ∷ chunks) = chunk ++ joined chunks

-- What recv(2) stores when it returns a positive number.
abbrev pub AreSome : List (List ℕ) → Type 0
AreSome [] = Unit {0}
AreSome (chunk ∷ chunks) = (1 ≤ length chunk) × AreSome chunks

module _ (send : ℕ → List ℕ → ℤ) (errno : ℕ → ℕ) where
  -- A call for some bytes returns no positive number.
  abbrev Fails : ℕ → List ℕ → Type 0
  Fails j bytes = (1 ≤ length bytes) × (pos_part (send j bytes) ≡ 0)

  -- All has been sent, or the first bytes, and then the call for the rest has returned no positive
  -- number.
  abbrev Chunk : List ℕ → List ℕ → Result (Option ℕ × ℕ × List ℕ) → Type 0
  Chunk bytes sent m =
      ((j : ℕ) × (m ≡ ok (none, j, sent ++ bytes)))
      ⊎ ((j : ℕ) × (k : ℕ) × (out : List ℕ) × (rest : List ℕ) × (m
            ≡ ok (some (errno j), k, sent ++ out))
          × (out ++ rest ≡ bytes)
          × Fails j rest)

  -- All has been sent, or the first bytes, and then the call for the rest of a chunk has returned no
  -- positive number.
  abbrev pub Copies : List ℕ → List ℕ → Result (ℕ × List ℕ) → Type 0
  Copies bytes sent m =
      (m ≡ ok (0, sent ++ bytes))
      ⊎ ((j : ℕ) × (out : List ℕ) × (rest : List ℕ) × (more : List ℕ) × (m
            ≡ ok (errno j, sent ++ out))
          × (out ++ (rest ++ more) ≡ bytes)
          × Fails j rest)

  module _ (fits : (i : ℕ) (bytes : List ℕ) → pos_part (send i bytes) ≤ length bytes) where
    send_chunk-Chunk :
        (n i : ℕ) (bytes sent : List ℕ)
        → 1 ≤ length bytes
        → length bytes ≤ n
        → Chunk bytes sent (send_chunk send errno n i bytes sent)
    unfolding send_chunk
    send_chunk-Chunk zero i bytes sent one h = absurd (omega arith)
    send_chunk-Chunk (suc n) i bytes sent one h =
        let k = pos_part (send i bytes) in
        elim (Bool-cases (k == 0)) [
          | inl none_sent ↦ inr (
            i,
            i + 1,
            [],
            bytes,
            rw none_sent (ap (λ x. ok (some (errno i), i + 1, x)) (sym (append-nil sent))),
            refl,
            (one, equal→≡ k 0 none_sent),
          )
          | inr some_sent ↦
              let more = not_zero k some_sent in
              let shorter = length-drop k bytes in
              let whole = append-take-drop k bytes in
              elim (Bool-cases (length (drop k bytes) == 0)) [
                | inl last ↦
                    let nothing =
                      no_elements (drop k bytes) (equal→≡ (length (drop k bytes)) 0 last) in
                    let all : take k bytes ≡ bytes =
                      sym (append-nil (take k bytes))
                      ∙ ap (λ x. take k bytes ++ x) (sym nothing)
                      ∙ whole in
                    inl (i + 1, rw (some_sent, last) (ap (λ x. ok (none, i + 1, sent ++ x)) all))
                | inr left ↦
                    elim (send_chunk-Chunk n (i + 1) (drop k bytes) (sent ++ take k bytes)
                      (not_zero (length (drop k bytes)) left) (omega (arith, shorter, more))) [
                        | inl (j, e) ↦ inl (
                          j,
                          rw (some_sent, left)
                              (e
                                ∙ ap (λ x. ok (none, j, x))
                                    (append_assoc sent (take k bytes) (drop k bytes)
                                      ∙ ap (λ x. sent ++ x) whole)),
                        )
                        | inr (j, l, out, rest, e, split, fails) ↦ inr (
                          j,
                          l,
                          take k bytes ++ out,
                          rest,
                          rw (some_sent, left)
                              (e
                                ∙ ap (λ x. ok (some (errno j), l, x))
                                    (append_assoc sent (take k bytes) out)),
                          append_assoc (take k bytes) out rest
                              ∙ ap (λ x. take k bytes ++ x) split
                              ∙ whole,
                          fails,
                        )
                      ]
              ]
        ]

    copy_loop-Copies :
        (chunks : List (List ℕ)) (i : ℕ) (sent : List ℕ)
        → AreSome chunks
        → Copies (joined chunks) sent (copy_loop send errno chunks i sent)
    unfolding copy_loop
    copy_loop-Copies [] i sent h = inl (ap (λ x. ok (0, x)) (sym (append-nil sent)))
    copy_loop-Copies (bytes ∷ chunks) i sent (one, h) =
        let rest_of = copy_loop-Copies chunks in
        elim (send_chunk-Chunk (length bytes) i bytes sent one (omega arith)) [
          | inl (j, e) ↦ elim (rest_of j (sent ++ bytes) h) [
            | inl e2 ↦
                inl (rw e (e2 ∙ ap (λ x. ok (0, x)) (append_assoc sent bytes (joined chunks))))
            | inr (l, out, rest, more, e2, split, fails) ↦ inr (
              l,
              bytes ++ out,
              rest,
              more,
              rw e (e2 ∙ ap (λ x. ok (errno l, x)) (append_assoc sent bytes out)),
              append_assoc bytes out (rest ++ more) ∙ ap (λ x. bytes ++ x) split,
              fails,
            )
          ]
          | inr (j, l, out, rest, e, split, fails) ↦ inr (
            j,
            out,
            rest,
            joined chunks,
            rw e refl,
            sym (append_assoc out rest (joined chunks)) ∙ ap (λ x. x ++ joined chunks) split,
            fails,
          )
        ]

    -- When send(2) takes at most the bytes that it is given, `sock_blocking_copy` of what recv(2)
    -- gives in chunks of some bytes returns: 0 with all of it sent in its order, or, with the first
    -- bytes sent, the errno of a call of send(2) that was given the next bytes and returned no
    -- positive number.
    pub sock_blocking_copy-Copies :
        (chunks : List (List ℕ))
        → AreSome chunks
        → Copies (joined chunks) [] (sock_blocking_copy send errno chunks)
    unfolding sock_blocking_copy
    sock_blocking_copy-Copies chunks h = copy_loop-Copies chunks 0 [] h
