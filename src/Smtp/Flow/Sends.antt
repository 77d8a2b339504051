-- ===== src/Smtp/Flow/Sends.antt =====
-- write_status of smtpnio.c: what one event sends of an answer, and that enough events send it whole.
use tpe_protos.Base.{
  ℕ, zero, suc, ◌≤◌, arith, ℤ, pos, negsuc, pos_part, true, false, List, [], ◌∷◌, ◌++◌, append-nil,
  append_assoc, true-ne_false, ◌≡◌, ◌≢◌, refl, sym, ap, ◌∙◌, inl, inr, ◌⊎◌, Result, ok, ◌>>=◌,
  if◌then◌else◌, ltb-false, ltb→lt, length, length-drop, take, drop, append-take-drop, no_elements,
  bind-ok, Bool-cases,
}
use tpe_protos.Buffer
use tpe_protos.Buffer.{Buffer}
use tpe_protos.Buffer.Valid.{
  read_ptr-contents, IsValid, contents, read_adv-Consumed, length-contents,
}
use tpe_protos.Smtp.{State, error, op_read, Env, World}
use tpe_protos.Smtp.Io.{write_status, sent_some, set_interest, with_write_buffer}

abbrev pub pending : World → List ℕ
pending w = contents w.session.write_buffer

-- What `write_status` does when `k` bytes have been taken.
abbrev pub Ends : State → State → World → State → World → Type 0
Ends current next w s' w' =
    ((pending w' ≢ []) × (s' ≡ current) × (w'.interest ≡ w.interest))
    ⊎ ((pending w' ≡ []) × (w.env.accepts op_read ≡ true) × (s' ≡ next) × (w'.interest ≡ op_read))
    ⊎ ((pending w' ≡ []) × (w.env.accepts op_read ≡ false) × (s' ≡ error))

pub record Sent (current next : State) (w : World) (k : ℕ) (s' : State) (w' : World) : Type 0 where
  pub valid : IsValid w'.session.write_buffer
  pub sent : w'.sent ≡ w.sent ++ take k (pending w)
  pub left : pending w' ≡ drop k (pending w)
  pub same_env : w'.env ≡ w.env
  pub ends : Ends current next w s' w'

some_left : (b : Buffer) → IsValid b → Buffer.can_read b ≡ true → contents b ≢ []
unfolding Buffer.can_read
some_left b v e empty =
    omega (arith, length-contents b v, ltb→lt b.read_at b.write_at e, ap length empty)

none_left : (b : Buffer) → IsValid b → Buffer.can_read b ≡ false → contents b ≡ []
unfolding Buffer.can_read
none_left b v e =
    no_elements (contents b) (omega (arith, length-contents b v, ltb-false b.read_at b.write_at e))

sent_some-Sent :
    (current next : State) (w : World) (k : ℕ)
    → IsValid w.session.write_buffer
    → suc k ≤ length (pending w)
    → (s' : State) × (w' : World) × (sent_some current next (pending w) w (pos (suc k))
        ≡ ok (s', w'))
      × Sent current next w (suc k) s' w'
unfolding sent_some set_interest
sent_some-Sent current next w k v h =
    let (b, e, c) = read_adv-Consumed w.session.write_buffer (suc k) v h in
    let w1 : World = record (with_write_buffer w b) { sent = w.sent ++ take (suc k) (pending w) } in
    elim (Bool-cases (Buffer.can_read b)) [
      | inl more ↦ (
        current,
        w1,
        rw (e, more) refl,
        record {
          valid = c.valid;
          sent = refl;
          left = c.left;
          same_env = refl;
          ends = inl (some_left b c.valid more, refl, refl);
        },
      )
      | inr whole ↦
          let empty = none_left b c.valid whole in
          elim (Bool-cases (w.env.accepts op_read)) [
            | inl accepted ↦ (
              next,
              record w1 { interest = op_read },
              rw (e, whole, accepted) refl,
              record {
                valid = c.valid;
                sent = refl;
                left = c.left;
                same_env = refl;
                ends = inr (inl (empty, accepted, refl, refl));
              },
            )
            | inr refused ↦ (
              error,
              w1,
              rw (e, whole, refused) refl,
              record {
                valid = c.valid;
                sent = refl;
                left = c.left;
                same_env = refl;
                ends = inr (inr (empty, refused, refl));
              },
            )
          ]
    ]

-- What a result is when send(2) returns `n`.
abbrev pub Sends : State → State → World → ℤ → Result (State × World) → Type 0
Sends current next w n m =
    (s' : State) × (w' : World) × (m ≡ ok (s', w'))
    × (((pos_part n ≡ 0) × (s' ≡ error) × (w' ≡ w))
        ⊎ ((1 ≤ pos_part n) × Sent current next w (pos_part n) s' w'))

sent_some-Sends :
    (current next : State) (w : World) (n : ℤ)
    → IsValid w.session.write_buffer
    → pos_part n ≤ length (pending w)
    → Sends current next w n (sent_some current next (pending w) w n)
unfolding sent_some
sent_some-Sends current next w (pos zero) v h = (error, w, refl, inl (refl, refl, refl))
sent_some-Sends current next w (negsuc n) v h = (error, w, refl, inl (refl, refl, refl))
sent_some-Sends current next w (pos (suc k)) v h =
    let (s', w', e, what) = sent_some-Sent current next w k v h in
    (s', w', e, inr (omega arith, what))

write_status-sent_some :
    (current next : State) (w : World)
    → IsValid w.session.write_buffer
    → write_status current next w ≡ sent_some current next (pending w) w (w.env.send (pending w))
unfolding write_status
write_status-sent_some current next w v = rw (read_ptr-contents w.session.write_buffer v) refl

-- `write_status` on a valid write buffer returns. When send(2) takes some of the bytes that are
-- pending, at most all of them, those are sent and no others, and the rest stays pending: the state
-- stays until nothing is, and then the descriptor is watched for reading in the next state, or the
-- state is the error state when the selector refuses that. When send(2) takes none, the state is the
-- error state and nothing changes.
pub write_status-Sends :
    (current next : State) (w : World)
    → IsValid w.session.write_buffer
    → pos_part (w.env.send (pending w)) ≤ length (pending w)
    → Sends current next w (w.env.send (pending w)) (write_status current next w)
write_status-Sends current next w v h =
    let (s', w', e, what) = sent_some-Sends current next w (w.env.send (pending w)) v h in
    (s', w', write_status-sent_some current next w v ∙ e, what)

-- The events of an answer: `write_status` while bytes are pending, at most `n` times.
abbrev pub write_events : ℕ → State → State → World → Result (State × World)
write_events zero current next w = ok (current, w)
write_events (suc n) current next w =
    let more = write_events n current next in
    write_status current next w >>= λ r.
    if Buffer.can_read r.1.session.write_buffer then more r.1 else ok r

pub not_empty : (xs : List ℕ) → xs ≢ [] → 1 ≤ length xs
not_empty [] h = absurd (h refl)
not_empty (x ∷ xs) h = omega arith

can_read-some : (b : Buffer) → IsValid b → contents b ≢ [] → Buffer.can_read b ≡ true
can_read-some b v h = elim (Bool-cases (Buffer.can_read b)) [
  | inl e ↦ e
  | inr e ↦ absurd (h (none_left b v e))
]

pub can_read-none : (b : Buffer) → IsValid b → contents b ≡ [] → Buffer.can_read b ≡ false
can_read-none b v h = elim (Bool-cases (Buffer.can_read b)) [
  | inl e ↦ absurd (some_left b v e h)
  | inr e ↦ e
]

-- What is sent in two parts is sent whole.
two_parts :
    (k : ℕ) (bytes before : List ℕ) {after left : List ℕ}
    → after ≡ before ++ take k bytes
    → left ≡ drop k bytes
    → after ++ left ≡ before ++ bytes
two_parts k bytes before {after} {left} e f =
    ap (λ xs. xs ++ left) e
    ∙ append_assoc before (take k bytes) left
    ∙ ap (λ xs. before ++ (take k bytes ++ xs)) f
    ∙ ap (λ xs. before ++ xs) (append-take-drop k bytes)

module _ (env : Env)
    (takes : (bytes : List ℕ)
      → bytes ≢ []
      → (1 ≤ pos_part (env.send bytes)) × (pos_part (env.send bytes) ≤ length bytes))
    (accepts : env.accepts op_read ≡ true) (current next : State) where
  -- When each call of send(2) takes some byte and at most all, and the selector accepts the
  -- interest, an answer in a valid write buffer, of one byte at least, is sent whole within as many
  -- events as it has bytes, and behind them the descriptor is watched for reading in the next state.
  pub write_events-whole :
      (n : ℕ) (w : World)
      → w.env ≡ env
      → IsValid w.session.write_buffer
      → pending w ≢ []
      → length (pending w) ≤ n
      → (w' : World) × (write_events n current next w ≡ ok (next, w'))
        × (w'.sent ≡ w.sent ++ pending w)
        × (pending w' ≡ [])
        × (w'.interest ≡ op_read)
  write_events-whole zero w same v some h = absurd (some (no_elements (pending w) (omega arith)))
  write_events-whole (suc n) w same v some h =
      let (one, most) = takes (pending w) some in
      let call = ap (λ x. pos_part (x.send (pending w))) same in
      let (s1, w1, e, what) = write_status-Sends current next w v (omega (arith, call, most)) in
      elim what [
        | inl (nothing, _, _) ↦ absurd (omega (arith, call, one, nothing))
        | inr (_, went) ↦
            let k = pos_part (w.env.send (pending w)) in
            elim went.ends [
              | inl (more, stays, _) ↦
                  let shorter = ap length went.left ∙ length-drop k (pending w) in
                  let (w2, rest, all, empty, interest) =
                    write_events-whole n w1 (went.same_env ∙ same) went.valid more
                      (omega (arith, call, one, most, shorter, h)) in
                  (
                    w2,
                    bind-ok _ e (rw (can_read-some w1.session.write_buffer went.valid more) rest),
                    all ∙ two_parts k (pending w) w.sent went.sent went.left,
                    empty,
                    interest,
                  )
              | inr (inl (empty, _, moves, interest)) ↦ (
                w1,
                bind-ok _ e (
                    rw (can_read-none w1.session.write_buffer went.valid empty)
                      (ap (λ s. ok (s, w1)) moves)),
                sym (append-nil w1.sent)
                    ∙ ap (λ bytes. w1.sent ++ bytes) (sym empty)
                    ∙ two_parts k (pending w) w.sent went.sent went.left,
                empty,
                interest,
              )
              | inr (inr (_, refused, _)) ↦
                  absurd
                    (true-ne_false (sym accepts ∙ sym (ap (λ x. x.accepts op_read) same) ∙ refused))
            ]
      ]
