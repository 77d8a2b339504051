-- ===== src/Request/Consume/Refine.antt =====
-- `request_consume` against feeding the bytes of the buffer one after the other.
use tpe_protos.Base.{
  ℕ, zero, suc, ◌-◌, ◌≤◌, ◌≡◌, refl, Bool, true, false, Option, List, [], ◌∷◌, length, Result, ok,
  err, ◌>>=◌, if◌then◌else◌, arith, Bool-cases, lt→ltb, inl, inr,
}
use mathlib.Core.Path.{subst}
use tpe_protos.Base.Fault.{Result-cases}
use tpe_protos.Buffer
use tpe_protos.Buffer.{Buffer}
use tpe_protos.Buffer.Valid.{IsValid, contents, read-Consumed, can_read-contents, length-contents}
use tpe_protos.Request.{Parser}
use tpe_protos.Request.Feed.{feed}
use tpe_protos.Request.Consume.{Outcome, consume_loop, consume, is_done_state, mark_error}

-- What is left of a list of bytes when the parser has stopped.
pub record Stop : Type 0 where
  pub p : Parser
  pub rest : List ℕ
  pub errored : Option Bool

-- The parser fed from a list of bytes, up to the end of a command or of the bytes.
unfoldable pub run : List ℕ → Parser → Option Bool → Result Stop
run [] p errored = ok (record { p = p; rest = []; errored = errored })
run (c ∷ cs) p errored = feed p c >>= λ p'.
    let errored' = mark_error p'.state errored in
    let more = run cs p' errored' in
    if is_done_state p'.state then ok (record { p = p'; rest = cs; errored = errored' }) else more

-- The outcome of the loop over a buffer that stands for that over its bytes: the same fault, or
-- the same parser and flag, the parser's state as the result, and the rest of the bytes in a
-- valid buffer of the same size.
abbrev pub Refines : ℕ → Result Stop → Result Outcome → Type 0
Refines limit (err f) (err g) = f ≡ g
Refines limit (ok s) (ok o) =
    (o.p ≡ s.p)
    × (o.errored ≡ s.errored)
    × (o.st ≡ s.p.state)
    × (contents o.b ≡ s.rest)
    × IsValid o.b
    × (o.b.limit ≡ limit)
Refines limit _ _ = ⊥

consume_loop-stop :
    (n : ℕ) (b : Buffer) (p : Parser) (errored : Option Bool)
    → IsValid b
    → contents b ≡ []
    → Buffer.can_read b ≡ false
    → Refines b.limit (run [] p errored) (consume_loop n p.state b p errored)
unfolding consume_loop run
consume_loop-stop zero b p errored v e stop = rw stop (refl, refl, refl, e, v, refl)
consume_loop-stop (suc n) b p errored v e stop = rw stop (refl, refl, refl, e, v, refl)

consume_loop-Refines :
    (n : ℕ) (b : Buffer) (p : Parser) (errored : Option Bool) (w : List ℕ)
    → IsValid b
    → contents b ≡ w
    → length w ≤ n
    → Refines b.limit (run w p errored) (consume_loop n p.state b p errored)
unfolding consume_loop run
consume_loop-Refines n b p errored [] v e h =
    let stop : Buffer.can_read b ≡ false = rw (can_read-contents b v, e) refl in
    consume_loop-stop n b p errored v e stop
consume_loop-Refines zero b p errored (c ∷ rest) v e h = absurd (omega arith)
consume_loop-Refines (suc n) b p errored (c ∷ rest) v e h =
    let (b', byte, taken) = read-Consumed b v e in
    let left : contents b' ≡ rest = rw e at taken.left in
    let on : Buffer.can_read b ≡ true = rw (can_read-contents b v, e) (lt→ltb _ _ (omega arith)) in
    rw (on, byte)
      (elim (Result-cases (feed p c)) [
        | inr (f, fault) ↦ rw fault refl
        | inl (p', fed) ↦ rw fed (elim (Bool-cases (is_done_state p'.state)) [
          | inl stop ↦ rw stop (refl, refl, refl, left, taken.valid, taken.same_limit)
          | inr more ↦ rw more (
              subst
                (λ l.
                  Refines l (run rest p' (mark_error p'.state errored))
                    (consume_loop n p'.state b' p' (mark_error p'.state errored)))
                taken.same_limit
                (consume_loop-Refines n b' p' (mark_error p'.state errored) rest taken.valid left
                  (omega arith)))
        ])
      ])

pub consume-Refines :
    (b : Buffer) (p : Parser) (errored : Option Bool)
    → IsValid b
    → Refines b.limit (run (contents b) p errored) (consume b p errored)
unfolding consume
consume-Refines b p errored v =
    consume_loop-Refines (b.write_at - b.read_at) b p errored (contents b) v refl
      (omega (arith, length-contents b v))
