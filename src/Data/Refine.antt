-- ===== src/Data/Refine.antt =====
-- `data_consume` against feeding the bytes of the buffer one after the other.
use mathlib.Core.Path.{subst}
use tpe_protos.Base.{
  ℕ, zero, suc, ◌-◌, ◌≤◌, ◌≡◌, refl, Bool-cases, inl, inr, true, false, List, [], ◌∷◌, length,
  Result, ok, err, ◌>>=◌, if◌then◌else◌, arith, lt→ltb,
}
use tpe_protos.Base.Fault.{Result-cases}
use tpe_protos.Buffer
use tpe_protos.Buffer.{Buffer}
use tpe_protos.Buffer.Valid.{IsValid, contents, read-Consumed, can_read-contents, length-contents}
use tpe_protos.Data.{Parser, Outcome, feed, is_done, consume_loop, consume}

-- The parser fed from a list of bytes, up to the end of the text or of the bytes, and the bytes
-- that are left.
unfoldable pub run : List ℕ → Parser → Result (Parser × List ℕ)
run [] p = ok (p, [])
run (c ∷ cs) p =
    feed p c >>= λ p'. let more = run cs p' in if is_done p'.state then ok (p', cs) else more

-- The loop over a buffer that stands for that over its bytes: the same fault, or the same parser,
-- its state as the result, and the rest of the bytes in a valid buffer of the same size.
abbrev pub Refines : ℕ → Result (Parser × List ℕ) → Result Outcome → Type 0
Refines limit (err f) (err g) = f ≡ g
Refines limit (ok (p, rest)) (ok o) =
    (o.p ≡ p) × (o.st ≡ p.state) × (contents o.b ≡ rest) × IsValid o.b × (o.b.limit ≡ limit)
Refines limit _ _ = ⊥

consume_loop-stop :
    (n : ℕ) (b : Buffer) (p : Parser)
    → IsValid b
    → contents b ≡ []
    → Buffer.can_read b ≡ false
    → Refines b.limit (run [] p) (consume_loop n p.state b p)
unfolding consume_loop run
consume_loop-stop zero b p v e stop = rw stop (refl, refl, e, v, refl)
consume_loop-stop (suc n) b p v e stop = rw stop (refl, refl, e, v, refl)

consume_loop-Refines :
    (n : ℕ) (b : Buffer) (p : Parser) (w : List ℕ)
    → IsValid b
    → contents b ≡ w
    → length w ≤ n
    → Refines b.limit (run w p) (consume_loop n p.state b p)
unfolding consume_loop run
consume_loop-Refines n b p [] v e h =
    let stop : Buffer.can_read b ≡ false = rw (can_read-contents b v, e) refl in
    consume_loop-stop n b p v e stop
consume_loop-Refines zero b p (c ∷ rest) v e h = absurd (omega arith)
consume_loop-Refines (suc n) b p (c ∷ rest) v e h =
    let (b', byte, taken) = read-Consumed b v e in
    let left : contents b' ≡ rest = rw e at taken.left in
    let on : Buffer.can_read b ≡ true = rw (can_read-contents b v, e) (lt→ltb _ _ (omega arith)) in
    rw (on, byte)
      (elim (Result-cases (feed p c)) [
        | inr (f, fault) ↦ rw fault refl
        | inl (p', fed) ↦ rw fed (elim (Bool-cases (is_done p'.state)) [
          | inl stop ↦ rw stop (refl, refl, left, taken.valid, taken.same_limit)
          | inr more ↦ rw more (
              subst (λ l. Refines l (run rest p') (consume_loop n p'.state b' p')) taken.same_limit
                (consume_loop-Refines n b' p' rest taken.valid left (omega arith)))
        ])
      ])

-- `data_consume` runs the parser over the bytes that a valid buffer holds, up to the end of the
-- text: it ends with the same fault as `run`, or with the same parser, returns the state of that
-- parser, and leaves exactly the unread bytes in a valid buffer of the same size.
pub consume-Refines :
    (b : Buffer) (p : Parser) → IsValid b → Refines b.limit (run (contents b) p) (consume b p)
unfolding consume
consume-Refines b p v =
    consume_loop-Refines (b.write_at - b.read_at) b p (contents b) v refl
      (omega (arith, length-contents b v))
