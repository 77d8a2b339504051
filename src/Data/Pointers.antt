-- ===== src/Data/Pointers.antt =====
-- data.c: where `data_consume` leaves the pointers of its two buffers.
use tpe_protos.Base.{
  ℕ, zero, suc, arith, ◌≡◌, refl, ◌∙◌, false, List, [], ◌∷◌, Holds, Holds-err, Holds-value,
  Holds-bind, Holds-if, Holds-implies,
}
use tpe_protos.Buffer.{Buffer, can_read, read, read_adv, write, compact}
use tpe_protos.Data.Lossless.{feed_in-emit, next, written}
use tpe_protos.Data.{
  State, Parser, Outcome, write_each, emit, feed_in, feed, is_done, consume_loop, consume,
}

-- A buffer that is empty is at its start.
abbrev pub IsCompact : Buffer → Type 0
IsCompact b = (can_read b ≡ false → b.write_at ≡ 0)

-- What the reading of bytes keeps of a buffer, and their writing.
pub record Kept (b b' : Buffer) : Type 0 where
  pub limit : b'.limit ≡ b.limit
  pub compact : IsCompact b'

read-Kept : (b : Buffer) → IsCompact b → Holds (λ r. Kept b r.1) (read b)
unfolding read can_read read_adv compact
read-Kept b h = record {
  on_ok = λ r e. record { limit = ground arith; compact = λ f. ground arith };
}

write-read_at : (b : Buffer) (c : ℕ) → Holds (λ b'. b'.read_at ≡ b.read_at) (write b c)
unfolding write
write-read_at b c = record { on_ok = λ r e. ground arith }

write_each-read_at :
    (cs : List ℕ) (b : Buffer) → Holds (λ b'. b'.read_at ≡ b.read_at) (write_each cs b)
unfolding write_each
write_each-read_at [] b = Holds-value _ refl
write_each-read_at (c ∷ cs) b =
    Holds-bind (write b c) _ (write-read_at b c)
      (λ b1 e. Holds-implies _ (write_each-read_at cs b1) (λ b2 f. f ∙ e))

-- The read pointer of the data buffer.
abbrev pub text_at : Parser → ℕ
text_at p = p.data_buffer.read_at

emit-text_at :
    (s : State) (cs : List ℕ) (p : Parser) → Holds (λ p'. text_at p' ≡ text_at p) (emit s cs p)
unfolding emit
emit-text_at s cs p =
    Holds-bind (write_each cs p.data_buffer) _ (write_each-read_at cs p.data_buffer)
      (λ b e. Holds-value _ e)

feed_in-text_at :
    (s : State) (p : Parser) (c : ℕ) → Holds (λ p'. text_at p' ≡ text_at p) (feed_in s p c)
feed_in-text_at s p c = rw (feed_in-emit s p c) (emit-text_at (next s c) (written s c) p)

-- What `data_consume` keeps of its buffers.
pub record Stays (b : Buffer) (p : Parser) (o : Outcome) : Type 0 where
  pub kept : Kept b o.b
  pub text : text_at o.p ≡ text_at p

consume_loop-Stays :
    (n : ℕ) (s : State) (b : Buffer) (p : Parser)
    → IsCompact b
    → Holds (Stays b p) (consume_loop n s b p)
unfolding consume_loop feed
consume_loop-Stays zero s b p h =
    Holds-if (can_read b) _ _ (λ _. Holds-err _)
      (λ _. Holds-value _ (record { kept = record { limit = refl; compact = h }; text = refl }))
consume_loop-Stays (suc n) s b p h =
    Holds-if (can_read b) _ _
      (λ _. Holds-bind (read b) _ (read-Kept b h) (λ r k.
        Holds-bind (feed_in p.state p r.0) _ (feed_in-text_at p.state p r.0) (λ p' t.
          Holds-if (is_done p'.state) _ _ (λ _. Holds-value _ (record { kept = k; text = t }))
            (λ _. Holds-implies _ (consume_loop-Stays n p'.state r.1 p' k.compact) (λ o g. record {
              kept = record { limit = g.kept.limit ∙ k.limit; compact = g.kept.compact };
              text = g.text ∙ t;
            })))))
      (λ _. Holds-value _ (record { kept = record { limit = refl; compact = h }; text = refl }))

pub consume-Stays : (b : Buffer) (p : Parser) → IsCompact b → Holds (Stays b p) (consume b p)
unfolding consume
consume-Stays b p h = consume_loop-Stays _ p.state b p h
