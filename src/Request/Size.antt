-- ===== src/Request/Size.antt =====
-- request.c: the array `arg` keeps its size, whatever the parser reads, and the parser faults only by
-- a write past an array.
use tpe_protos.Base.{
  ℕ, arith, ◌≡◌, refl, ◌∙◌, List, [], ◌∷◌, Option, Bool, length, length-set, ok, Holds, inl, inr,
  sym, err-inj, err, out_of_bounds, Bool-cases, Holds-value, Holds-if, Holds-bind, Holds-implies,
}
use tpe_protos.Base.Fault.{Fault, Result-cases}
use tpe_protos.Request.{State, verb, Parser}
use tpe_protos.Request.Feed.{feed, feed_verb}
use tpe_protos.Request.Consume.{is_done_state, mark_error}
use tpe_protos.Request.Consume.Refine.{run}

abbrev pub arg_size : Parser → ℕ
arg_size p = length p.request.arg

feed_verb-size :
    (s : State) (p : Parser) (c : ℕ) {p' : Parser}
    → feed_verb s p c ≡ ok p'
    → arg_size p' ≡ arg_size p
unfolding feed_verb
feed_verb-size verb p c h = ground arith
feed_verb-size _ p c h = ground (arith, length-set p.request.arg p.i c)

feed-size : (p : Parser) (c : ℕ) → Holds (λ p'. arg_size p' ≡ arg_size p) (feed p c)
unfolding feed
feed-size p c = record { on_ok = λ p' e. feed_verb-size p.state p c e }

pub run-size :
    (w : List ℕ) (p : Parser) (errored : Option Bool)
    → Holds (λ s. arg_size s.p ≡ arg_size p) (run w p errored)
unfolding run
run-size [] p errored = Holds-value _ refl
run-size (c ∷ w) p errored = Holds-bind (feed p c) _ (feed-size p c) (λ p' same.
    Holds-if (is_done_state p'.state) _ _ (λ _. Holds-value _ same)
      (λ _.
        Holds-implies _ (run-size w p' (mark_error p'.state errored)) (λ s again. again ∙ same)))

feed_verb-fault :
    (s : State) (p : Parser) (c : ℕ) {f : Fault} → feed_verb s p c ≡ err f → f ≡ out_of_bounds
unfolding feed_verb
feed_verb-fault verb p c h = ground arith
feed_verb-fault _ p c h = ground arith

feed-fault : (p : Parser) (c : ℕ) {f : Fault} → feed p c ≡ err f → f ≡ out_of_bounds
unfolding feed
feed-fault p c h = feed_verb-fault p.state p c h

pub run-fault :
    (w : List ℕ) (p : Parser) (errored : Option Bool) {f : Fault}
    → run w p errored ≡ err f
    → f ≡ out_of_bounds
unfolding run
run-fault [] p errored h = cc
run-fault (c ∷ w) p errored {f} h = elim (Result-cases (feed p c)) [
  | inr (g, fault) ↦ sym (err-inj (rw fault at h)) ∙ feed-fault p c fault
  | inl (p', fed) ↦
      let h' = rw fed at h in
      elim (Bool-cases (is_done_state p'.state)) [
        | inl stop ↦ cc (rw stop at h')
        | inr more ↦ run-fault w p' (mark_error p'.state errored) (rw more at h')
      ]
]
