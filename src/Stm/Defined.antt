-- ===== src/Stm/Defined.antt =====
-- The states of stm.c: what a handler returns is the state that the machine is in.
use tpe_protos.Base.{
  Option-cases, equal→≡, ltb-false, Holds, Holds-err, Holds-value, Holds-then, Holds-if,
  Holds-implies, Holds-bind, ltb→lt, ℕ, zero, suc, ◌+◌, ◌≤◌, ◌<◌, ◌≡◌, refl, sym, ap, ◌∙◌, true,
  Option, none, some, List, Result, ok, err, ◌>>=◌, ◌>>◌, load, ltb, ◌==◌, arith, Bool-cases,
  Result-cases, inl, inr, ◌⊎◌,
}
use tpe_protos.Base.Fault.{Fault}
use tpe_protos.Stm.{
  state, init, handler_block, Definition, Machine, is_current, check_states, handle_first, jump,
  depart, notify, handle, current_row, handler_read, handler_write,
}

pub Holds-check :
    {B : Type 0} {Q : B → Type 0} (r : Result (Unit {0})) (s : Result B)
    → (r ≡ ok tt → Holds Q s)
    → Holds Q (r >> s)
Holds-check (err f) s k = Holds-err f
Holds-check (ok tt) s k = k refl

err-ne : {A : Type 0} {a : A} {f : Fault} → ok a ≡ err f → ⊥
err-ne e = cc

≤-cases : (i k : ℕ) → i ≤ k → (i ≡ k) ⊎ (i + 1 ≤ k)
≤-cases i k h = ground arith

is_current→≡ : (c : Option ℕ) (next : ℕ) → is_current c next ≡ true → c ≡ some next
is_current→≡ none next e = cc
is_current→≡ (some s) next e = ap some (equal→≡ s next e)

module _ {W : Type 0} where
  -- Every row of the table up to the last state stands at the index of its state.
  abbrev pub IsDefined : Machine W → Type 0
  IsDefined m =
      (i : ℕ) → i ≤ m.max_state → (d : Definition W) × (load m.states i ≡ ok d) × (d.state ≡ i)

  check_states-row :
      (n i : ℕ) (states : List (Definition W)) {u : Unit {0}}
      → check_states n i states ≡ ok u
      → (k : ℕ) → i ≤ k
      → k < i + n
      → (d : Definition W) × (load states k ≡ ok d) × (d.state ≡ k)
  unfolding check_states
  check_states-row zero i states e k h l = absurd (omega arith)
  check_states-row (suc n) i states e k h l = elim (Result-cases (load states i)) [
    | inr (f, fault) ↦ absurd (err-ne (sym (rw fault at e)))
    | inl (d, row) ↦
        let e' = rw row at e in
        elim (Bool-cases (d.state == i)) [
          | inr other ↦ absurd (err-ne (sym (rw other at e')))
          | inl same ↦
              let rest = rw same at e' in
              elim (≤-cases i k h) [
                | inl here ↦ rw (sym here) (d, row, equal→≡ _ _ same)
                | inr above ↦ check_states-row n (i + 1) states rest k above (omega arith)
              ]
        ]
  ]

  abbrev pub IsFresh : Machine W → Type 0
  IsFresh m = IsDefined m × (m.current ≡ none) × (m.initial < m.max_state)

  pub init-IsFresh : (m : Machine W) → Holds IsFresh (init m)
  unfolding init
  init-IsFresh m = Holds-check (check_states (m.max_state + 1) 0 m.states) _ (λ checked.
      Holds-if (ltb m.initial m.max_state) _ _
        (λ below. Holds-value _ (
          (λ i h.
              check_states-row (m.max_state + 1) 0 m.states checked i (omega arith) (omega arith)),
          refl,
          ltb→lt _ _ below,
        ))
        (λ _. Holds-err _))

  pub init-same : (m : Machine W) → Holds (λ m'. m' ≡ record m { current = none }) (init m)
  unfolding init
  init-same m =
      Holds-check (check_states (m.max_state + 1) 0 m.states) _
        (λ _. Holds-if (ltb m.initial m.max_state) _ _ (λ _. Holds-value _ refl) (λ _. Holds-err _))

  -- The machine is in the state `s`, with the same table as `m`.
  abbrev pub IsAt : Machine W → ℕ → Machine W → Type 0
  IsAt m s m' =
      (m'.states ≡ m.states)
      × (m'.max_state ≡ m.max_state)
      × (m'.current ≡ some s)
      × (s ≤ m.max_state)

  jump-IsAt : (m : Machine W) (next : ℕ) (w : W) → Holds (λ r. IsAt m next r.0) (jump m next w)
  unfolding jump
  jump-IsAt m next w =
      Holds-if (ltb m.max_state next) _ _ (λ _. Holds-err _)
        (λ low.
          Holds-if (is_current m.current next) _ _
            (λ same.
              Holds-value _ (refl, refl, is_current→≡ m.current next same, ltb-false _ _ low))
            (λ other. Holds-then (depart m w) _ (λ w1 _. Holds-then (load m.states next) _ (λ d _.
              Holds-then (notify d.on_arrival d.state w1) _
                (λ w2 _. Holds-value _ (refl, refl, refl, ltb-false _ _ low))))))

  handle-IsAt :
      (f : Option (W → Result (ℕ × W))) (m : Machine W) (w : W)
      → Holds (λ r. IsAt m r.0 r.1) (handle f m w)
  unfolding handle
  handle-IsAt none m w = Holds-err _
  handle-IsAt (some f) m w =
      Holds-then (f w) _ (λ r _.
        Holds-bind (jump m r.0 r.1) _ (jump-IsAt m r.0 r.1) (λ j there. Holds-value _ there))

  abbrev SameTable : Machine W → Machine W → Type 0
  SameTable m m' = (m'.states ≡ m.states) × (m'.max_state ≡ m.max_state)

  handle_first-SameTable : (m : Machine W) (w : W) → Holds (λ r. SameTable m r.0) (handle_first m w)
  unfolding handle_first
  handle_first-SameTable m w = elim (Option-cases m.current) [
    | inr (s, now) ↦ rw now (Holds-value _ (refl, refl))
    | inl unset ↦ rw unset (
        Holds-then (load m.states m.initial) _ (λ d _.
          Holds-then (notify d.on_arrival d.state w) _ (λ w' _. Holds-value _ (refl, refl))))
  ]

  state-IsAt : (m m' : Machine W) (s : ℕ) → IsDefined m → IsAt m s m' → state m' ≡ ok s
  unfolding state
  state-IsAt m m' s defined (states, last, now, low) =
      let (d, row, same) = defined s low in rw (now, states, row, same) refl

  -- A handler: the callback that `pick` takes from the row of the current state.
  turn-IsAt :
      (pick : Definition W → Option (W → Result (ℕ × W))) (m : Machine W) (w : W)
      → Holds
          (λ r. IsAt m r.0 r.1)
          (handle_first m w >>= λ x. current_row x.0 >>= λ d. handle (pick d) x.0 x.1)
  turn-IsAt pick m w =
      Holds-bind (handle_first m w) _ (handle_first-SameTable m w) (λ x (same, last).
        Holds-then (current_row x.0) _ (λ d _.
          Holds-implies _ (handle-IsAt (pick d) x.0 x.1)
            (λ r (states, top, now, low). (states ∙ same, top ∙ last, now, rw last at low))))

  -- One of the three handlers returns `r.0`, with the machine and the world in `r.1`.
  abbrev pub Returns : Machine W → W → ℕ × Machine W × W → Type 0
  Returns m w r =
      (handler_read m w ≡ ok r) ⊎ (handler_write m w ≡ ok r) ⊎ (handler_block m w ≡ ok r)

  Returns-IsAt : (m : Machine W) (w : W) (r : ℕ × Machine W × W) → Returns m w r → IsAt m r.0 r.1
  unfolding handler_read handler_write handler_block
  Returns-IsAt m w r (inl e) = (turn-IsAt (λ d. d.on_read_ready) m w).on_ok r e
  Returns-IsAt m w r (inr (inl e)) = (turn-IsAt (λ d. d.on_write_ready) m w).on_ok r e
  Returns-IsAt m w r (inr (inr e)) = (turn-IsAt (λ d. d.on_block_ready) m w).on_ok r e

  -- The machines that come from `stm_init` and any number of handlers.
  pub data Reached : Machine W → Type 0 where
    started : (m : Machine W) {m' : Machine W} → init m ≡ ok m' → Reached m'
    turned :
        (m : Machine W) (w : W) {r : ℕ × Machine W × W} → Reached m → Returns m w r → Reached r.1

  IsAt-IsDefined : (m m' : Machine W) (s : ℕ) → IsDefined m → IsAt m s m' → IsDefined m'
  IsAt-IsDefined m m' s defined (states, last, now, low) = rw (states, last) defined

  Reached-IsDefined : (m : Machine W) → Reached m → IsDefined m
  Reached-IsDefined m (started m0 e) = ((init-IsFresh m0).on_ok m e).0
  Reached-IsDefined m (turned m0 w {r} before e) =
      IsAt-IsDefined m0 r.1 r.0 (Reached-IsDefined m0 before) (Returns-IsAt m0 w r e)

  -- When a handler of a machine that `stm_init` has accepted returns, also after other handlers,
  -- `stm_state` is the state that it returned, and the table has that state.
  pub handler-state :
      (m : Machine W) (w : W) (r : ℕ × Machine W × W)
      → Reached m
      → Returns m w r
      → (state r.1 ≡ ok r.0) × (r.0 ≤ r.1.max_state)
  handler-state m w r reached e =
      let there = Returns-IsAt m w r e in
      (state-IsAt m r.1 r.0 (Reached-IsDefined m reached) there, rw there.1 there.3)
