-- ===== src/Smtp/Flow/Turn.antt =====
-- One turn of the state machine of a session of smtpnio.c.
use tpe_protos.Base.{
  ◌≡◌, refl, ap, ◌⊎◌, inl, inr, ℕ, Result, ok, ◌>>=◌, load, some, none, Holds, Holds-value,
  Holds-bind,
}
use tpe_protos.Stm.{Machine, jump, handle_first, current_row, handle}
use tpe_protos.Smtp.{State, code, Interest, World}
use tpe_protos.Smtp.Handlers.{row, client_statbl}
use tpe_protos.Smtp.Flow.{Edge, Sound, Goes, awaits}
use tpe_protos.Smtp.Flow.Rows.{handler, pick, row-Serves}
use tpe_protos.Smtp.Flow.Jump.{Running, jump-Running, load-row}

-- A machine in the state `s`, also before its first event, when the state has no arrival.
pub record At (m : Machine World) (s : State) : Type 0 where
  pub table : m.states ≡ client_statbl
  pub last : m.max_state ≡ 14
  pub now :
      (m.current ≡ some (code s))
      ⊎ ((m.current ≡ none) × (m.initial ≡ code s) × ((row s).on_arrival ≡ none))

pub handle_first-At :
    (m : Machine World) (s : State) (w : World)
    → At m s
    → Holds (λ r. Running r.0 s × (r.1 ≡ w)) (handle_first m w)
unfolding handle_first
handle_first-At m s w at = elim at.now [
  | inl now ↦ rw now (Holds-value _ (record { table = at.table; last = at.last; now = refl }, refl))
  | inr (unset, first, quiet) ↦
      let found : load m.states m.initial ≡ ok (row s) = rw (at.table, first) (load-row s) in
      rw (unset, found, quiet)
        (Holds-value _ (record { table = at.table; last = at.last; now = ap some first }, refl))
]

-- What a handler leaves: the state that it returns is the next along an edge.
abbrev pub Moved : State → ℕ × Machine World × World → Type 0
Moved s r = (next : State) × (r.0 ≡ code next) × Edge s next × At r.1 next × Sound next r.2

pub Running-At : (m : Machine World) (s : State) → Running m s → At m s
Running-At m s at = record { table = at.table; last = at.last; now = inl at.now }

coded-Goes :
    (s : State) (f : World → Result (State × World)) (w : World)
    → Holds (λ r. Goes s r.0 r.1) (f w)
    → Holds
        (λ (r : ℕ × World). (next : State) × (r.0 ≡ code next) × Goes s next r.1)
        (f w >>= λ r. ok (code r.0, r.1))
coded-Goes s f w goes = Holds-bind (f w) _ goes (λ r went. Holds-value _ (r.0, refl, went))

pub turn-Moved :
    (i : Interest) (m : Machine World) (s : State) (w : World)
    → At m s
    → awaits s ≡ some i
    → Sound s w
    → Holds (Moved s) (handle_first m w >>= λ x. current_row x.0 >>= λ d. handle (pick i d) x.0 x.1)
unfolding current_row handle
turn-Moved i m s w at waits h =
    Holds-bind (handle_first m w) _ (handle_first-At m s w at) (λ x (running, same).
      let (has, goes) = row-Serves s i w waits h in
      let found : load x.0.states (code s) ≡ ok (row s) = rw running.table (load-row s) in
      rw (running.now, found, has, same)
        (Holds-bind (handler s w >>= λ r. ok (code r.0, r.1)) _ (coded-Goes s (handler s) w goes)
          (λ r (next, is_next, went).
            let m' : Machine World = record x.0 { current = some (code s) } in
            let on : Running m' s = record {
              table = running.table;
              last = running.last;
              now = refl;
            } in
            rw is_next (
              Holds-bind (jump m' (code next) r.1) _ (jump-Running m' s next r.1 on went)
                (λ j (there, sound).
                  Holds-value _ (next, refl, went.edge, Running-At j.0 next there, sound))))))
