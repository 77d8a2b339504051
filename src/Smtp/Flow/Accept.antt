-- ===== src/Smtp/Flow/Accept.antt =====
-- The arrival of a connection in smtpnio.c, on every branch.
use tpe_protos.Base.{
  ◌≡◌, ◌<◌, ◌+◌, arith, leb, ℤ, negsuc, refl, ◌⊎◌, inl, inr, Bool, true, false, not, ◌&&◌, Option,
  none, some, pos, ◌+ℤ◌, Result, ok, err, out_of_bounds, if◌then◌else◌, Bool-cases,
}
use tpe_protos.Stm
use tpe_protos.Stm.{Machine, state}
use tpe_protos.Smtp.{State, code, op_write, Env, Server}
use tpe_protos.Smtp.Handlers.{client_statbl, row}
use tpe_protos.Smtp.Connection.{
  Connection, Arrival, is_minus_one, less, new_machine, first_state, establish, with_user,
  new_connection, smtp_passive_accept,
}

-- The calls of the system in front of the session succeed.
abbrev pub can_serve : Arrival → Bool
can_serve a = not (is_minus_one a.client) && (a.nio && a.allocated)

init-new :
    (b : Bool)
    → let m = new_machine (if b then State.greeting_write else State.failed_connection_write) in
      Stm.init m ≡ ok m
unfolding Stm.init client_statbl row
init-new true = refl
init-new false = refl

-- The order of two integers.
abbrev pub IsBelow : ℤ → ℤ → Type 0
IsBelow (pos m) (pos n) = m < n
IsBelow (pos m) (negsuc n) = ⊥
IsBelow (negsuc m) (pos n) = Unit {0}
IsBelow (negsuc m) (negsuc n) = n < m

less-cases : (i j : ℤ) → ((less i j ≡ true) × IsBelow i j) ⊎ ((less i j ≡ false) × (¬ IsBelow i j))
less-cases (pos m) (pos n) = elim (Bool-cases (leb (m + 1) n)) [
  | inl e ↦ inl (e, ground arith)
  | inr e ↦ inr (e, λ h. ground arith)
]
less-cases (pos m) (negsuc n) = inr (refl, λ h. h)
less-cases (negsuc m) (pos n) = inl (refl, tt)
less-cases (negsuc m) (negsuc n) = elim (Bool-cases (leb (n + 1) m)) [
  | inl e ↦ inl (e, ground arith)
  | inr e ↦ inr (e, λ h. ground arith)
]

-- The state that a new connection starts in: there are less users than the greatest number of them,
-- or not.
abbrev pub Starts : Server → State → Type 0
Starts s first =
    (IsBelow s.current_users s.max_user × (first ≡ State.greeting_write))
    ⊎ ((¬ IsBelow s.current_users s.max_user) × (first ≡ State.failed_connection_write))

first_state-Starts : (s : Server) → Starts s (first_state s)
first_state-Starts s = elim (less-cases s.current_users s.max_user) [
  | inl (e, below) ↦ inl (below, rw e refl)
  | inr (e, full) ↦ inr (full, rw e refl)
]

-- A connection in its first state, which waits for writing.
abbrev pub IsFirst : Server → Connection → Type 0
IsFirst s c =
    (c.is_open ≡ true)
    × ((first : State) × (state c.machine ≡ ok (code first)) × Starts s first)
    × (c.world.interest ≡ op_write)

-- The counters of the server, one higher, and the connection when it has been registered.
abbrev pub Counts : Arrival → Server → Result (Server × Option Connection) → Type 0
Counts a s out =
    (s' : Server) × (s'.current_users ≡ s.current_users +ℤ pos 1)
    × (s'.historic_users ≡ s.historic_users +ℤ pos 1)
    × ((a.registered ≡ false) × (out ≡ ok (s', none))
        ⊎ (a.registered ≡ true) × ((c : Connection) × (out ≡ ok (s', some c)) × IsFirst s c))

establish-Counts : (a : Arrival) (env : Env) (s : Server) → Counts a s (establish a env s)
unfolding establish state
establish-Counts a env s =
    let e = init-new (less s.current_users s.max_user) in
    (
      with_user a s,
      refl,
      refl,
      elim (Bool-cases a.registered) [
        | inl kept ↦ inr (
          kept,
          (
            new_connection a env s (new_machine (first_state s)),
            rw (e, kept) refl,
            (refl, (first_state s, refl, first_state-Starts s), refl),
          ),
        )
        | inr lost ↦ inl (lost, rw (e, lost) refl)
      ],
    )

-- `smtp_passive_accept` reads through a null pointer when a call in front of the session fails.
-- Otherwise it counts a user, also when the selector does not register the connection; one that it
-- registers is open and waits for writing; it starts with the greeting when there were less users
-- than `max_user`, and else with the refusal.
pub smtp_passive_accept-Counts :
    (a : Arrival) (env : Env) (s : Server)
    → ((can_serve a ≡ false) × (smtp_passive_accept a env s ≡ err out_of_bounds))
      ⊎ ((can_serve a ≡ true) × Counts a s (smtp_passive_accept a env s))
unfolding smtp_passive_accept
smtp_passive_accept-Counts a env s = elim (Bool-cases (is_minus_one a.client)) [
  | inl failed ↦ rw failed (inl (refl, refl))
  | inr client ↦ rw client (elim (Bool-cases a.nio) [
    | inr blocking ↦ rw blocking (inl (refl, refl))
    | inl nio ↦ rw nio (elim (Bool-cases a.allocated) [
      | inr no_memory ↦ rw no_memory (inl (refl, refl))
      | inl memory ↦ rw memory (inr (refl, establish-Counts a env s))
    ])
  ])
]
