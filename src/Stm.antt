-- ===== src/Stm.antt =====
-- stm.c and stm.h: an engine for state machines whose states are rows of a table of callbacks.
-- What the callbacks can see and change is a type `W`; a null callback is `none`. The pointer
-- `current` into the table is its index.
pub mod Defined
mod Tests
use tpe_protos.Base.{
  ℕ, zero, suc, ◌+◌, Bool, true, false, Option, none, some, List, Result, ok, err, aborted, ◌>>=◌,
  ◌>>◌, load, ltb, ◌==◌, if◌then◌else◌,
}

pub record Definition (W : Type 0) : Type 0 where
  pub state : ℕ
  pub on_arrival : Option (ℕ → W → Result W)
  pub on_departure : Option (ℕ → W → Result W)
  pub on_read_ready : Option (W → Result (ℕ × W))
  pub on_write_ready : Option (W → Result (ℕ × W))
  pub on_block_ready : Option (W → Result (ℕ × W))

pub record Machine (W : Type 0) : Type 0 where
  pub initial : ℕ
  pub states : List (Definition W)
  pub max_state : ℕ
  pub current : Option ℕ

-- `stm->current == stm->states + next`
abbrev pub is_current : Option ℕ → ℕ → Bool
is_current none next = false
is_current (some s) next = s == next

module _ {W : Type 0} where
  -- The `for` loop of `stm_init`, with the rounds left and `i`.
  unfoldable pub check_states : ℕ → ℕ → List (Definition W) → Result (Unit {0})
  check_states zero i states = ok tt
  check_states (suc n) i states = load states i >>= λ d.
      let rest = check_states n (i + 1) states in if d.state == i then rest else err aborted

  unfoldable pub init : Machine W → Result (Machine W)
  unfolding check_states
  init m = do
    check_states (m.max_state + 1) 0 m.states
    if ltb m.initial m.max_state then ok (record m { current = none }) else err aborted

  -- A callback that may be null.
  abbrev pub notify : Option (ℕ → W → Result W) → ℕ → W → Result W
  notify none s w = ok w
  notify (some f) s w = f s w

  unfoldable pub handle_first : Machine W → W → Result (Machine W × W)
  handle_first m w = elim m.current [
    | some s ↦ ok (m, w)
    | none ↦ load m.states m.initial >>= λ d.
        notify d.on_arrival d.state w >>= λ w'. ok (record m { current = some m.initial }, w')
  ]

  -- `stm->current != NULL && stm->current->on_departure != NULL`
  unfoldable pub depart : Machine W → W → Result W
  depart m w = elim m.current [
    | none ↦ ok w
    | some s ↦ load m.states s >>= λ d. notify d.on_departure d.state w
  ]

  unfoldable pub jump : Machine W → ℕ → W → Result (Machine W × W)
  unfolding depart
  jump m next w =
      if ltb m.max_state next
      then err aborted
      else if is_current m.current next
      then ok (m, w)
      else (do
        w1 ← depart m w
        d ← load m.states next
        w2 ← notify d.on_arrival d.state w1
        ok (record m { current = some next }, w2))

  -- A callback that must not be null, and the jump to the state that it returns.
  unfoldable pub handle : Option (W → Result (ℕ × W)) → Machine W → W → Result (ℕ × Machine W × W)
  unfolding jump
  handle none m w = err aborted
  handle (some f) m w = f w >>= λ r. jump m r.0 r.1 >>= λ j. ok (r.0, j.0, j.1)

  -- The row of the current state; `handle_first` has set it.
  unfoldable pub current_row : Machine W → Result (Definition W)
  current_row m = elim m.current [ none ↦ err aborted | some s ↦ load m.states s ]

  unfoldable pub handler_read : Machine W → W → Result (ℕ × Machine W × W)
  unfolding handle_first current_row handle
  handler_read m w =
      handle_first m w >>= λ x. current_row x.0 >>= λ d. handle d.on_read_ready x.0 x.1

  unfoldable pub handler_write : Machine W → W → Result (ℕ × Machine W × W)
  unfolding handle_first current_row handle
  handler_write m w =
      handle_first m w >>= λ x. current_row x.0 >>= λ d. handle d.on_write_ready x.0 x.1

  unfoldable pub handler_block : Machine W → W → Result (ℕ × Machine W × W)
  unfolding handle_first current_row handle
  handler_block m w =
      handle_first m w >>= λ x. current_row x.0 >>= λ d. handle d.on_block_ready x.0 x.1

  unfoldable pub handler_close : Machine W → W → Result W
  unfolding depart
  handler_close m w = depart m w

  unfoldable pub state : Machine W → Result ℕ
  state m = elim m.current [ none ↦ ok m.initial | some s ↦ load m.states s >>= λ d. ok d.state ]
