-- ===== src/Stm/Tests.antt =====
-- A machine of two states that counts its turns.
use tpe_protos.Base.{ℕ, ◌+◌, ◌≡◌, refl, Option, none, some, [], ◌∷◌, ok, inl, ◌≤◌}
use tpe_protos.Stm.{Definition, Machine, init, state, handler_read}
use tpe_protos.Stm.Defined.{started, handler-state}

abbrev counting_row : ℕ → ℕ → Definition ℕ
counting_row s next = record {
  state = s;
  on_arrival = some (λ _ w. ok (w + 10));
  on_departure = some (λ _ w. ok (w + 100));
  on_read_ready = some (λ w. ok (next, w + 1));
  on_write_ready = none;
  on_block_ready = none;
}

abbrev machine : Option ℕ → Machine ℕ
machine now = record {
  initial = 0;
  states = counting_row 0 1 ∷ counting_row 1 0 ∷ [];
  max_state = 1;
  current = now;
}

first_turn : handler_read (machine none) 0 ≡ ok (1, machine (some 1), 121)
unfolding handler_read
first_turn = refl

accepted : init (machine (some 7)) ≡ ok (machine none)
unfolding init
accepted = refl

handler-state_example : (state (machine (some 1)) ≡ ok 1) × (1 ≤ 1)
handler-state_example =
    handler-state (machine none) 0 (1, machine (some 1), 121) (started (machine (some 7)) accepted)
      (inl first_turn)
