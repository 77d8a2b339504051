-- ===== src/Selector/Order.antt =====
-- selector.c: the order in which a turn dispatches the events.
use tpe_protos.Base.{
  ℕ, zero, suc, ◌+◌, ◌≤◌, ◌<◌, arith, Bool, true, false, Option, some, List, [], ◌∷◌, ◌++◌, ◌&&◌,
  ◌≡◌, refl, sym, ap, ◌∙◌, inl, inr, Result, ok, length, Bool-cases, Option-cases, none-ne,
  equal_refl,
}
use tpe_protos.Selector.{Handler, Item, Selector}
use tpe_protos.Selector.Valid.{place, load-place, IsValid}
use tpe_protos.Selector.Operations.{IsFull}
use tpe_protos.Selector.Select.{
  Callbacks, call, read_item, write_turn, turn, iterate, handle_iteration,
}
use tpe_protos.Selector.Valid.{wants_read, wants_write}

pub data Event : Type 0 where
  reading writing : ℕ → Event

abbrev pub at_most : Bool → Event → List Event
at_most true e = e ∷ []
at_most false e = []

place-length :
    {A : Type 0} (xs : List (Option A)) (i : ℕ) (x : A) → place xs i ≡ some x → i < length xs
place-length [] i x e = absurd (none-ne e)
place-length (y ∷ xs) zero x e = omega arith
place-length (y ∷ xs) (suc i) x e = let below = place-length xs i x e in omega (arith, below)

module _ {W : Type 0} where
  -- The events that are reported and of interest: `n` descriptors from `i` on in ascending order, for
  -- each of them reading before writing.
  abbrev pub events : Selector W → (ℕ → Bool) → (ℕ → Bool) → ℕ → ℕ → List Event
  events s slave_r slave_w zero i = []
  events s slave_r slave_w (suc n) i =
      at_most (wants_read (place s.fds i) && slave_r i) (reading i)
      ++ (at_most (wants_write (place s.fds i) && slave_w i) (writing i)
          ++ events s slave_r slave_w n (i + 1))

  abbrev pub happen : (Event → W → W) → List Event → W → W
  happen act [] w = w
  happen act (e ∷ es) w = happen act es (act e w)

  happen-append :
      (act : Event → W → W) (es fs : List Event) (w : W)
      → happen act (es ++ fs) w ≡ happen act fs (happen act es w)
  happen-append act [] fs w = refl
  happen-append act (e ∷ es) fs w = happen-append act es fs (act e w)

  module _ (fields : Handler W → Callbacks W) (s : Selector W) (full : IsFull s) (valid : IsValid s)
      (act : Event → W → W)
      (reads : (fd : ℕ) (item : Item W) (w : W)
        → place s.fds fd ≡ some item
        → item.interest.op_read ≡ true
        → call fields (fields item.handler).handle_read fd s w ≡ ok (s, act (reading fd) w))
      (writes : (fd : ℕ) (item : Item W) (w : W)
        → place s.fds fd ≡ some item
        → item.interest.op_write ≡ true
        → call fields (fields item.handler).handle_write fd s w ≡ ok (s, act (writing fd) w)) where
    quiet :
        (b : Bool) (e : Event) (w : W)
        → ◌≡◌ {A = Result (Selector W × W)}
            (ok (s, w))
            (ok (s, happen act (at_most (b && false) e) w))
    quiet true e w = refl
    quiet false e w = refl

    read_item-at_most :
        (slave_r : ℕ → Bool) (fd : ℕ) (item : Item W) (w : W)
        → place s.fds fd ≡ some item
        → read_item fields slave_r item s w
          ≡ ok (s, happen act (at_most (item.interest.op_read && slave_r fd) (reading fd)) w)
    read_item-at_most slave_r fd item w used =
        let own = valid.own_place fd item used in
        elim (Bool-cases (slave_r fd)) [
          | inl can ↦ elim (Bool-cases item.interest.op_read) [
            | inl wants ↦ rw (own, can, wants) (reads fd item w used wants)
            | inr idle ↦ rw (own, can, idle) refl
          ]
          | inr not_ready ↦ rw (own, not_ready) (quiet item.interest.op_read (reading fd) w)
        ]

    write_turn-at_most :
        (slave_w : ℕ → Bool) (fd : ℕ) (item : Item W) (w : W)
        → place s.fds fd ≡ some item
        → write_turn fields slave_w fd item.fd s (s, w)
          ≡ ok (s, happen act (at_most (item.interest.op_write && slave_w fd) (writing fd)) w)
    write_turn-at_most slave_w fd item w used =
        let own = valid.own_place fd item used in
        let found = load-place s.fds fd (place-length s.fds fd item used) in
        let same = equal_refl (length s.fds) in
        elim (Bool-cases (slave_w fd)) [
          | inl can ↦ elim (Bool-cases item.interest.op_write) [
            | inl wants ↦ rw (can, same, found, used, wants, own) (writes fd item w used wants)
            | inr idle ↦ rw (can, same, found, used, idle) refl
          ]
          | inr not_ready ↦ rw not_ready (quiet item.interest.op_write (writing fd) w)
        ]

    turn-events :
        (slave_r slave_w : ℕ → Bool) (fd : ℕ) (w : W)
        → fd < 1025
        → turn fields slave_r slave_w fd (place s.fds fd) s w
          ≡ ok (
            s,
            happen act
                (at_most (wants_write (place s.fds fd) && slave_w fd) (writing fd))
                (happen act (at_most (wants_read (place s.fds fd) && slave_r fd) (reading fd)) w),
          )
    turn-events slave_r slave_w fd w below = elim (Option-cases (place s.fds fd)) [
      | inl free ↦ rw free refl
      | inr (item, used) ↦
          rw used
            let after = happen act (at_most (item.interest.op_read && slave_r fd) (reading fd)) w in
              rw (read_item-at_most slave_r fd item w used)
                (write_turn-at_most slave_w fd item after used)
    ]

    iterate-events :
        (slave_r slave_w : ℕ → Bool) (n i : ℕ) (w : W)
        → i + n ≤ 1025
        → iterate fields n slave_r slave_w i s w
          ≡ ok (s, happen act (events s slave_r slave_w n i) w)
    unfolding iterate
    iterate-events slave_r slave_w zero i w h = refl
    iterate-events slave_r slave_w (suc n) i w h =
        let found = load-place s.fds i (omega (arith, full)) in
        let cell = place s.fds i in
        let first = at_most (wants_read cell && slave_r i) (reading i) in
        let second = at_most (wants_write cell && slave_w i) (writing i) in
        let later = events s slave_r slave_w n (i + 1) in
        let split =
          happen-append act first (second ++ later) w
          ∙ happen-append act second later (happen act first w) in
        rw (found, turn-events slave_r slave_w i w (omega arith))
          (iterate-events slave_r slave_w n (i + 1) (happen act second (happen act first w))
              (omega arith)
            ∙ ap (λ x. ok (s, x)) (sym split))

    -- On a table of full size that is valid, when the callbacks for reading and writing of items that
    -- have the interest do `act` and leave the selector, `handle_iteration` returns: it does `act` for
    -- the events that are reported and of interest, each once, the descriptors in ascending order and
    -- for each of them reading before writing.
    pub handle_iteration-events :
        (slave_r slave_w : ℕ → Bool) (w : W)
        → handle_iteration fields slave_r slave_w s w
          ≡ ok (s, happen act (events s slave_r slave_w (s.max_fd + 1) 0) w)
    unfolding handle_iteration
    handle_iteration-events slave_r slave_w w =
        let top = valid.in_table in
        iterate-events slave_r slave_w (s.max_fd + 1) 0 w (omega (arith, top, full))
