-- ===== src/Selector/Valid.antt =====
-- The invariant of the table of selector.c, and its operations on a table of full size.
use tpe_protos.Base.{
  equal→≡, ℕ, zero, suc, ◌≤◌, ◌<◌, ◌≡◌, ◌≢◌, refl, sym, ◌∙◌, ap, Bool, true, false, Option, none,
  some, List, [], ◌∷◌, ok, load, ◌==◌, if◌then◌else◌, length, set, length-set, Bool-cases, inl, inr,
  ◌⊎◌, arith,
}
use tpe_protos.Selector.{Item, Selector, put_bit}

module _ {A : Type 0} where
  -- What stands in a place of a table.
  abbrev pub place : List (Option A) → ℕ → Option A
  place [] i = none
  place (x ∷ xs) zero = x
  place (x ∷ xs) (suc i) = place xs i

  pub load-place : (xs : List (Option A)) (i : ℕ) → i < length xs → load xs i ≡ ok (place xs i)
  load-place [] i h = absurd (omega arith)
  load-place (x ∷ xs) zero h = refl
  load-place (x ∷ xs) (suc i) h = load-place xs i (omega arith)

  pub place-set :
      (xs : List (Option A)) (i : ℕ) (v : Option A) → i < length xs → place (set xs i v) i ≡ v
  place-set [] i v h = absurd (omega arith)
  place-set (x ∷ xs) zero v h = refl
  place-set (x ∷ xs) (suc i) v h = place-set xs i v (omega arith)

  pub place-set_other :
      (xs : List (Option A)) (i j : ℕ) (v : Option A) → j ≢ i → place (set xs i v) j ≡ place xs j
  place-set_other [] i j v h = refl
  place-set_other (x ∷ xs) zero zero v h = absurd (h refl)
  place-set_other (x ∷ xs) zero (suc j) v h = refl
  place-set_other (x ∷ xs) (suc i) zero v h = refl
  place-set_other (x ∷ xs) (suc i) (suc j) v h = place-set_other xs i j v (λ e. h (ap suc e))

differ→≢ : (j i : ℕ) → (j == i) ≡ false → j ≢ i
differ→≢ j i h = ground arith

pub ==-cases : (j i : ℕ) → ((j ≡ i) × ((j == i) ≡ true)) ⊎ ((j ≢ i) × ((j == i) ≡ false))
==-cases j i = elim (Bool-cases (j == i)) [
  | inl e ↦ inl (equal→≡ j i e, e)
  | inr e ↦ inr (differ→≢ j i e, e)
]

module _ {W : Type 0} where
  abbrev pub wants_read : Option (Item W) → Bool
  wants_read none = false
  wants_read (some item) = item.interest.op_read

  abbrev pub wants_write : Option (Item W) → Bool
  wants_write none = false
  wants_write (some item) = item.interest.op_write

  -- An item in use stands in the place of its descriptor, `max_fd` is not below it, and the sets for
  -- pselect(2) are the interests of the items.
  pub record IsValid (s : Selector W) : Type 0 where
    pub own_place : (i : ℕ) (item : Item W) → place s.fds i ≡ some item → item.fd ≡ i
    pub below_max : (i : ℕ) (item : Item W) → place s.fds i ≡ some item → i ≤ s.max_fd
    pub in_table : s.max_fd < length s.fds
    pub reading : (i : ℕ) → s.master_r i ≡ wants_read (place s.fds i)
    pub writing : (i : ℕ) → s.master_w i ≡ wants_write (place s.fds i)

  -- The place of `fd` now has `cell`, with its interests and `m` as the highest descriptor.
  abbrev pub put : Selector W → ℕ → Option (Item W) → ℕ → Selector W
  put s fd cell m = record {
    fds = set s.fds fd cell;
    max_fd = m;
    master_r = put_bit s.master_r fd (wants_read cell);
    master_w = put_bit s.master_w fd (wants_write cell);
  }

  pub place-put :
      (s : Selector W) (fd : ℕ) (cell : Option (Item W)) (m j : ℕ)
      → fd < length s.fds
      → place (put s fd cell m).fds j ≡ (if j == fd then cell else place s.fds j)
  place-put s fd cell m j h = elim (==-cases j fd) [
    | inl (same, e) ↦ rw (e, same) (place-set s.fds fd cell h)
    | inr (other, e) ↦ rw e (place-set_other s.fds fd j cell other)
  ]

  bits-put :
      (bits : ℕ → Bool) (f : Option (Item W) → Bool) (fds : List (Option (Item W))) (fd : ℕ)
      (cell : Option (Item W)) (j : ℕ)
      → fd < length fds
      → bits j ≡ f (place fds j)
      → put_bit bits fd (f cell) j ≡ f (place (set fds fd cell) j)
  bits-put bits f fds fd cell j h e = elim (==-cases j fd) [
    | inl (same, t) ↦ rw (t, same, place-set fds fd cell h) refl
    | inr (other, t) ↦ rw (t, place-set_other fds fd j cell other) e
  ]

  -- Such a change keeps the invariant when the item has its descriptor and `m` is not below any.
  pub put-IsValid :
      (s : Selector W) (fd : ℕ) (cell : Option (Item W)) (m : ℕ)
      → IsValid s
      → fd < length s.fds
      → ((item : Item W) → cell ≡ some item → item.fd ≡ fd)
      → ((j : ℕ) (item : Item W) → place (set s.fds fd cell) j ≡ some item → j ≤ m)
      → m < length s.fds
      → IsValid (put s fd cell m)
  put-IsValid s fd cell m v h own low top = record {
    own_place = λ i item e. elim (==-cases i fd) [
      | inl (same, t) ↦ rw same (own item (sym (place-set s.fds fd cell h) ∙ rw same at e))
      | inr (other, t) ↦ v.own_place i item (sym (place-set_other s.fds fd i cell other) ∙ e)
    ];
    below_max = low;
    in_table = rw (length-set s.fds fd cell) top;
    reading = λ i. bits-put s.master_r wants_read s.fds fd cell i h (v.reading i);
    writing = λ i. bits-put s.master_w wants_write s.fds fd cell i h (v.writing i);
  }
