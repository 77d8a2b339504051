-- ===== src/Selector/Operations.antt =====
-- The operations of selector.c on a table of full size, which `selector_new(1024)` makes.
use tpe_protos.Base.{
  Option-cases, some-inj, ℕ, ◌≤◌, ◌<◌, ◌≡◌, refl, sym, ◌∙◌, Bool, false, Option, none, some, pos,
  ok, ltb, ◌==◌, if◌then◌else◌, length, length-set, inl, inr, ◌⊎◌, arith,
}
use mathlib.Core.Path.{subst}
use tpe_protos.Selector.{
  Status, success, iargs, fdinuse, Interests, Handler, Item, Selector, register, register_fd,
  occupy, set_interest, set_interest_key, change, valid_fd,
}
use tpe_protos.Selector.Valid.{
  place, load-place, place-set_other, ==-cases, IsValid, put, place-put, put-IsValid,
}

pub valid_fd-some : (fd : ℕ) → fd < 1024 → valid_fd (pos fd) ≡ some fd
valid_fd-some fd h = ground arith

fits : (fd : ℕ) → fd < 1024 → ltb 1025 fd ≡ false
fits fd h = ground arith

module _ {W : Type 0} where
  -- A table for every descriptor of pselect(2), and one more place.
  abbrev pub IsFull : Selector W → Type 0
  IsFull s = length s.fds ≡ 1025

  abbrev pub item_of : ℕ → Handler W → Interests → Item W
  item_of fd handler interest = record { fd = fd; interest = interest; handler = handler }

  abbrev pub max_with : Selector W → ℕ → ℕ
  max_with s fd = if ltb s.max_fd fd then fd else s.max_fd

  max_with-le : (s : Selector W) (fd : ℕ) → s.max_fd ≤ max_with s fd
  max_with-le s fd = ground arith

  max_with-le_fd : (s : Selector W) (fd : ℕ) → fd ≤ max_with s fd
  max_with-le_fd s fd = ground arith

  max_with-lt : (s : Selector W) (fd n : ℕ) → s.max_fd < n → fd < n → max_with s fd < n
  max_with-lt s fd n h k = ground arith

  register-occupy :
      (allocated : Bool) (s : Selector W) (fd : ℕ) (handler : Handler W) (interest : Interests)
      → IsFull s
      → fd < 1024
      → register allocated s (pos fd) (some handler) interest
        ≡ ok (occupy s fd handler interest (place s.fds fd))
  unfolding register register_fd
  register-occupy allocated s fd handler interest full h =
      let small : ltb (length s.fds) fd ≡ false = rw full (fits fd h) in
      rw (valid_fd-some fd h, small, load-place s.fds fd (rw full (omega arith))) refl

  -- The table with one place changed.
  abbrev pub Updates : Selector W → ℕ → Option (Item W) → Selector W → Type 0
  Updates s fd cell s' = (j : ℕ) → place s'.fds j ≡ (if j == fd then cell else place s.fds j)

  pub placed-IsValid :
      (s : Selector W) (fd : ℕ) (item : Item W)
      → IsValid s
      → fd < length s.fds
      → item.fd ≡ fd
      → IsValid (put s fd (some item) (max_with s fd))
  placed-IsValid s fd item v h own =
      put-IsValid s fd (some item) (max_with s fd) v h
        (λ i e. subst (λ x. x.fd ≡ fd) (some-inj e) own)
        (λ j i e. elim (==-cases j fd) [
          | inl (same, t) ↦ rw same (max_with-le_fd s fd)
          | inr (other, t) ↦ omega (
            arith,
            v.below_max j i (sym (place-set_other s.fds fd j (some item) other) ∙ e),
            max_with-le s fd,
          )
        ])
        (max_with-lt s fd (length s.fds) v.in_table h)

  -- What a registration of `fd` leaves, for what stood in its place.
  abbrev pub Registers : Selector W → ℕ → Item W → Status × Selector W → Type 0
  Registers s fd item r =
      ((place s.fds fd ≡ none) × (r.0 ≡ success) × Updates s fd (some item) r.1)
      ⊎ ((old : Item W) × (place s.fds fd ≡ some old) × (r.0 ≡ fdinuse) × (r.1 ≡ s))

  -- On a table of full size that is valid, `selector_register` of a descriptor below `FD_SETSIZE`
  -- returns. A descriptor that is not in use is registered, and only it; for one that is in use
  -- nothing changes. The table is valid again.
  pub register-Registers :
      (allocated : Bool) (s : Selector W) (fd : ℕ) (handler : Handler W) (interest : Interests)
      → IsFull s
      → IsValid s
      → fd < 1024
      → (r : Status × Selector W) × (register allocated s (pos fd) (some handler) interest ≡ ok r)
        × IsFull r.1
        × IsValid r.1
        × Registers s fd (item_of fd handler interest) r
  unfolding occupy
  register-Registers allocated s fd handler interest full v h =
      let below : fd < length s.fds = rw full (omega arith) in
      let item = item_of fd handler interest in
      let e = register-occupy allocated s fd handler interest full h in
      elim (Option-cases (place s.fds fd)) [
        | inl free ↦ (
          (success, put s fd (some item) (max_with s fd)),
          rw free at e,
          length-set s.fds fd (some item) ∙ full,
          placed-IsValid s fd item v below refl,
          inl (free, refl, λ j. place-put s fd (some item) (max_with s fd) j below),
        )
        | inr (old, used) ↦ ((fdinuse, s), rw used at e, full, v, inr (old, used, refl, refl))
      ]

  abbrev pub Changes : Selector W → ℕ → Interests → Status × Selector W → Type 0
  Changes s fd interest r =
      ((place s.fds fd ≡ none) × (r.0 ≡ iargs) × (r.1 ≡ s))
      ⊎ ((old : Item W) × (place s.fds fd ≡ some old)
          × (r.0 ≡ success)
          × Updates s fd (some (record old { interest = interest })) r.1)

  changed-IsValid :
      (s : Selector W) (fd : ℕ) (old item : Item W)
      → IsValid s
      → fd < length s.fds
      → place s.fds fd ≡ some old
      → item.fd ≡ old.fd
      → IsValid (put s fd (some item) s.max_fd)
  changed-IsValid s fd old item v h used same_fd =
      put-IsValid s fd (some item) s.max_fd v h
        (λ i e. subst (λ x. x.fd ≡ fd) (some-inj e) (same_fd ∙ v.own_place fd old used))
        (λ j i e. elim (==-cases j fd) [
          | inl (same, t) ↦ rw same (v.below_max fd old used)
          | inr (other, t) ↦
              v.below_max j i (sym (place-set_other s.fds fd j (some item) other) ∙ e)
        ])
        v.in_table

  -- On a table of full size that is valid, `selector_set_interest` of a descriptor below `FD_SETSIZE`
  -- returns, and `selector_set_interest_key` of a key of the descriptor returns the same. The interest of a descriptor in use is changed, and only it; for one that is not in use
  -- nothing changes. The table is valid again.
  pub set_interest-Changes :
      (s : Selector W) (fd : ℕ) (interest : Interests)
      → IsFull s
      → IsValid s
      → fd < 1024
      → (r : Status × Selector W) × (set_interest s (pos fd) interest ≡ ok r)
        × (set_interest_key s (some (pos fd)) interest ≡ ok r)
        × IsFull r.1
        × IsValid r.1
        × Changes s fd interest r
  unfolding set_interest change
  set_interest-Changes s fd interest full v h =
      let below : fd < length s.fds = rw full (omega arith) in
      let valid = valid_fd-some fd h in
      let found = load-place s.fds fd below in
      elim (Option-cases (place s.fds fd)) [
        | inl free ↦
            let e : set_interest s (pos fd) interest ≡ ok (iargs, s) =
              rw (valid, found, free) refl in
            ((iargs, s), e, rw valid e, full, v, inl (free, refl, refl))
        | inr (old, used) ↦
            let item : Item W = record old { interest = interest } in
            let s' = put s fd (some item) s.max_fd in
            let e : set_interest s (pos fd) interest ≡ ok (success, s') =
              rw (valid, found, used, v.own_place fd old used) refl in
            (
              (success, s'),
              e,
              rw valid e,
              length-set s.fds fd (some item) ∙ full,
              changed-IsValid s fd old item v below used refl,
              inr (old, used, refl, λ j. place-put s fd (some item) s.max_fd j below),
            )
      ]
