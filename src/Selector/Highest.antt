-- ===== src/Selector/Highest.antt =====
-- `selector_unregister_fd` of selector.c, which computes the highest descriptor anew.
use tpe_protos.Base.{
  Option-cases, none-ne, ℕ, zero, suc, ◌+◌, ◌≤◌, ◌<◌, ◌≡◌, refl, sym, ◌∙◌, ap, Option, none, some,
  List, pos, Result, ok, err, length, set, length-set, inl, inr, ◌⊎◌, arith, Result-cases,
  Bool-cases, ltb,
}
use tpe_protos.Base.Fault.{Fault}
use tpe_protos.Selector.{
  Status, success, iargs, Item, Selector, unregister_fd, release, items_max_fd, max_loop, higher,
  call_close,
}
use tpe_protos.Selector.Valid.{
  place, load-place, place-set, place-set_other, ==-cases, IsValid, put, place-put, put-IsValid,
}
use tpe_protos.Selector.Operations.{IsFull, Updates, valid_fd-some}

module _ {W : Type 0} where
  -- Every item stands in the place of its descriptor.
  abbrev OwnPlaces : List (Option (Item W)) → Type 0
  OwnPlaces fds = (j : ℕ) (item : Item W) → place fds j ≡ some item → item.fd ≡ j

  higher-le : (cell : Option (Item W)) (m : ℕ) → m ≤ higher cell m
  higher-le none m = omega arith
  higher-le (some item) m = ground arith

  higher-le_fd : (item : Item W) (m : ℕ) → item.fd ≤ higher (some item) m
  higher-le_fd item m = ground arith

  higher-le_cell :
      (cell : Option (Item W)) (m : ℕ) (item : Item W) → cell ≡ some item → item.fd ≤ higher cell m
  higher-le_cell cell m item e = rw e (higher-le_fd item m)

  higher-lt :
      (cell : Option (Item W)) (m b : ℕ)
      → m < b
      → ((item : Item W) → cell ≡ some item → item.fd < b)
      → higher cell m < b
  higher-lt none m b h k = h
  higher-lt (some item) m b h k = let l = k item refl in ground arith

  higher-cases :
      (cell : Option (Item W)) (m : ℕ)
      → (higher cell m ≡ m) ⊎ ((item : Item W) × (cell ≡ some item) × (higher cell m ≡ item.fd))
  higher-cases none m = inl refl
  higher-cases (some item) m = elim (Bool-cases (ltb m item.fd)) [
    | inl less ↦ inr (item, refl, rw less refl)
    | inr other ↦ inl (rw other refl)
  ]

  -- `r` is `m`, or the place of a descriptor in use.
  abbrev IsOneOf : List (Option (Item W)) → ℕ → ℕ → Type 0
  IsOneOf fds m r = (r ≡ m) ⊎ ((item : Item W) × (place fds r ≡ some item))

  IsOneOf-higher :
      (fds : List (Option (Item W))) (i m r : ℕ)
      → OwnPlaces fds
      → IsOneOf fds (higher (place fds i) m) r
      → IsOneOf fds m r
  IsOneOf-higher fds i m r own (inr used) = inr used
  IsOneOf-higher fds i m r own (inl e) = elim (higher-cases (place fds i) m) [
    | inl low ↦ inl (e ∙ low)
    | inr (item, at, is) ↦ inr (item, ap (place fds) (e ∙ is ∙ own i item at) ∙ at)
  ]

  -- The loop returns a bound of the descriptors in use that it has passed, below that of them all,
  -- and one of them or `m`.
  max_loop-bound :
      (n i : ℕ) (fds : List (Option (Item W))) (m : ℕ)
      → OwnPlaces fds
      → i + n ≤ length fds
      → m < length fds
      → (r : ℕ) × (max_loop n i fds m ≡ ok r)
        × (m ≤ r)
        × (r < length fds)
        × ((j : ℕ) (item : Item W) → i ≤ j → j < i + n → place fds j ≡ some item → j ≤ r)
        × IsOneOf fds m r
  unfolding max_loop
  max_loop-bound zero i fds m own h l =
      (m, refl, omega arith, l, (λ j item a b e. absurd (omega arith)), inl refl)
  max_loop-bound (suc n) i fds m own h l =
      let low =
        higher-lt (place fds i) m (length fds) l (λ item e. let f = own i item e in omega arith) in
      let (r, e, above, below, passed, one) =
        max_loop-bound n (i + 1) fds (higher (place fds i) m) own (omega arith) low in
      (
        r,
        rw (load-place fds i (omega arith)) e,
        omega (arith, higher-le (place fds i) m, above),
        below,
        (λ j item a b at. elim (==-cases j i) [
          | inl (here, t) ↦
              let here_item : place fds i ≡ some item = ap (place fds) (sym here) ∙ at in
              let le = higher-le_cell (place fds i) m item here_item in
              omega (arith, le, own j item at, above)
          | inr (other, t) ↦ passed j item (omega (arith, other)) (omega arith) at
        ]),
        IsOneOf-higher fds i m r own one,
      )

  released-OwnPlaces :
      (s : Selector W) (fd : ℕ) → IsValid s → fd < length s.fds → OwnPlaces (set s.fds fd none)
  released-OwnPlaces s fd v h j item e = elim (==-cases j fd) [
    | inl (same, t) ↦ absurd (none-ne (sym (place-set s.fds fd none h) ∙ rw same at e))
    | inr (other, t) ↦ v.own_place j item (sym (place-set_other s.fds fd j none other) ∙ e)
  ]

  -- What `items_max_fd` returns for a table from which `fd` has been released bounds the rest.
  released-IsValid :
      (s : Selector W) (fd m : ℕ)
      → IsValid s
      → fd < length s.fds
      → m < length s.fds
      → ((j : ℕ) (item : Item W)
          → 0 ≤ j
          → j < 0 + (s.max_fd + 1)
          → place (set s.fds fd none) j ≡ some item
          → j ≤ m)
      → IsValid (put s fd none m)
  released-IsValid s fd m v h top passed =
      put-IsValid s fd none m v h (λ item e. absurd (none-ne e))
        (λ j item e. elim (==-cases j fd) [
          | inl (same, t) ↦ absurd (none-ne (sym (place-set s.fds fd none h) ∙ rw same at e))
          | inr (other, t) ↦
              let low = v.below_max j item (sym (place-set_other s.fds fd j none other) ∙ e) in
              passed j item (omega arith) (omega (arith, low)) e
        ])
        top

  -- `max_fd` is the highest descriptor in use, and 0 when none is.
  abbrev pub IsHighest : Selector W → Type 0
  IsHighest s =
      ((j : ℕ) (item : Item W) → place s.fds j ≡ some item → j ≤ s.max_fd)
      × IsOneOf s.fds 0 s.max_fd

  -- What an unregistration of `fd` is, for what stands in its place: an error code, the fault of the
  -- callback, or a table in which that place, and only that, is not in use.
  abbrev pub Releases : Selector W → ℕ → W → Result (Status × Selector W × W) → Type 0
  Releases s fd w out =
      ((place s.fds fd ≡ none) × (out ≡ ok (iargs, s, w)))
      ⊎ ((item : Item W) × (place s.fds fd ≡ some item)
          × (((f : Fault) × (call_close item.handler.handle_close fd w ≡ err f) × (out ≡ err f))
              ⊎ ((w' : W) × (call_close item.handler.handle_close fd w ≡ ok w')
                  × (s' : Selector W) × (out ≡ ok (success, s', w'))
                  × IsFull s'
                  × IsValid s'
                  × IsHighest s'
                  × Updates s fd none s')))

  -- On a table of full size that is valid, `selector_unregister_fd` of a descriptor in use calls its
  -- `handle_close` once, and then only that descriptor is not in use any more, the table is valid
  -- again and `max_fd` is the highest descriptor in use, or 0 when none is; for a descriptor that is not in use nothing changes.
  pub unregister_fd-Releases :
      (s : Selector W) (fd : ℕ) (w : W)
      → IsFull s
      → IsValid s
      → fd < 1024
      → Releases s fd w (unregister_fd s (pos fd) w)
  unfolding unregister_fd release items_max_fd
  unregister_fd-Releases s fd w full v h =
      let below : fd < length s.fds = rw full (omega arith) in
      let valid = valid_fd-some fd h in
      let found = load-place s.fds fd below in
      elim (Option-cases (place s.fds fd)) [
        | inl free ↦ inl (free, rw (valid, found, free) refl)
        | inr (item, used) ↦
            let own = v.own_place fd item used in
            elim (Result-cases (call_close item.handler.handle_close fd w)) [
              | inr (f, fault) ↦
                  inr (item, used, inl (f, fault, rw (valid, found, used, own, fault) refl))
              | inl (w', closed) ↦
                  let same = length-set s.fds fd none in
                  let (m, e, _, top, passed, one) =
                    max_loop-bound (s.max_fd + 1) 0 (set s.fds fd none) 0
                      (released-OwnPlaces s fd v below) (omega (arith, same, v.in_table))
                      (omega (arith, same, below)) in
                  let again = released-IsValid s fd m v below (omega (arith, same, top)) passed in
                  inr (
                    item,
                    used,
                    inr (
                      w',
                      closed,
                      put s fd none m,
                      rw (valid, found, used, own, closed, e, own) refl,
                      same ∙ full,
                      again,
                      (again.below_max, one),
                      λ j. place-put s fd none m j below,
                    ),
                  )
            ]
      ]
