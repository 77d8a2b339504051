-- ===== src/Selector/Capacity.antt =====
-- The size to which the table of selector.c grows.
use tpe_protos.Base.{
  none-ne, equal→≡, ltb-false, Option, none, some, [], length, replicate, length-replicate, ℕ, zero,
  suc, ◌+◌, ◌-◌, ◌*◌, ◌/◌, ◌%◌, ◌^◌, ◌≤◌, ◌<◌, ◌≡◌, refl, sym, ◌∙◌, ap, true, false, ok, ltb, leb,
  ◌==◌, Bool-cases, inl, inr, ◌⊎◌, arith,
}
use native.Mathlib.Omega.{pow_step}
use tpe_protos.Selector.Valid.{place, IsValid}
use tpe_protos.Selector.{
  Item, Selector, empty, items_init, selector_new, ensure_capacity, count_bits, next_capacity,
  items_max_size,
}

-- The bits of `tmp` that the loop counts.
abbrev IsBits : ℕ → ℕ → Type 0
IsBits tmp k = (tmp < 2 ^ k) × ((tmp ≡ 0) × (k ≡ 0) ⊎ (0 < tmp) × (2 ^ k ≤ 2 * tmp))

IsBits-half : (tmp k : ℕ) → 0 < tmp → IsBits (tmp / 2) k → IsBits tmp (suc k)
IsBits-half tmp k h (low, inl (none_left, no_bits)) = rw no_bits (omega arith, inr (h, omega arith))
IsBits-half tmp k h (low, inr (some_left, high)) =
    let e = pow_step 2 k in (omega (arith, e), inr (h, omega (arith, e)))

positive : (a : ℕ) → (a == 0) ≡ false → 0 < a
positive a h = ground arith

count_bits-IsBits :
    (n tmp bits : ℕ) → tmp ≤ n → (k : ℕ) × (count_bits n tmp bits ≡ ok (bits + k)) × IsBits tmp k
unfolding count_bits
count_bits-IsBits zero tmp bits h =
    let e : tmp ≡ 0 = omega arith in (0, rw e (ap ok (omega arith)), (omega arith, inl (e, refl)))
count_bits-IsBits (suc n) tmp bits h = elim (Bool-cases (tmp == 0)) [
  | inl z ↦
      (let none_left = equal→≡ tmp 0 z in
        (0, rw z (ap ok (omega arith)), (omega (arith, none_left), inl (none_left, refl))))
  | inr nz ↦
      let above = positive tmp nz in
      let (k, e, b) = count_bits-IsBits n (tmp / 2) (bits + 1) (omega (arith, above)) in
      (suc k, rw nz (e ∙ ap ok (omega arith)), IsBits-half tmp k above b)
]

IsBits-le : (n k : ℕ) → n ≤ 1024 → IsBits n k → 2 ^ k ≤ 2048
IsBits-le n k h (low, inl (none_left, no_bits)) = rw no_bits (omega arith)
IsBits-le n k h (low, inr (some_left, high)) = omega arith

wide : (a : ℕ) → a ≤ 2048 → a % (2 ^ 64) ≡ a
wide a h = omega arith

fits_bits : (a b : ℕ) → a < b → leb a b ≡ true
fits_bits a b h = ground arith

-- `next_capacity` of a size that the platform allows returns, above that size, and at most one more
-- than the platform allows.
pub next_capacity-bounds :
    (n : ℕ) → n ≤ 1024 → (m : ℕ) × (next_capacity n ≡ ok m) × (n < m) × (m ≤ 1025)
unfolding next_capacity
next_capacity-bounds n h =
    let (k, e, (low, size)) = count_bits-IsBits n n 0 (omega arith) in
    let found : count_bits n n 0 ≡ ok k = e ∙ ap ok (omega arith) in
    let le = IsBits-le n k h (low, size) in
    let small : (2 ^ k) % (2 ^ 64) ≡ 2 ^ k = wide (2 ^ k) le in
    let fit : leb n (2 ^ k) ≡ true = fits_bits n (2 ^ k) low in
    elim (Bool-cases (ltb items_max_size (2 ^ k))) [
      | inl big ↦ (1025, rw (found, small, fit, big) refl, omega arith, omega arith)
      | inr low_enough ↦ (
        2 ^ k + 1,
        rw (found, small, fit, low_enough) refl,
        omega arith,
        (let l = ltb-false items_max_size (2 ^ k) low_enough in omega (arith, l)),
      )
    ]

not_below : (n : ℕ) → ltb n 0 ≡ false
not_below n = ground arith

not_above : (n : ℕ) → n ≤ 1024 → ltb items_max_size n ≡ false
not_above n h = ground arith

pub place-replicate : {A : Type 0} (n i : ℕ) → place {A = A} (replicate n none) i ≡ none
place-replicate zero i = refl
place-replicate (suc n) zero = refl
place-replicate (suc n) (suc i) = place-replicate n i

module _ {W : Type 0} where
  -- A table of `m` places that are not in use.
  abbrev pub blank : ℕ → Selector W
  blank m = record empty { fds = items_init [] m }

  pub blank-IsValid : (m : ℕ) → 0 < m → IsValid (blank m)
  blank-IsValid m h = record {
    own_place = λ i item e. absurd (none-ne (sym (place-replicate (m - 0) i) ∙ e));
    below_max = λ i item e. absurd (none-ne (sym (place-replicate (m - 0) i) ∙ e));
    in_table = omega (arith, length-replicate {A = Option (Item W)} (m - 0) none);
    reading = λ i. rw (place-replicate {A = Item W} (m - 0) i) refl;
    writing = λ i. rw (place-replicate {A = Item W} (m - 0) i) refl;
  }

  -- With memory for it, `selector_new` makes a valid table with a place for each descriptor up to the
  -- size that it is asked for, when that is at most `FD_SETSIZE`.
  pub selector_new-IsValid :
      (n : ℕ)
      → n ≤ 1024
      → (s : Selector W) × (selector_new true true n ≡ ok (some s)) × IsValid s × (n < length s.fds)
  unfolding selector_new ensure_capacity
  selector_new-IsValid n h =
      let (m, e, low, high) = next_capacity-bounds n h in
      let none_yet : ltb n 0 ≡ false = not_below n in
      let allowed : ltb items_max_size n ≡ false = not_above n h in
      (
        blank m,
        rw (none_yet, allowed, e) refl,
        blank-IsValid m (omega arith),
        omega (arith, length-replicate {A = Option (Item W)} (m - 0) none, low),
      )
