-- ===== src/Selector/Dispatch.antt =====
-- selector.c: what one turn of the multiplexer asks of the callbacks.
use tpe_protos.Base.{
  ℕ, zero, suc, ◌+◌, ◌≤◌, ◌<◌, arith, ℤ, pos, negsuc, Bool, true, false, Option, none, some, List,
  [], ◌∷◌, ◌≡◌, refl, sym, ap, ◌∙◌, inl, inr, Result, ok, ◌>>=◌, load, ◌==◌, length, Bool-cases,
  Option-cases, equal_refl,
}
use tpe_protos.Selector.{Status, success, io, Handler, Item, Selector}
use tpe_protos.Selector.Valid.{place, load-place, IsValid}
use tpe_protos.Selector.Operations.{IsFull}
use tpe_protos.Selector.Select.{
  Callbacks, Polled, ready, ebadf, other_error, call, read_item, write_item, turn, iterate,
  call_block, notify, handle_block_notifications,
}

-- The descriptors of the jobs have a place in the table.
abbrev pub AreInTable : List ℤ → Type 0
AreInTable [] = Unit {0}
AreInTable (pos fd ∷ jobs) = (fd < 1025) × AreInTable jobs
AreInTable (negsuc n ∷ jobs) = ⊥

-- What pselect(2) has reported.
abbrev pub can_read : Polled → ℕ → Bool
can_read (ready slave_r slave_w) fd = slave_r fd
can_read _ fd = false

abbrev pub can_write : Polled → ℕ → Bool
can_write (ready slave_r slave_w) fd = slave_w fd
can_write _ fd = false

-- The status of a turn, and the jobs that are left.
abbrev pub status_of : Polled → Status
status_of ebadf = io
status_of other_error = io
status_of _ = success

abbrev pub jobs_left : Polled → List ℤ → List ℤ
jobs_left ebadf jobs = jobs
jobs_left other_error jobs = jobs
jobs_left _ jobs = []

-- A result that is there, and of which `P` holds.
abbrev pub Returns : {W : Type 0} → (Selector W → W → Type 0) → Result (Selector W × W) → Type 0
Returns {W} P m = (r : Selector W × W) × (m ≡ ok r) × P r.0 r.1

module _ {W : Type 0} (fields : Handler W → Callbacks W) (P : Selector W → W → Type 0)
    (full : (s : Selector W) (w : W) → P s w → IsFull s)
    (valid : (s : Selector W) (w : W) → P s w → IsValid s) where
  pub Returns-bind :
      (m : Result (Selector W × W)) (f : Selector W × W → Result (Selector W × W))
      → Returns P m
      → ((r : Selector W × W) → P r.0 r.1 → Returns P (f r))
      → Returns P (m >>= f)
  Returns-bind m f (r, e, h) k = rw e (k r h)

  in_full : (s : Selector W) (w : W) (i : ℕ) → P s w → i < 1025 → load s.fds i ≡ ok (place s.fds i)
  in_full s w i h k =
      let same : length s.fds ≡ 1025 = full s w h in load-place s.fds i (omega (arith, same))

  module _ (polled : Polled)
      (reads : (s : Selector W) (w : W) (fd : ℕ) (item : Item W)
        → P s w
        → place s.fds fd ≡ some item
        → item.interest.op_read ≡ true
        → can_read polled fd ≡ true
        → Returns P (call fields (fields item.handler).handle_read fd s w))
      (writes : (s : Selector W) (w : W) (fd : ℕ) (item : Item W)
        → P s w
        → place s.fds fd ≡ some item
        → item.interest.op_write ≡ true
        → can_write polled fd ≡ true
        → Returns P (call fields (fields item.handler).handle_write fd s w)) where
    read_item-Returns :
        (s : Selector W) (w : W) (fd : ℕ) (item : Item W)
        → P s w
        → place s.fds fd ≡ some item
        → Returns P (read_item fields (can_read polled) item s w)
    read_item-Returns s w fd item h used =
        let own = (valid s w h).own_place fd item used in
        elim (Bool-cases (can_read polled fd)) [
          | inl can ↦ elim (Bool-cases item.interest.op_read) [
            | inl wants ↦ rw (own, can, wants) (reads s w fd item h used wants can)
            | inr idle ↦ rw (own, can, idle) ((s, w), refl, h)
          ]
          | inr not_ready ↦ rw (own, not_ready) ((s, w), refl, h)
        ]

    write_item-Returns :
        (s : Selector W) (w : W) (fd : ℕ)
        → P s w
        → can_write polled fd ≡ true
        → Returns P (write_item fields (place s.fds fd) fd s w)
    write_item-Returns s w fd h can = elim (Option-cases (place s.fds fd)) [
      | inl free ↦ rw free ((s, w), refl, h)
      | inr (item, used) ↦ rw used (elim (Bool-cases item.interest.op_write) [
        | inl wants ↦ rw wants (writes s w fd item h used wants can)
        | inr idle ↦ rw idle ((s, w), refl, h)
      ])
    ]

    turn-Returns :
        (s : Selector W) (w : W) (fd : ℕ) (cell : Option (Item W))
        → P s w
        → fd < 1025
        → place s.fds fd ≡ cell
        → Returns P (turn fields (can_read polled) (can_write polled) fd cell s w)
    turn-Returns s w fd none h below used = ((s, w), refl, h)
    turn-Returns s w fd (some item) h below used =
        let own = (valid s w h).own_place fd item used in
        Returns-bind (read_item fields (can_read polled) item s w) _
          (read_item-Returns s w fd item h used)
          (λ r k. elim (Bool-cases (can_write polled fd)) [
            | inl can ↦
                let same : (length r.0.fds == length s.fds) ≡ true =
                  ap (λ n. n == length s.fds) (full r.0 r.1 k ∙ sym (full s w h))
                  ∙ equal_refl (length s.fds) in
                rw (can, same, in_full r.0 r.1 fd k below, own)
                  (write_item-Returns r.0 r.1 fd k can)
            | inr not_ready ↦ rw not_ready (r, refl, k)
          ])

    pub iterate-Returns :
        (n i : ℕ) (s : Selector W) (w : W)
        → P s w
        → i + n ≤ 1025
        → Returns P (iterate fields n (can_read polled) (can_write polled) i s w)
    unfolding iterate
    iterate-Returns zero i s w h k = ((s, w), refl, h)
    iterate-Returns (suc n) i s w h k =
        let found = in_full s w i h (omega arith) in
        let rest = iterate-Returns n (i + 1) in
        rw found (
          Returns-bind (turn fields (can_read polled) (can_write polled) i (place s.fds i) s w) _
            (turn-Returns s w i (place s.fds i) h (omega arith) refl)
            (λ r q. rest r.0 r.1 q (omega arith)))

  -- The callback for an ended job of each descriptor returns, called where it is in use.
  abbrev pub AllNotify : List ℤ → Type 0
  AllNotify [] = Unit {0}
  AllNotify (pos fd ∷ jobs) =
      ((s : Selector W) (w : W) (item : Item W)
        → P s w
        → place s.fds fd ≡ some item
        → Returns P (call_block fields (fields item.handler).handle_block fd s w))
      × AllNotify jobs
  AllNotify (negsuc n ∷ jobs) = AllNotify jobs

  notify-Returns :
      (s : Selector W) (w : W) (fd : ℕ)
      → ((s' : Selector W) (w' : W) (item : Item W)
          → P s' w'
          → place s'.fds fd ≡ some item
          → Returns P (call_block fields (fields item.handler).handle_block fd s' w'))
      → P s w
      → Returns P (notify fields (place s.fds fd) s w)
  notify-Returns s w fd blocks h = elim (Option-cases (place s.fds fd)) [
    | inl free ↦ rw free ((s, w), refl, h)
    | inr (item, used) ↦ rw (used, (valid s w h).own_place fd item used) (blocks s w item h used)
  ]

  pub notifications-Returns :
      (jobs : List ℤ) (s : Selector W) (w : W)
      → P s w
      → AreInTable jobs
      → AllNotify jobs
      → Returns P (handle_block_notifications fields jobs s w)
  unfolding handle_block_notifications
  notifications-Returns [] s w h k b = ((s, w), refl, h)
  notifications-Returns (pos fd ∷ jobs) s w h (below, ks) (block, bs) =
      rw (in_full s w fd h below) (
        Returns-bind (notify fields (place s.fds fd) s w) _ (notify-Returns s w fd block h)
          (λ r q. notifications-Returns jobs r.0 r.1 q ks bs))
  notifications-Returns (negsuc n ∷ jobs) s w h k b = elim k [ ]
