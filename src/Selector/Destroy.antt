-- ===== src/Selector/Destroy.antt =====
-- selector.c: selector_destroy closes what is still registered.
use tpe_protos.Base.{
  ℕ, zero, suc, ◌+◌, ◌≤◌, ◌<◌, arith, false, Option, none, some, ◌≡◌, refl, sym, ap, ◌∙◌, inl, inr,
  Result, ok, ◌==◌, length, ok-inj, ok-ne_err,
}
use tpe_protos.Selector.{Item, Selector, call_close}
use tpe_protos.Selector.Valid.{place, load-place, IsValid, ==-cases}
use tpe_protos.Selector.Operations.{IsFull}
use tpe_protos.Selector.Highest.{unregister_fd-Releases}
use tpe_protos.Selector.Select.{close_item, close_each, selector_destroy}

not_same : (i j : ℕ) → i + 1 ≤ j → (j == i) ≡ false
not_same i j h = ground arith

module _ {W : Type 0} (close : ℕ → W → W) where
  abbrev pub close_used : Option (Item W) → ℕ → W → W
  close_used none i w = w
  close_used (some item) i w = close i w

  -- Each of `n` descriptors from `i` on that is in use is closed, in ascending order.
  abbrev pub close_all : (ℕ → Option (Item W)) → ℕ → ℕ → W → W
  close_all cells zero i w = w
  close_all cells (suc n) i w = close_all cells n (i + 1) (close_used (cells i) i w)

  module _ (s0 : Selector W)
      (closes : (fd : ℕ) (item : Item W) (w : W)
        → place s0.fds fd ≡ some item
        → call_close item.handler.handle_close fd w ≡ ok (close fd w)) where
    -- A selector behind the closing of the descriptors below `i`.
    record Behind (i : ℕ) (s : Selector W) : Type 0 where
      pub full : IsFull s
      pub valid : IsValid s
      pub later : (j : ℕ) → i ≤ j → place s.fds j ≡ place s0.fds j

    abbrev Closes : ℕ → W → Result (Selector W × W) → Type 0
    Closes i w m =
        (s' : Selector W) × (m ≡ ok (s', close_used (place s0.fds i) i w)) × Behind (i + 1) s'

    later-Behind :
        (i : ℕ) (s s' : Selector W)
        → Behind i s
        → IsFull s'
        → IsValid s'
        → ((j : ℕ) → (j == i) ≡ false → place s'.fds j ≡ place s.fds j)
        → Behind (i + 1) s'
    later-Behind i s s' h full valid same = record {
      full = full;
      valid = valid;
      later = λ j k. same j (not_same i j k) ∙ h.later j (omega arith);
    }

    free-Closes :
        (i : ℕ) (s : Selector W) (w : W)
        → Behind i s
        → place s.fds i ≡ none
        → Closes i w (close_item i (place s.fds i) s w)
    free-Closes i s w h free =
        let now = h.later i (omega arith) in
        (s, rw (sym now, free) refl, later-Behind i s s h h.full h.valid (λ j k. refl))

    close_item-Closes :
        (i : ℕ) (s : Selector W) (w : W)
        → Behind i s
        → i < 1024
        → Closes i w (close_item i (place s.fds i) s w)
    close_item-Closes i s w h below =
        let now = h.later i (omega arith) in
        elim (unregister_fd-Releases s i w h.full h.valid below) [
          | inl (free, e) ↦ free-Closes i s w h free
          | inr (item, used, inl (f, fault, e)) ↦
              absurd (ok-ne_err (sym fault ∙ closes i item w (sym now ∙ used)))
          | inr (item, used, inr (w', closed, s', e, full, valid, _, updates)) ↦ (
            s',
            rw (sym now, used, e)
                (ap (λ v. ok (s', v)) (ok-inj (sym closed ∙ closes i item w (sym now ∙ used)))),
            later-Behind i s s' h full valid (λ j k. updates j ∙ rw k refl),
          )
        ]

    module _ (last : place s0.fds 1024 ≡ none) where
      any-Closes :
          (i : ℕ) (s : Selector W) (w : W)
          → Behind i s
          → i < 1025
          → Closes i w (close_item i (place s.fds i) s w)
      any-Closes i s w h below = elim (==-cases i 1024) [
        | inl (same, _) ↦
            free-Closes i s w h (h.later i (omega arith) ∙ ap (place s0.fds) same ∙ last)
        | inr (other, t) ↦ close_item-Closes i s w h (omega (arith, other))
      ]

      close_each-close_all :
          (n i : ℕ) (s : Selector W) (w : W)
          → Behind i s
          → i + n ≤ 1025
          → (s' : Selector W) × (close_each n i s w ≡ ok (s', close_all (place s0.fds) n i w))
      unfolding close_each
      close_each-close_all zero i s w h k = (s, refl)
      close_each-close_all (suc n) i s w h k =
          let same : length s.fds ≡ 1025 = h.full in
          let found = load-place s.fds i (omega (arith, same)) in
          let (s', e, h') = any-Closes i s w h (omega arith) in
          let (s'', e') =
            close_each-close_all n (i + 1) s' (close_used (place s0.fds i) i w) h' (omega arith) in
          (s'', rw (found, e) e')

      -- On a table of full size that is valid and has its last place free, when the `handle_close` of
      -- each item does `close`, `selector_destroy` returns: every descriptor in use is closed once, in
      -- ascending order.
      pub selector_destroy-close_all :
          (w : W)
          → IsFull s0
          → IsValid s0
          → selector_destroy s0 w ≡ ok (close_all (place s0.fds) (length s0.fds) 0 w)
      unfolding selector_destroy
      selector_destroy-close_all w full valid =
          let start : Behind 0 s0 = record { full = full; valid = valid; later = λ j _. refl } in
          let (s', e) = close_each-close_all (length s0.fds) 0 s0 w start (omega (arith, full)) in
          rw e refl
