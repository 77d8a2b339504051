-- ===== src/Selector/Turn.antt =====
-- selector.c: a whole turn of the multiplexer.
use tpe_protos.Base.{ℕ, ◌+◌, arith, ℤ, true, some, List, [], ◌≡◌, refl, Result, ok, ◌>>=◌}
use tpe_protos.Selector.{success, Handler, Item, Selector}
use tpe_protos.Selector.Valid.{place, IsValid}
use tpe_protos.Selector.Operations.{IsFull}
use tpe_protos.Selector.Select.{
  Callbacks, Polled, ready, eagain, eintr, ebadf, other_error, call, iterate, handle_iteration,
  selector_select, notify_all,
}
use tpe_protos.Selector.Dispatch.{
  AreInTable, AllNotify, can_read, can_write, status_of, jobs_left, Returns, iterate-Returns,
  notifications-Returns,
}

module _ {W : Type 0} (fields : Handler W → Callbacks W) (P : Selector W → W → Type 0)
    (full : (s : Selector W) (w : W) → P s w → IsFull s)
    (valid : (s : Selector W) (w : W) → P s w → IsValid s) where
  -- The turn that only notifies the jobs.
  notified :
      (jobs : List ℤ) (s : Selector W) (w : W) (m : Result (Selector W × W))
      → Returns P m
      → AreInTable jobs
      → AllNotify fields P full valid jobs
      → (s' : Selector W) × (w' : W) × ((m >>= notify_all fields jobs) ≡ ok (success, [], s', w'))
        × P s' w'
  notified jobs s w m (r, e, h) ks bs =
      let (q, e', h') = notifications-Returns fields P full valid jobs r.0 r.1 h ks bs in
      (q.0, q.1, rw (e, e') refl, h')

  -- Let `P` hold of the selector and its world, and imply that the table is of full size and
  -- valid. When every callback for reading or writing, and that for an ended job of a descriptor that
  -- has one, returns and keeps `P`, called where the descriptor is in use and, for reading and
  -- writing, has the interest and is reported ready by pselect(2), then `selector_select` with jobs of descriptors in the table returns and
  -- keeps `P`. It fails only where pselect(2) does by an error other than EAGAIN and EINTR, and
  -- then the jobs are left.
  pub selector_select-Returns :
      (polled : Polled) (jobs : List ℤ) (s : Selector W) (w : W)
      → ((s' : Selector W) (w' : W) (fd : ℕ) (item : Item W)
          → P s' w'
          → place s'.fds fd ≡ some item
          → item.interest.op_read ≡ true
          → can_read polled fd ≡ true
          → Returns P (call fields (fields item.handler).handle_read fd s' w'))
      → ((s' : Selector W) (w' : W) (fd : ℕ) (item : Item W)
          → P s' w'
          → place s'.fds fd ≡ some item
          → item.interest.op_write ≡ true
          → can_write polled fd ≡ true
          → Returns P (call fields (fields item.handler).handle_write fd s' w'))
      → P s w
      → AreInTable jobs
      → AllNotify fields P full valid jobs
      → (s' : Selector W) × (w' : W) × (selector_select fields polled jobs s w
          ≡ ok (status_of polled, jobs_left polled jobs, s', w'))
        × P s' w'
  unfolding selector_select handle_iteration
  selector_select-Returns (ready a b) jobs s w reads writes h ks bs =
      let top = (valid s w h).in_table in
      let same = full s w h in
      notified jobs s w (iterate fields (s.max_fd + 1) a b 0 s w)
        (iterate-Returns fields P full valid (ready a b) reads writes (s.max_fd + 1) 0 s w h
          (omega (arith, top, same)))
        ks bs
  selector_select-Returns eagain jobs s w reads writes h ks bs =
      notified jobs s w (ok (s, w)) ((s, w), refl, h) ks bs
  selector_select-Returns eintr jobs s w reads writes h ks bs =
      notified jobs s w (ok (s, w)) ((s, w), refl, h) ks bs
  selector_select-Returns ebadf jobs s w reads writes h ks bs = (s, w, refl, h)
  selector_select-Returns other_error jobs s w reads writes h ks bs = (s, w, refl, h)
