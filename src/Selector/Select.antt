-- ===== src/Selector/Select.antt =====
-- selector.c: one turn of the multiplexer. It dispatches what pselect(2) reports, and the blocking
-- jobs that have ended.
use tpe_protos.Base.{
  ℕ, zero, suc, ◌+◌, ℤ, pos, negsuc, Bool, true, false, Option, none, some, List, [], ◌∷◌, Result,
  ok, err, assert_failed, out_of_bounds, ◌>>=◌, load, ◌==◌, if◌then◌else◌, length,
}
use tpe_protos.Selector.{Status, success, enomem, io, Handler, Item, Selector, unregister_fd}

-- A callback gets the descriptor of its key, and may change the selector.
abbrev pub Callback : Type 0 → Type 0
Callback W = ℕ → Selector W → W → Result (Selector W × W)

-- The other fields of `fd_handler`.
pub record Callbacks (W : Type 0) : Type 0 where
  pub handle_read : Option (Callback W)
  pub handle_write : Option (Callback W)
  pub handle_block : Option (Callback W)

-- `selector_notify_block`: the list of ended jobs, each its descriptor; `allocated` is whether
-- `malloc` succeeds.
unfoldable pub selector_notify_block : Bool → List ℤ → ℤ → Status × List ℤ
selector_notify_block true jobs fd = (success, fd ∷ jobs)
selector_notify_block false jobs fd = (enomem, jobs)

-- What pselect(2) answers: the sets of the descriptors that can be read and written, or an error
-- by its number.
pub data Polled : Type 0 where
  ready : (ℕ → Bool) → (ℕ → Bool) → Polled
  eagain eintr ebadf other_error : Polled

module _ {W : Type 0} (fields : Handler W → Callbacks W) where
  -- A callback that is called when it must not be null.
  abbrev pub call : Option (Callback W) → Callback W
  call none fd s w = err assert_failed
  call (some f) fd s w = f fd s w

  abbrev pub read_item : (ℕ → Bool) → Item W → Selector W → W → Result (Selector W × W)
  read_item slave_r item s w =
      if slave_r item.fd
      then if item.interest.op_read
        then call (fields item.handler).handle_read item.fd s w
        else ok (s, w)
      else ok (s, w)

  -- An item that is not in use any more has no interest.
  abbrev pub write_item : Option (Item W) → ℕ → Selector W → W → Result (Selector W × W)
  write_item none fd s w = ok (s, w)
  write_item (some item) fd s w =
      if item.interest.op_write then call (fields item.handler).handle_write fd s w else ok (s, w)

  -- The item behind the callback: its pointer is void when the table has been moved.
  abbrev pub same_item : Selector W → Selector W → ℕ → Result (Option (Item W))
  same_item before s i =
      if length s.fds == length before.fds then load s.fds i else err out_of_bounds

  abbrev pub write_turn : (ℕ → Bool) → ℕ → ℕ → Selector W → Selector W × W → Result (Selector W × W)
  write_turn slave_w i fd before r =
      if slave_w i then (same_item before r.0 i >>= λ cell. write_item cell fd r.0 r.1) else ok r

  abbrev pub turn :
      (ℕ → Bool) → (ℕ → Bool) → ℕ → Option (Item W) → Selector W → W → Result (Selector W × W)
  turn slave_r slave_w i none s w = ok (s, w)
  turn slave_r slave_w i (some item) s w =
      read_item slave_r item s w >>= write_turn slave_w i item.fd s

  -- The loop of `handle_iteration`, with the rounds left and `i`.
  unfoldable pub iterate :
      ℕ → (ℕ → Bool) → (ℕ → Bool) → ℕ → Selector W → W → Result (Selector W × W)
  iterate zero slave_r slave_w i s w = ok (s, w)
  iterate (suc n) slave_r slave_w i s w = load s.fds i >>= λ cell.
      turn slave_r slave_w i cell s w >>= λ r. iterate n slave_r slave_w (i + 1) r.0 r.1

  unfoldable pub handle_iteration :
      (ℕ → Bool) → (ℕ → Bool) → Selector W → W → Result (Selector W × W)
  handle_iteration slave_r slave_w s w = iterate (s.max_fd + 1) slave_r slave_w 0 s w

  -- The place of a descriptor with no test of it.
  abbrev pub any_place : Selector W → ℤ → Result (Option (Item W))
  any_place s (pos fd) = load s.fds fd
  any_place s (negsuc n) = err out_of_bounds

  -- A null `handle_block` is called as any other.
  abbrev pub call_block : Option (Callback W) → Callback W
  call_block none fd s w = err out_of_bounds
  call_block (some f) fd s w = f fd s w

  abbrev pub notify : Option (Item W) → Selector W → W → Result (Selector W × W)
  notify none s w = ok (s, w)
  notify (some item) s w = call_block (fields item.handler).handle_block item.fd s w

  -- `handle_block_notifications`; the list of jobs is empty behind it.
  unfoldable pub handle_block_notifications : List ℤ → Selector W → W → Result (Selector W × W)
  handle_block_notifications [] s w = ok (s, w)
  handle_block_notifications (fd ∷ jobs) s w =
      any_place s fd >>= λ cell. notify cell s w >>= λ r. handle_block_notifications jobs r.0 r.1

  -- The jobs are notified when the turn has succeeded so far.
  abbrev pub notify_all : List ℤ → Selector W × W → Result (Status × List ℤ × Selector W × W)
  notify_all jobs r = handle_block_notifications jobs r.0 r.1 >>= λ q. ok (success, [], q.0, q.1)

  -- `selector_select` behind the answer of pselect(2): the status, the jobs that are left, and the
  -- selector with its world.
  unfoldable pub selector_select :
      Polled → List ℤ → Selector W → W → Result (Status × List ℤ × Selector W × W)
  selector_select (ready slave_r slave_w) jobs s w =
      handle_iteration slave_r slave_w s w >>= notify_all jobs
  selector_select eagain jobs s w = notify_all jobs (s, w)
  selector_select eintr jobs s w = notify_all jobs (s, w)
  selector_select ebadf jobs s w = ok (io, jobs, s, w)
  selector_select other_error jobs s w = ok (io, jobs, s, w)

module _ {W : Type 0} where
  abbrev pub close_item : ℕ → Option (Item W) → Selector W → W → Result (Selector W × W)
  close_item i none s w = ok (s, w)
  close_item i (some item) s w = unregister_fd s (pos i) w >>= λ r. ok (r.1, r.2)

  -- The loop of `selector_destroy`, with the rounds left and `i`.
  unfoldable pub close_each : ℕ → ℕ → Selector W → W → Result (Selector W × W)
  close_each zero i s w = ok (s, w)
  close_each (suc n) i s w =
      load s.fds i >>= λ cell. close_item i cell s w >>= λ r. close_each n (i + 1) r.0 r.1

  -- `selector_destroy` of a selector: what is left of the world; its memory is freed.
  unfoldable pub selector_destroy : Selector W → W → Result W
  unfolding close_each
  selector_destroy s w = close_each (length s.fds) 0 s w >>= λ r. ok r.1
