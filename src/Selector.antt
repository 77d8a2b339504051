-- ===== src/Selector.antt =====
-- selector.c and selector.h: the table of descriptors of the multiplexer, and the sets that it hands
-- to pselect(2). The handlers' `handle_close` acts on a world `W` outside the selector.
pub mod Valid
pub mod Operations
pub mod Highest
pub mod Capacity
pub mod Select
pub mod System
pub mod Dispatch
pub mod Order
pub mod Turn
pub mod Destroy
mod Tests
use tpe_protos.Base.{
  ℕ, zero, suc, ◌+◌, ◌-◌, ◌/◌, ◌%◌, ◌^◌, ℤ, pos, negsuc, Bool, true, false, Option, none, some,
  List, [], ◌∷◌, ◌++◌, Result, ok, err, out_of_fuel, ◌>>=◌, ◌>>◌, assert, load, ltb, leb, ◌==◌,
  if◌then◌else◌, length, set, replicate,
}

-- `selector_status`
pub data Status : Type 0 where
  success enomem maxfd iargs fdinuse io : Status

-- `fd_interest`, a set of flags: `OP_NOOP` is neither of them.
pub record Interests : Type 0 where
  pub op_read : Bool
  pub op_write : Bool

pub record Handler (W : Type 0) : Type 0 where
  pub handle_close : Option (ℕ → W → Result W)

-- `struct item` in use. One that is not (`FD_UNUSED`) is `none` in the table.
pub record Item (W : Type 0) : Type 0 where
  pub fd : ℕ
  pub interest : Interests
  pub handler : Handler W

-- `struct fdselector` without its timeouts and its blocking jobs. The size of the table is its
-- length, and a null table is empty. An `fd_set` is the function of its bits.
pub record Selector (W : Type 0) : Type 0 where
  pub fds : List (Option (Item W))
  pub max_fd : ℕ
  pub master_r : ℕ → Bool
  pub master_w : ℕ → Bool

-- `FD_SETSIZE`
abbrev pub items_max_size : ℕ
items_max_size = 1024

-- The `while` loop of `next_capacity`, on fuel.
unfoldable pub count_bits : ℕ → ℕ → ℕ → Result ℕ
count_bits zero tmp bits = if tmp == 0 then ok bits else err out_of_fuel
count_bits (suc n) tmp bits =
    let rest = count_bits n (tmp / 2) (bits + 1) in if tmp == 0 then ok bits else rest

-- `next_capacity`; a `size_t` has 64 bits. Each round halves `tmp`, so `n` rounds are enough.
unfoldable pub next_capacity : ℕ → Result ℕ
unfolding count_bits
next_capacity n = count_bits n n 0 >>= λ bits.
    let tmp = (2 ^ bits) % (2 ^ 64) in
    assert (leb n tmp) >> ok ((if ltb items_max_size tmp then items_max_size else tmp) + 1)

-- `FD_SET` and `FD_CLR`
abbrev pub put_bit : (ℕ → Bool) → ℕ → Bool → ℕ → Bool
put_bit bits i b j = if j == i then b else bits j

-- `INVALID_FD`, on the number that a valid descriptor is.
abbrev pub valid_fd : ℤ → Option ℕ
valid_fd (pos n) = if ltb n items_max_size then some n else none
valid_fd (negsuc n) = none

module _ {W : Type 0} where
  -- `items_init`: the new places of a table that grows are not in use.
  abbrev pub items_init : List (Option (Item W)) → ℕ → List (Option (Item W))
  items_init fds size = fds ++ replicate (size - length fds) none

  -- `allocated` is whether `calloc` or `realloc` succeeds.
  unfoldable pub ensure_capacity : Bool → Selector W → ℕ → Result (Status × Selector W)
  unfolding next_capacity
  ensure_capacity allocated s n =
      let grown = next_capacity n >>= λ size.
      if allocated
      then ok (success, record s { fds = items_init s.fds size })
      else ok (enomem, s) in
      if ltb n (length s.fds)
      then ok (success, s)
      else if ltb items_max_size n
      then ok (maxfd, s)
      else grown

  -- `items_update_fdset_for_fd`
  abbrev pub items_update_fdset_for_fd : Selector W → ℕ → Interests → Selector W
  items_update_fdset_for_fd s fd i = record s {
    master_r = put_bit s.master_r fd i.op_read;
    master_w = put_bit s.master_w fd i.op_write;
  }

  -- The registration in the place `fd`.
  unfoldable pub occupy :
      Selector W → ℕ → Handler W → Interests → Option (Item W) → Status × Selector W
  occupy s fd handler interest (some item) = (fdinuse, s)
  occupy s fd handler interest none =
      let s' = record s {
        fds = set s.fds fd (some (record { fd = fd; interest = interest; handler = handler }));
        max_fd = if ltb s.max_fd fd then fd else s.max_fd;
      } in
      (success, items_update_fdset_for_fd s' fd interest)

  abbrev pub if_success :
      Status × Selector W
      → (Selector W → Result (Status × Selector W))
      → Result (Status × Selector W)
  if_success (success, s) next = next s
  if_success r next = ok r

  -- The part of `selector_register` behind the validation of its arguments.
  unfoldable pub register_fd :
      Bool → Selector W → ℕ → Handler W → Interests → Result (Status × Selector W)
  unfolding ensure_capacity occupy
  register_fd allocated s fd handler interest =
      let put =
        λ (s' : Selector W). load s'.fds fd >>= λ cell. ok (occupy s' fd handler interest cell) in
      let grown = ensure_capacity allocated s fd >>= λ r. if_success r put in
      if ltb (length s.fds) fd then grown else put s

  -- The validation of the arguments of `selector_register`.
  abbrev pub register_args :
      Bool → Selector W → Option ℕ → Option (Handler W) → Interests → Result (Status × Selector W)
  register_args allocated s (some fd) (some handler) interest =
      register_fd allocated s fd handler interest
  register_args allocated s _ _ interest = ok (iargs, s)

  -- `selector_register`
  unfoldable pub register :
      Bool → Selector W → ℤ → Option (Handler W) → Interests → Result (Status × Selector W)
  unfolding register_fd
  register allocated s fd handler interest =
      register_args allocated s (valid_fd fd) handler interest

  abbrev pub higher : Option (Item W) → ℕ → ℕ
  higher none m = m
  higher (some item) m = if ltb m item.fd then item.fd else m

  -- The loop of `items_max_fd`, with the rounds left, `i` and `max`.
  unfoldable pub max_loop : ℕ → ℕ → List (Option (Item W)) → ℕ → Result ℕ
  max_loop zero i fds m = ok m
  max_loop (suc n) i fds m = load fds i >>= λ cell. max_loop n (i + 1) fds (higher cell m)

  unfoldable pub items_max_fd : Selector W → Result ℕ
  unfolding max_loop
  items_max_fd s = max_loop (s.max_fd + 1) 0 s.fds 0

  abbrev pub call_close : Option (ℕ → W → Result W) → ℕ → W → Result W
  call_close none fd w = ok w
  call_close (some f) fd w = f fd w

  -- A used item is closed, no longer watched, and its place is not in use.
  unfoldable pub release : Selector W → ℕ → Option (Item W) → W → Result (Status × Selector W × W)
  unfolding items_max_fd
  release s fd none w = ok (iargs, s, w)
  release s fd (some item) w = call_close item.handler.handle_close item.fd w >>= λ w'.
      let s1 = items_update_fdset_for_fd s item.fd (record { op_read = false; op_write = false }) in
      let s2 = record s1 { fds = set s1.fds fd none } in
      items_max_fd s2 >>= λ m. ok (success, record s2 { max_fd = m }, w')

  abbrev pub unregister_args : Selector W → Option ℕ → W → Result (Status × Selector W × W)
  unregister_args s none w = ok (iargs, s, w)
  unregister_args s (some fd) w = load s.fds fd >>= λ cell. release s fd cell w

  -- `selector_unregister_fd`
  unfoldable pub unregister_fd : Selector W → ℤ → W → Result (Status × Selector W × W)
  unfolding release
  unregister_fd s fd w = unregister_args s (valid_fd fd) w

  unfoldable pub change : Selector W → ℕ → Interests → Option (Item W) → Status × Selector W
  change s fd i none = (iargs, s)
  change s fd i (some item) = (
    success,
    items_update_fdset_for_fd
        (record s { fds = set s.fds fd (some (record item { interest = i })) }) item.fd i,
  )

  abbrev pub set_interest_args : Selector W → Option ℕ → Interests → Result (Status × Selector W)
  set_interest_args s none i = ok (iargs, s)
  set_interest_args s (some fd) i = load s.fds fd >>= λ cell. ok (change s fd i cell)

  -- `selector_set_interest`
  unfoldable pub set_interest : Selector W → ℤ → Interests → Result (Status × Selector W)
  unfolding change
  set_interest s fd i = set_interest_args s (valid_fd fd) i

  -- The part of `selector_set_interest_key` for a key that is not null, whose descriptor is `fd`.
  abbrev pub set_interest_fd : Selector W → ℤ → Option ℕ → Interests → Result (Status × Selector W)
  set_interest_fd s fd none i = ok (iargs, s)
  set_interest_fd s fd (some n) i = set_interest s fd i

  -- `selector_set_interest_key`; of the key its selector and its descriptor are read, and a null
  -- key is `none`.
  abbrev pub set_interest_key : Selector W → Option ℤ → Interests → Result (Status × Selector W)
  set_interest_key s none i = ok (iargs, s)
  set_interest_key s (some fd) i = set_interest_fd s fd (valid_fd fd) i

  abbrev pub empty : Selector W
  empty = record { fds = []; max_fd = 0; master_r = λ _. false; master_w = λ _. false }

  abbrev pub when_success : Status × Selector W → Option (Selector W)
  when_success (success, s) = some s
  when_success r = none

  -- `selector_new`; `made` is whether `malloc` succeeds. A selector that gets no table is destroyed.
  unfoldable pub selector_new : Bool → Bool → ℕ → Result (Option (Selector W))
  unfolding ensure_capacity
  selector_new made allocated n =
      let sized = ensure_capacity allocated empty n >>= λ r. ok (when_success r) in
      if made then sized else ok none
