-- ===== src/Selector/System.antt =====
-- selector.c: the functions that only call the system, with what it answers as arguments.
use Prim.Native.Nat.{bit_or}
use tpe_protos.Base.{ℕ, ℤ, pos, negsuc, Bool, true, Option, none, some, List, codes, if◌then◌else◌}
use tpe_protos.Selector.{Status, success, enomem, maxfd, iargs, io}

-- `selector_error`
unfoldable pub selector_error : Status → List ℕ
selector_error success = codes "Success"
selector_error enomem = codes "Not enough memory"
selector_error maxfd = codes "Can't handle any more file descriptors"
selector_error iargs = codes "Illegal argument"
selector_error io = codes "I/O error"
selector_error _ = codes "something failed"

-- `selector_init`: whether `sigprocmask` and `sigaction` succeed.
unfoldable pub selector_init : Bool → Bool → Status
selector_init true true = success
selector_init _ _ = io

abbrev pub o_nonblock : ℕ
o_nonblock = 2048

-- `selector_fd_set_nio`: the flags that `fcntl` reads, and whether it sets others.
unfoldable pub selector_fd_set_nio : Option ℕ → (ℕ → Bool) → ℤ
selector_fd_set_nio none sets = negsuc 0
selector_fd_set_nio (some flags) sets = if sets (bit_or flags o_nonblock) then pos 0 else negsuc 0
