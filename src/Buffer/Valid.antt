-- ===== src/Buffer/Valid.antt =====
-- The representation invariant of a buffer, and the bytes that it holds.
use tpe_protos.Base.{
  false, pos, ℕ, suc, ◌+◌, ◌-◌, ◌≤◌, ◌<◌, ◌≡◌, List, [], ◌∷◌, ◌++◌, arith, ok, length, take, drop,
  length-append, length-take, length-drop, take-take_append, if◌then◌else◌, drop-drop, drop-take,
  ◌==◌, err, assert_failed, ltb, ap, set, length-set, take-set, drop-set, get_elem?-head, sym, ◌∙◌,
}
use tpe_protos.Buffer.{Buffer, can_read, read_ptr, read_adv, compact, move_down, read, write}

pub record IsValid (b : Buffer) : Type 0 where
  pub read_le : b.read_at ≤ b.write_at
  pub write_le : b.write_at ≤ b.limit
  pub in_memory : b.limit ≤ length b.bytes

-- The bytes written and not yet read, oldest first.
abbrev pub contents : Buffer → List ℕ
contents b = take (b.write_at - b.read_at) (drop b.read_at b.bytes)

-- The room left behind the write pointer.
abbrev pub room : Buffer → ℕ
room b = b.limit - b.write_at

length-move_down :
    (xs : List ℕ) (k n : ℕ) → k + n ≤ length xs → length (move_down xs k n) ≡ length xs
length-move_down xs k n h = omega (
  arith,
  length-append (take n (drop k xs)) (drop n xs),
  length-take n (drop k xs),
  length-drop k xs,
  length-drop n xs,
)

pub compact-IsValid : (b : Buffer) → IsValid b → IsValid (compact b)
unfolding compact
compact-IsValid b v = ground (arith, length-move_down b.bytes b.read_at (b.write_at - b.read_at))

pub limit-compact : (b : Buffer) → (compact b).limit ≡ b.limit
unfolding compact
limit-compact b = ground arith

pub contents-compact : (b : Buffer) → IsValid b → contents (compact b) ≡ contents b
unfolding compact
contents-compact b v = ground (
  arith,
  take-take_append (b.write_at - b.read_at) (drop b.read_at b.bytes)
      (drop (b.write_at - b.read_at) b.bytes),
  length-drop b.read_at b.bytes,
)

-- What an operation that consumes the first `n` bytes leaves.
pub record Consumed (n : ℕ) (b b' : Buffer) : Type 0 where
  pub valid : IsValid b'
  pub same_limit : b'.limit ≡ b.limit
  pub left : contents b' ≡ drop n (contents b)

pub length-contents : (b : Buffer) → IsValid b → length (contents b) ≡ b.write_at - b.read_at
length-contents b v = omega (
  arith,
  length-take (b.write_at - b.read_at) (drop b.read_at b.bytes),
  length-drop b.read_at b.bytes,
)

contents-advance :
    (b : Buffer) (n : ℕ) → contents (record b { read_at = b.read_at + n }) ≡ drop n (contents b)
contents-advance b n =
    let e : b.write_at - (b.read_at + n) ≡ b.write_at - b.read_at - n = omega arith in
    rw (drop-take, drop-drop, e)

-- Where `buffer_read_adv` leaves the pointers.
unfoldable pub advanced : Buffer → ℕ → Buffer
advanced b n =
    let b' = record b { read_at = b.read_at + n } in
    if b'.read_at == b'.write_at then compact b' else b'

advanced-Consumed :
    (b : Buffer) (n : ℕ) → IsValid b → n ≤ b.write_at - b.read_at → Consumed n b (advanced b n)
unfolding advanced
advanced-Consumed b n v h =
    let b' : Buffer = record b { read_at = b.read_at + n } in
    let v' : IsValid b' = omega arith in
    ground
      (arith, compact-IsValid b' v', limit-compact b', contents-compact b' v', contents-advance b n)

-- `buffer_read_adv` of at most the bytes held succeeds.
pub read_adv-Consumed :
    (b : Buffer) (n : ℕ)
    → IsValid b
    → n ≤ length (contents b)
    → (b' : Buffer) × (read_adv b (pos n) ≡ ok b') × Consumed n b b'
unfolding read_adv advanced
read_adv-Consumed b n v h = (
  advanced b n,
  ground (arith, length-contents b v),
  advanced-Consumed b n v (omega (arith, length-contents b v)),
)

-- `buffer_read_adv` past the bytes held fails its assertion.
pub read_adv-past :
    (b : Buffer) (n : ℕ)
    → IsValid b
    → length (contents b) < n
    → read_adv b (pos n) ≡ err assert_failed
unfolding read_adv
read_adv-past b n v h = ground (arith, length-contents b v)

pub read-advanced :
    (b : Buffer) {c : ℕ} {rest : List ℕ}
    → IsValid b
    → contents b ≡ c ∷ rest
    → (read b ≡ ok (c, advanced b 1)) × Consumed 1 b (advanced b 1)
unfolding read advanced
read-advanced b {c} {rest} v e =
    let held : length (contents b) ≡ suc (length rest) = ap length e in
    let one : 1 ≤ b.write_at - b.read_at = omega (arith, length-contents b v) in
    (
      ground (arith, get_elem?-head b.bytes b.read_at (b.write_at - b.read_at) e),
      advanced-Consumed b 1 v one,
    )

-- A buffer that holds bytes gives its oldest one.
pub read-Consumed :
    (b : Buffer) {c : ℕ} {rest : List ℕ}
    → IsValid b
    → contents b ≡ c ∷ rest
    → (b' : Buffer) × (read b ≡ ok (c, b')) × Consumed 1 b b'
read-Consumed b v e = let (e', f) = read-advanced b v e in (advanced b 1, e', f)

pub can_read-contents : (b : Buffer) → IsValid b → can_read b ≡ ltb 0 (length (contents b))
unfolding can_read
can_read-contents b v = ground (arith, length-contents b v)

pub read-empty : (b : Buffer) → IsValid b → contents b ≡ [] → read b ≡ ok (0, b)
unfolding read
read-empty b v e = ground (arith, length-contents b v, ap length e)

-- Where `buffer_write` leaves the buffer when there is room.
appended : Buffer → ℕ → Buffer
appended b c = record b { bytes = set b.bytes b.write_at c; write_at = b.write_at + 1 }

contents-appended :
    (b : Buffer) (c : ℕ) → IsValid b → 0 < room b → contents (appended b c) ≡ contents b ++ (c ∷ [])
unfolding appended
contents-appended b c v h =
    let at : b.read_at + (b.write_at - b.read_at) ≡ b.write_at = omega arith in
    let more : b.write_at + 1 - b.read_at ≡ suc (b.write_at - b.read_at) = omega arith in
    ap (λ k. take (b.write_at + 1 - b.read_at) (drop b.read_at (set b.bytes k c))) (sym at)
    ∙ ap (take (b.write_at + 1 - b.read_at)) (drop-set b.bytes b.read_at (b.write_at - b.read_at) c)
    ∙ rw more (
        take-set (drop b.read_at b.bytes) (b.write_at - b.read_at) c
          (omega (arith, length-drop b.read_at b.bytes)))

-- What an operation that appends one byte leaves.
pub record Appended (b : Buffer) (c : ℕ) (b' : Buffer) : Type 0 where
  pub valid : IsValid b'
  pub same_limit : b'.limit ≡ b.limit
  pub less_room : room b' + 1 ≡ room b
  pub added : contents b' ≡ contents b ++ (c ∷ [])

pub write-Appended :
    (b : Buffer) (c : ℕ)
    → IsValid b
    → 0 < room b
    → (b' : Buffer) × (write b c ≡ ok b') × Appended b c b'
unfolding write appended
write-Appended b c v h = (
  appended b c,
  ground (arith),
  ground (arith, length-set b.bytes b.write_at c, contents-appended b c v h),
)

-- A full buffer drops the byte and says nothing.
pub write-full : (b : Buffer) (c : ℕ) → room b ≡ 0 → write b c ≡ ok b
unfolding write
write-full b c h = ground arith

-- `buffer_read_ptr` gives the bytes held.
pub read_ptr-contents :
    (b : Buffer) → IsValid b → read_ptr b ≡ ok (b.read_at, b.write_at - b.read_at)
unfolding read_ptr
read_ptr-contents b v = ground arith

-- A buffer that is emptied starts anew.
pub read_adv-start :
    (b : Buffer) (n : ℕ) {b' : Buffer}
    → IsValid b
    → read_adv b (pos n) ≡ ok b'
    → can_read b' ≡ false
    → b'.write_at ≡ 0
unfolding read_adv can_read compact
read_adv-start b n v e h = ground arith
