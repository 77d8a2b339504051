-- ===== src/Buffer/Queue.antt =====
-- A buffer refines a queue of bytes with a count of the room behind it.
use tpe_protos.Base.{
  ℕ, ◌-◌, ◌≡◌, refl, ap, sym, ◌∙◌, false, List, [], ◌∷◌, ◌++◌, arith, Result, ok, ◌>>=◌, length,
  if◌then◌else◌, ◌==◌,
}
use native.Mathlib.Decide.{dec_lt}
use tpe_protos.Buffer.{Buffer, compact, read, write}
use tpe_protos.Buffer.Valid.{
  IsValid, contents, room, advanced, read-advanced, write-Appended, write-full, read-empty,
  compact-IsValid, contents-compact, limit-compact, length-contents,
}

-- What a client asks of a buffer byte by byte.
pub data Op : Type 0 where
  put : ℕ → Op
  get : Op
  squeeze : Op

-- The abstract view: the bytes held, the room left, and the size.
pub record Queue : Type 0 where
  pub held : List ℕ
  pub free : ℕ
  pub size : ℕ

abbrev pub view : Buffer → Queue
view b = record { held = contents b; free = room b; size = b.limit }

-- A queue that becomes empty has all its room again.
abbrev pub refreshed : List ℕ → ℕ → ℕ → ℕ
refreshed [] size free = size
refreshed (c ∷ rest) size free = free

abbrev pub get_from : List ℕ → Queue → ℕ × Queue
get_from [] q = (0, q)
get_from (c ∷ rest) q = (c, record q { held = rest; free = refreshed rest q.size q.free })

-- A byte put into a full queue is dropped, an empty queue gives 0, and squeezing moves the room
-- in front of the bytes behind them.
abbrev pub queue_step : Op → Queue → ℕ × Queue
queue_step (put c) q =
    if q.free == 0 then (0, q) else (0, record q { held = q.held ++ (c ∷ []); free = q.free - 1 })
queue_step get q = get_from q.held q
queue_step squeeze q = (0, record q { free = q.size - length q.held })

-- The same of a buffer.
unfoldable pub buffer_step : Op → Buffer → Result (ℕ × Buffer)
buffer_step (put c) b = write b c >>= λ b'. ok (0, b')
buffer_step get b = read b
buffer_step squeeze b = ok (0, compact b)

abbrev pub queue_run : List Op → Queue → List ℕ × Queue
queue_run [] q = ([], q)
queue_run (op ∷ ops) q =
    let (c, q') = queue_step op q in let (cs, q'') = queue_run ops q' in (c ∷ cs, q'')

unfoldable pub buffer_run : List Op → Buffer → Result (List ℕ × Buffer)
unfolding buffer_step
buffer_run [] b = ok ([], b)
buffer_run (op ∷ ops) b = buffer_step op b >>= λ r. buffer_run ops r.1 >>= λ s. ok (r.0 ∷ s.0, s.1)

room-advanced :
    (b : Buffer) (c : ℕ) (rest : List ℕ)
    → IsValid b
    → contents b ≡ c ∷ rest
    → room (advanced b 1) ≡ refreshed rest b.limit (room b)
unfolding advanced compact
room-advanced b c [] v e = ground (arith, length-contents b v, ap length e)
room-advanced b c (d ∷ rest) v e = ground (arith, length-contents b v, ap length e)

view-eq :
    (b : Buffer) {w : List ℕ} {n m : ℕ}
    → contents b ≡ w
    → room b ≡ n
    → b.limit ≡ m
    → view b ≡ record { held = w; free = n; size = m }
view-eq b e f g = λ i. record { held = e i; free = f i; size = g i }

get-view :
    (b : Buffer) (w : List ℕ)
    → IsValid b
    → contents b ≡ w
    → (b' : Buffer) × (read b ≡ ok ((get_from w (view b)).0, b'))
      × IsValid b'
      × (view b' ≡ (get_from w (view b)).1)
get-view b [] v e = (b, read-empty b v e, v, refl)
get-view b (c ∷ rest) v e =
    let (got, f) = read-advanced b v e in
    let left : contents (advanced b 1) ≡ rest = rw e at f.left in
    (
      advanced b 1,
      got,
      f.valid,
      view-eq (advanced b 1) left (room-advanced b c rest v e) f.same_limit,
    )

put-view :
    (b : Buffer) (c : ℕ)
    → IsValid b
    → (b' : Buffer) × (write b c ≡ ok b') × IsValid b' × (view b' ≡ (queue_step (put c) (view b)).1)
put-view b c v = elim (dec_lt 0 (room b)) [
  | yes some_room ↦
      let (b', wrote, a) = write-Appended b c v some_room in
      let more : (room b == 0) ≡ false = ground arith in
      (b', wrote, a.valid, rw more (view-eq b' a.added (omega (arith, a.less_room)) a.same_limit))
  | no full ↦
      let none_left : room b ≡ 0 = omega arith in
      (b, write-full b c none_left, v, rw none_left refl)
]

put-reply : (q : Queue) (c : ℕ) → (queue_step (put c) q).0 ≡ 0
put-reply q c = ground arith

room-compact : (b : Buffer) → IsValid b → room (compact b) ≡ b.limit - length (contents b)
unfolding compact
room-compact b v = ground (arith, length-contents b v)

buffer_step-view :
    (op : Op) (b : Buffer)
    → IsValid b
    → (b' : Buffer) × (buffer_step op b ≡ ok ((queue_step op (view b)).0, b'))
      × IsValid b'
      × (view b' ≡ (queue_step op (view b)).1)
unfolding buffer_step
buffer_step-view (put c) b v =
    let (b', wrote, v', seen) = put-view b c v in
    (b', rw wrote (ap (λ x. ok (x, b')) (sym (put-reply (view b) c))), v', seen)
buffer_step-view get b v = get-view b (contents b) v refl
buffer_step-view squeeze b v = (
  compact b,
  refl,
  compact-IsValid b v,
  view-eq (compact b) (contents-compact b v) (room-compact b v) (limit-compact b),
)

-- Whatever bytes are put into a valid buffer and got from it, and whenever it is compacted, no
-- assertion fails, and the bytes got are those of a queue: in the order in which they were put,
-- those dropped left out that found no room.
pub buffer_run-view :
    (ops : List Op) (b : Buffer)
    → IsValid b
    → (b' : Buffer) × (buffer_run ops b ≡ ok ((queue_run ops (view b)).0, b'))
      × IsValid b'
      × (view b' ≡ (queue_run ops (view b)).1)
unfolding buffer_run
buffer_run-view [] b v = (b, refl, v, refl)
buffer_run-view (op ∷ ops) b v =
    let (b1, step, v1, seen) = buffer_step-view op b v in
    let (b2, rest, v2, last) = buffer_run-view ops b1 v1 in
    (b2, rw (step, rest, seen) refl, v2, last ∙ ap (λ q. (queue_run ops q).1) seen)
