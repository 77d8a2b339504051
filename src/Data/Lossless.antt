-- ===== src/Data/Lossless.antt =====
-- No byte of the text is lost while the data buffer has room.
use mathlib.Core.Path.{subst, ap₂}
use native.Mathlib.Decide.{dec_lt}
use tpe_protos.Base.{
  ℕ, ◌+◌, ◌-◌, ◌≤◌, ◌≡◌, ◌≢◌, refl, sym, ap, ◌∙◌, Bool-cases, inl, inr, false, List, [], ◌∷◌, ◌++◌,
  length, Result, ok, err, if◌then◌else◌, arith, ◌==◌, append_assoc, append-nil, length-append,
  take, take-nil, take-append, take_all,
}
use tpe_protos.Buffer.{Buffer, write}
use tpe_protos.Buffer.Valid.{IsValid, contents, room, write-Appended, write-full}
use tpe_protos.Data.{
  State, data_, cr, crlf, crlfdot, crlfdotcr, done, Parser, Outcome, write_each, emit, feed_in,
  feed, is_done, consume,
}
use tpe_protos.Data.Refine.{run, Refines, consume-Refines}

-- The bytes that the parser has read and not yet written: the part of the end mark seen so far.
abbrev pub pending : State → List ℕ
pending data_ = []
pending cr = b'\r' ∷ []
pending crlf = b'\r' ∷ b'\n' ∷ []
pending crlfdot = b'\r' ∷ b'\n' ∷ b'.' ∷ []
pending crlfdotcr = b'\r' ∷ b'\n' ∷ b'.' ∷ b'\r' ∷ []
pending done = b'\r' ∷ b'\n' ∷ b'.' ∷ b'\r' ∷ b'\n' ∷ []

-- `b'` holds what `b` held, and then as much of `w` as there was room for.
pub record Extends (w : List ℕ) (b b' : Buffer) : Type 0 where
  pub valid : IsValid b'
  pub same_limit : b'.limit ≡ b.limit
  pub less_room : room b' ≡ room b - length w
  pub held : contents b' ≡ contents b ++ take (room b) w

pub Extends-nil : {b : Buffer} → IsValid b → Extends [] b b
Extends-nil {b} v = record {
  valid = v;
  same_limit = refl;
  less_room = omega arith;
  held = sym (ap (λ l. contents b ++ l) (take-nil (room b)) ∙ append-nil (contents b));
}

pub Extends-append :
    (u w : List ℕ) {b b1 b2 : Buffer} → Extends u b b1 → Extends w b1 b2 → Extends (u ++ w) b b2
Extends-append u w {b} {b1} {b2} e f = record {
  valid = f.valid;
  same_limit = f.same_limit ∙ e.same_limit;
  less_room = omega (arith, e.less_room, f.less_room, length-append u w);
  held =
      f.held
      ∙ ap (λ l. l ++ take (room b1) w) e.held
      ∙ append_assoc (contents b) (take (room b) u) (take (room b1) w)
      ∙ ap (λ n. contents b ++ (take (room b) u ++ take n w)) e.less_room
      ∙ ap (λ l. contents b ++ l) (sym (take-append (room b) u w));
}

write-Extends :
    (c : ℕ) (b : Buffer) → IsValid b → (b' : Buffer) × (write b c ≡ ok b') × Extends (c ∷ []) b b'
write-Extends c b v = elim (dec_lt 0 (room b)) [
  | yes some_room ↦
      let (b', wrote, a) = write-Appended b c v some_room in
      (
        b',
        wrote,
        record {
          valid = a.valid;
          same_limit = a.same_limit;
          less_room = omega (arith, a.less_room);
          held =
              a.added ∙ ap (λ l. contents b ++ l) (sym (take_all (room b) (c ∷ []) (omega arith)));
        },
      )
  | no full ↦
      let none_left : room b ≡ 0 = omega arith in
      (
        b,
        write-full b c none_left,
        record {
          valid = v;
          same_limit = refl;
          less_room = omega arith;
          held = sym (ap (λ n. contents b ++ take n (c ∷ [])) none_left ∙ append-nil (contents b));
        },
      )
]

write_each-Extends :
    (w : List ℕ) (b : Buffer)
    → IsValid b
    → (b' : Buffer) × (write_each w b ≡ ok b') × Extends w b b'
unfolding write_each
write_each-Extends [] b v = (b, refl, Extends-nil v)
write_each-Extends (c ∷ w) b v =
    let (b1, wrote, e) = write-Extends c b v in
    let (b2, rest, f) = write_each-Extends w b1 e.valid in
    (b2, rw wrote rest, Extends-append (c ∷ []) w e f)

-- What a step writes.
abbrev pub written : State → ℕ → List ℕ
written data_ c = if c == b'\r' then [] else c ∷ []
written cr c = if c == b'\n' then [] else b'\r' ∷ c ∷ []
written crlf c = if c == b'.' then [] else b'\r' ∷ b'\n' ∷ c ∷ []
written crlfdot c = if c == b'\r' then [] else b'\r' ∷ b'\n' ∷ b'.' ∷ c ∷ []
written crlfdotcr c = if c == b'\n' then [] else b'\r' ∷ b'\n' ∷ b'.' ∷ b'\r' ∷ c ∷ []
written done c = []

abbrev pub next : State → ℕ → State
next data_ c = if c == b'\r' then cr else data_
next cr c = if c == b'\n' then crlf else data_
next crlf c = if c == b'.' then crlfdot else data_
next crlfdot c = if c == b'\r' then crlfdotcr else data_
next crlfdotcr c = if c == b'\n' then done else data_
next done c = done

pub feed_in-emit :
    (s : State) (p : Parser) (c : ℕ) → feed_in s p c ≡ emit (next s c) (written s c) p
unfolding feed_in emit write_each
feed_in-emit data_ p c = ground arith
feed_in-emit _ p c = ground arith

-- A step writes what it no longer keeps back.
pending-written :
    (s : State) (c : ℕ) → s ≢ done → pending s ++ (c ∷ []) ≡ written s c ++ pending (next s c)
pending-written done c ne = absurd (ne refl)
pending-written _ c ne = ground arith

pending-shift :
    (s : State) (c : ℕ) (w : List ℕ)
    → s ≢ done
    → pending s ++ (c ∷ w) ≡ written s c ++ (pending (next s c) ++ w)
pending-shift s c w ne =
    sym (append_assoc (pending s) (c ∷ []) w)
    ∙ ap (λ l. l ++ w) (pending-written s c ne)
    ∙ append_assoc (written s c) (pending (next s c)) w

pub ne-done : (s : State) → is_done s ≡ false → s ≢ done
ne-done done h e = cc
ne-done _ h e = cc

-- The automaton without its buffer: the state in which it stops, what it writes, and what it
-- leaves unread.
abbrev pub scan : State → List ℕ → State × List ℕ × List ℕ
scan s [] = (s, [], [])
scan s (c ∷ w) =
    let s' = next s c in
    let (t, out, rest) = scan s' w in
    if is_done s' then (s', written s c, w) else (t, written s c ++ out, rest)

-- Every byte that the automaton reads is written or kept back.
pub scan-lossless :
    (s : State) (w : List ℕ)
    → s ≢ done
    → pending s ++ w ≡ (scan s w).1 ++ (pending (scan s w).0 ++ (scan s w).2)
scan-lossless s [] ne = refl
scan-lossless s (c ∷ w) ne = elim (Bool-cases (is_done (next s c))) [
  | inl stop ↦ rw stop (pending-shift s c w ne)
  | inr more ↦ rw more (
      pending-shift s c w ne
      ∙ ap (λ l. written s c ++ l) (scan-lossless (next s c) w (ne-done (next s c) more))
      ∙ sym (
          append_assoc (written s c) (scan (next s c) w).1
            (pending (scan (next s c) w).0 ++ (scan (next s c) w).2)))
]

-- What the parser has done with the bytes `w`.
pub record Copies (p : Parser) (w : List ℕ) (p' : Parser) (rest : List ℕ) : Type 0 where
  pub runs : run w p ≡ ok (p', rest)
  pub extends : Extends (scan p.state w).1 p.data_buffer p'.data_buffer
  pub ends : p'.state ≡ (scan p.state w).0
  pub leaves : rest ≡ (scan p.state w).2

feed-Extends :
    (p : Parser) (c : ℕ)
    → IsValid p.data_buffer
    → (b : Buffer) × (feed p c ≡ ok (record { data_buffer = b; state = next p.state c }))
      × Extends (written p.state c) p.data_buffer b
unfolding feed emit
feed-Extends p c v =
    let (b, wrote, e) = write_each-Extends (written p.state c) p.data_buffer v in
    (b, feed_in-emit p.state p c ∙ rw wrote refl, e)

-- The parser never faults: it goes through the states of the automaton, writes what the automaton
-- writes as far as there is room, and leaves the bytes that the automaton leaves.
pub run-Copies :
    (w : List ℕ) (p : Parser)
    → IsValid p.data_buffer
    → (p' : Parser) × (rest : List ℕ) × Copies p w p' rest
unfolding run
run-Copies [] p v =
    (p, [], record { runs = refl; extends = Extends-nil v; ends = refl; leaves = refl })
run-Copies (c ∷ w) p v = elim (Bool-cases (is_done (next p.state c))) [
  | inl stop ↦
      let (b, fed, e) = feed-Extends p c v in
      (
        record { data_buffer = b; state = next p.state c },
        w,
        record {
          runs = rw (fed, stop) refl;
          extends = rw stop e;
          ends = rw stop refl;
          leaves = rw stop refl;
        },
      )
  | inr more ↦
      let (b, fed, e) = feed-Extends p c v in
      let (p', rest, f) =
        run-Copies w (record { data_buffer = b; state = next p.state c }) e.valid in
      (
        p',
        rest,
        record {
          runs = rw (fed, more) f.runs;
          extends =
              rw more (Extends-append (written p.state c) (scan (next p.state c) w).1 e f.extends);
          ends = rw more f.ends;
          leaves = rw more f.leaves;
        },
      )
]

length-scan :
    (s : State) (w : List ℕ) → s ≢ done → length (scan s w).1 ≤ length (pending s) + length w
length-scan s w ne =
    let (t, out, rest) = scan s w in
    omega (
      arith,
      ap length (scan-lossless s w ne),
      length-append (pending s) w,
      length-append out (pending t ++ rest),
    )

length-pending : (s : State) → s ≢ done → length (pending s) ≤ 4
length-pending done ne = absurd (ne refl)
length-pending _ ne = omega arith

scan_rest : (s : State) (w : List ℕ) → is_done (scan s w).0 ≡ false → (scan s w).2 ≡ []
scan_rest s [] h = refl
scan_rest s (c ∷ w) h = elim (Bool-cases (is_done (next s c))) [
  | inl stop ↦ let k : is_done (next s c) ≡ false = rw stop at h in cc
  | inr more ↦ rw more (scan_rest (next s c) w (rw more at h))
]

Refines-ok :
    {limit : ℕ} {p : Parser} {rest : List ℕ} (r : Result Outcome)
    → Refines limit (ok (p, rest)) r
    → (o : Outcome) × (r ≡ ok o)
      × (o.p ≡ p)
      × (o.st ≡ p.state)
      × (contents o.b ≡ rest)
      × IsValid o.b
      × (o.b.limit ≡ limit)
Refines-ok (ok o) h = (o, refl, h.0, h.1, h.2, h.3, h.4)
Refines-ok (err f) h = absurd h

-- What a call of `data_consume` has done, in terms of the automaton.
pub record Scans (b : Buffer) (p : Parser) (o : Outcome) : Type 0 where
  pub valid : IsValid o.b
  pub extends : Extends (scan p.state (contents b)).1 p.data_buffer o.p.data_buffer
  pub ends : o.p.state ≡ (scan p.state (contents b)).0
  pub returns : o.st ≡ o.p.state
  pub leaves : contents o.b ≡ (scan p.state (contents b)).2

-- `data_consume` on valid buffers never faults: it goes through the states of the automaton over
-- the bytes of the buffer, appends to the data buffer what the automaton writes, as far as there is
-- room, leaves in the buffer what the automaton leaves, and returns the state of the parser.
pub consume-Scans :
    (b : Buffer) (p : Parser)
    → IsValid b
    → IsValid p.data_buffer
    → (o : Outcome) × (consume b p ≡ ok o) × Scans b p o
consume-Scans b p v vd =
    let (p', rest, f) = run-Copies (contents b) p vd in
    let (o, e, same, st, left, ov, lim) =
      Refines-ok (consume b p)
        (subst (λ r. Refines b.limit r (consume b p)) f.runs (consume-Refines b p v)) in
    (
      o,
      e,
      record {
        valid = ov;
        extends = rw same f.extends;
        ends = rw same f.ends;
        returns = rw same st;
        leaves = left ∙ f.leaves;
      },
    )

-- `data_consume` on valid buffers never faults. If the data buffer has room for the bytes read and
-- four more, the bytes in the data buffer, those that the parser keeps back and those left unread
-- are together the bytes that were there before, in the same order, and none is left unread unless
-- the text has ended.
pub consume-lossless :
    (b : Buffer) (p : Parser)
    → IsValid b
    → IsValid p.data_buffer
    → p.state ≢ done
    → length (contents b) + 4 ≤ room p.data_buffer
    → (o : Outcome) × (consume b p ≡ ok o)
      × (contents o.p.data_buffer ++ (pending o.p.state ++ contents o.b)
          ≡ contents p.data_buffer ++ (pending p.state ++ contents b))
      × (o.st ≡ o.p.state)
      × (is_done o.st ≡ false → contents o.b ≡ [])
consume-lossless b p v vd ne h =
    let w : List ℕ = contents b in
    let (o, e, f) = consume-Scans b p v vd in
    let fits : length (scan p.state w).1 ≤ room p.data_buffer =
      omega (arith, length-scan p.state w ne, length-pending p.state ne) in
    let all : contents o.p.data_buffer ≡ contents p.data_buffer ++ (scan p.state w).1 =
      f.extends.held
      ∙ ap (λ l. contents p.data_buffer ++ l)
          (take_all (room p.data_buffer) (scan p.state w).1 fits) in
    (
      o,
      e,
      ap₂ ◌++◌ all (ap₂ (λ s l. pending s ++ l) f.ends f.leaves)
          ∙ append_assoc (contents p.data_buffer) (scan p.state w).1
              (pending (scan p.state w).0 ++ (scan p.state w).2)
          ∙ ap (λ l. contents p.data_buffer ++ l) (sym (scan-lossless p.state w ne)),
      f.returns,
      λ going. f.leaves ∙ scan_rest p.state w (rw (← f.ends, ← f.returns) going),
    )

pub pending-short : (s : State) → is_done s ≡ false → length (pending s) ≤ 4
pending-short done h = cc
pending-short data_ h = omega arith
pending-short _ h = omega arith
