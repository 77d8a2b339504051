-- ===== src/Data/Body.antt =====
-- Which texts the parser of data.c ends where, and what it delivers of them.
use mathlib.Core.Path.{ap₂}
use tpe_protos.Base.{
  ℕ, ◌≤◌, ◌≡◌, ◌≢◌, refl, sym, ap, ◌∙◌, Bool-cases, inl, inr, List, [], ◌∷◌, ◌++◌, length, IsLine,
  ok, arith, ◌==◌, append_assoc, append-nil, take, take_all, take-append, ◌-◌,
}
use tpe_protos.Buffer.{Buffer}
use tpe_protos.Buffer.Valid.{IsValid, contents, room}
use tpe_protos.Data.{State, data_, crlf, crlfdotcr, done, Parser, Outcome, consume}
use tpe_protos.Data.Lossless.{scan, pending, consume-Scans}

-- What the automaton does behind bytes that it has written.
abbrev behind : List ℕ → State × List ℕ × List ℕ → State × List ℕ × List ℕ
behind u (t, out, rest) = (t, u ++ out, rest)

-- A line of the text goes through.
scan_line : (l w : List ℕ) → IsLine l → scan data_ (l ++ w) ≡ behind l (scan data_ w)
scan_line [] w h = refl
scan_line (c ∷ l) w (ne, h) = ground (arith, scan_line l w h)

-- A line that follows a line end: it is not empty, and not the dot that ends the text.
abbrev pub IsNext : List ℕ → Type 0
IsNext m = IsLine m × (m ≢ []) × (m ≢ b'.' ∷ [])

scan_next :
    (m w : List ℕ)
    → IsNext m
    → scan data_ (b'\r' ∷ b'\n' ∷ (m ++ w)) ≡ behind (b'\r' ∷ b'\n' ∷ m) (scan data_ w)
scan_next [] w h = absurd (h.1 refl)
scan_next (c ∷ []) w h = elim (Bool-cases (c == b'.')) [
  | inr other ↦ ground arith
  | inl dot ↦ let here : c ≡ b'.' = ground arith in absurd (h.2 (ap (λ x. x ∷ []) here))
]
scan_next (c ∷ d ∷ m) w h = elim (Bool-cases (c == b'.')) [
  | inr other ↦ ground (arith, scan_line (d ∷ m) w h.0.1)
  | inl dot ↦ ground (arith, scan_line m w h.0.1.1)
]

behind-behind :
    (u v : List ℕ) (x : State × List ℕ × List ℕ) → behind u (behind v x) ≡ behind (u ++ v) x
behind-behind u v x = ap (λ l. (x.0, l, x.2)) (sym (append_assoc u v x.1))

-- Lines, each behind a line end.
abbrev pub lines : List (List ℕ) → List ℕ
lines [] = []
lines (m ∷ ms) = b'\r' ∷ b'\n' ∷ (m ++ lines ms)

abbrev pub AllNext : List (List ℕ) → Type 0
AllNext [] = Unit {0}
AllNext (m ∷ ms) = IsNext m × AllNext ms

scan-lines :
    (ms : List (List ℕ)) (w : List ℕ)
    → AllNext ms
    → scan data_ (lines ms ++ w) ≡ behind (lines ms) (scan data_ w)
scan-lines [] w h = refl
scan-lines (m ∷ ms) w h =
    ap (λ l. scan data_ (b'\r' ∷ b'\n' ∷ l)) (append_assoc m (lines ms) w)
    ∙ scan_next m (lines ms ++ w) h.0
    ∙ ap (behind (b'\r' ∷ b'\n' ∷ m)) (scan-lines ms w h.1)
    ∙ behind-behind (b'\r' ∷ b'\n' ∷ m) (lines ms) (scan data_ w)

-- A text of a first line and of lines behind it.
abbrev pub text : List ℕ → List (List ℕ) → List ℕ
text l ms = l ++ lines ms

abbrev pub IsText : List ℕ → List (List ℕ) → Type 0
IsText l ms = IsLine l × AllNext ms

pub scan-text :
    (l : List ℕ) (ms : List (List ℕ)) (w : List ℕ)
    → IsText l ms
    → scan data_ (text l ms ++ w) ≡ behind (text l ms) (scan data_ w)
scan-text l ms w (h, hs) =
    ap (scan data_) (append_assoc l (lines ms) w)
    ∙ scan_line l (lines ms ++ w) h
    ∙ ap (behind l) (scan-lines ms w hs)
    ∙ behind-behind l (lines ms) (scan data_ w)

-- The mark behind a text: a line end, a dot, a line end.
abbrev pub end_mark : List ℕ → List ℕ
end_mark rest = b'\r' ∷ b'\n' ∷ b'.' ∷ b'\r' ∷ b'\n' ∷ rest

-- From what the automaton does over the bytes of the buffer to what `data_consume` does.
consume_as :
    (b : Buffer) (p : Parser) (w out rest : List ℕ) {s t : State}
    → IsValid b
    → IsValid p.data_buffer
    → p.state ≡ s
    → contents b ≡ w
    → scan s w ≡ (t, out, rest)
    → (o : Outcome) × (consume b p ≡ ok o)
      × (o.st ≡ t)
      × (contents o.p.data_buffer ≡ contents p.data_buffer ++ take (room p.data_buffer) out)
      × (contents o.b ≡ rest)
consume_as b p w out rest {t} v vd s e k =
    let (o, runs, f) = consume-Scans b p v vd in
    let same : scan p.state (contents b) ≡ (t, out, rest) = ap₂ scan s e ∙ k in
    (
      o,
      runs,
      f.returns ∙ f.ends ∙ ap (λ x. x.0) same,
      f.extends.held ∙ ap (λ x. contents p.data_buffer ++ take (room p.data_buffer) x.1) same,
      f.leaves ∙ ap (λ x. x.2) same,
    )

-- A text whose lines are not empty and hold no carriage return, and of which no line but the first
-- is a single dot, is ended by its end mark: `data_consume` returns `done`, has appended exactly
-- the text to the data buffer if it has room for it, and leaves the bytes behind the mark unread.
pub consume-text :
    (b : Buffer) (p : Parser) (l : List ℕ) (ms : List (List ℕ)) (rest : List ℕ)
    → IsValid b
    → IsValid p.data_buffer
    → p.state ≡ data_
    → IsText l ms
    → contents b ≡ text l ms ++ end_mark rest
    → length (text l ms) ≤ room p.data_buffer
    → (o : Outcome) × (consume b p ≡ ok o)
      × (o.st ≡ done)
      × (contents o.p.data_buffer ≡ contents p.data_buffer ++ text l ms)
      × (contents o.b ≡ rest)
consume-text b p l ms rest v vd s h e fits =
    let whole : scan data_ (text l ms ++ end_mark rest) ≡ (done, text l ms, rest) =
      scan-text l ms (end_mark rest) h ∙ ap (λ u. (done, u, rest)) (append-nil (text l ms)) in
    let (o, runs, st, held, left) =
      consume_as b p (text l ms ++ end_mark rest) (text l ms) rest v vd s e whole in
    (
      o,
      runs,
      st,
      held ∙ ap (λ u. contents p.data_buffer ++ u) (take_all (room p.data_buffer) (text l ms) fits),
      left,
    )

not_end : crlf ≢ done
not_end e = cc

-- One empty line in front of the end mark, behind a text whose lines are not empty, hides the mark:
-- from data_data `data_consume` takes all of it for text and does not return `done`. None of the
-- lines but the first is a single dot.
pub consume-blank_line :
    (b : Buffer) (p : Parser) (l : List ℕ) (ms : List (List ℕ))
    → IsValid b
    → IsValid p.data_buffer
    → p.state ≡ data_
    → IsText l ms
    → contents b ≡ text l ms ++ (b'\r' ∷ b'\n' ∷ end_mark [])
    → (o : Outcome) × (consume b p ≡ ok o) × (o.st ≢ done) × (contents o.b ≡ [])
consume-blank_line b p l ms v vd s h e =
    let tail : List ℕ = b'\r' ∷ b'\n' ∷ b'\r' ∷ b'\n' ∷ b'.' ∷ [] in
    let whole : scan data_ (text l ms ++ (b'\r' ∷ b'\n' ∷ end_mark []))
        ≡ (crlf, text l ms ++ tail, []) =
      scan-text l ms (b'\r' ∷ b'\n' ∷ end_mark []) h in
    let (o, runs, st, held, left) =
      consume_as b p (text l ms ++ (b'\r' ∷ b'\n' ∷ end_mark [])) (text l ms ++ tail) [] v vd s e
        whole in
    (o, runs, (λ x. not_end (sym st ∙ x)), left)

scan_kept :
    (c : ℕ) (w : List ℕ)
    → IsLine (c ∷ w)
    → c ≢ b'\n'
    → scan crlfdotcr (c ∷ w) ≡ (data_, pending crlfdotcr ++ (c ∷ w), [])
scan_kept c w (ne, h) nl =
    let whole : scan data_ w ≡ (data_, w, []) =
      ap (scan data_) (sym (append-nil w))
      ∙ scan_line w [] h
      ∙ ap (λ u. (data_, u, [])) (append-nil w) in
    ground (arith, whole)

-- The four bytes that the parser has kept back need room in the data buffer too: if the bytes read,
-- at least four without a carriage return and with no line feed in front, are as many as there is
-- room for, `data_consume` drops the last four of them.
pub consume_drops :
    (b : Buffer) (p : Parser) (c : ℕ) (w : List ℕ)
    → IsValid b
    → IsValid p.data_buffer
    → p.state ≡ crlfdotcr
    → IsLine (c ∷ w)
    → c ≢ b'\n'
    → contents b ≡ c ∷ w
    → room p.data_buffer ≡ length (c ∷ w)
    → 4 ≤ length (c ∷ w)
    → (o : Outcome) × (consume b p ≡ ok o)
      × (contents o.p.data_buffer
          ≡ contents p.data_buffer ++ (pending crlfdotcr ++ take (length (c ∷ w) - 4) (c ∷ w)))
      × (contents o.b ≡ [])
consume_drops b p c w v vd s h nl e r four =
    let (o, runs, st, held, left) =
      consume_as b p (c ∷ w) (pending crlfdotcr ++ (c ∷ w)) [] v vd s e (scan_kept c w h nl) in
    let kept : List ℕ = pending crlfdotcr in
    let cut : take (room p.data_buffer) (kept ++ (c ∷ w))
        ≡ kept ++ take (length (c ∷ w) - 4) (c ∷ w) =
      ap (λ n. take n (kept ++ (c ∷ w))) r
      ∙ take-append (length (c ∷ w)) kept (c ∷ w)
      ∙ ap (λ u. u ++ take (length (c ∷ w) - 4) (c ∷ w)) (take_all (length (c ∷ w)) kept four) in
    (o, runs, held ∙ ap (λ u. contents p.data_buffer ++ u) cut, left)
