-- ===== src/Smtp/Text/Event.antt =====
-- One event of mail_info_read in smtpnio.c: what it makes of the bytes that have come.
use tpe_protos.Base.{
  ℕ, suc, ◌+◌, ◌-◌, ◌≤◌, arith, true, false, List, [], ◌∷◌, ◌++◌, ◌≡◌, refl, ◌∙◌, ap, ◌⊎◌, inl, inr,
  pos, ok, Result, bind-ok, codes, length, length-append, take, drop, take_all, take-length-append,
  Bool-cases,
}
use tpe_protos.Buffer
use tpe_protos.Buffer.{Buffer}
use tpe_protos.Buffer.Valid.{IsValid, contents, room}
use tpe_protos.Buffer.Ends.{write_ptr-room, write_adv-fits}
use tpe_protos.Data
use tpe_protos.Data.Lossless.{scan, pending, pending-short, ne-done, scan-lossless, consume-Scans}
use tpe_protos.Data.Pointers.{IsCompact, consume-Stays}
use tpe_protos.Smtp.{State, op_write, FileCall, write_to_files, Env, World}
use tpe_protos.Smtp.Io.{read_status, received, stored, count_bytes, set_interest}
use tpe_protos.Smtp.Process.{mail_info_read_process, mail_info_body, text_call, filed, say}
use tpe_protos.Smtp.Handlers.{mail_info_read}
use tpe_protos.Smtp.Flow.Sends.{can_read-none}
use tpe_protos.Smtp.Flow.Steps.{reply-Same}
use tpe_protos.Smtp.Text.{scan-rest}
use tpe_protos.Smtp.Total.{Whole}
use tpe_protos.Smtp.Total.Parts.{filled-IsValid, reply-fits}

-- An environment in which `recv` gives this piece.
abbrev pub gives : Env → List ℕ → Env
gives env piece = record env { recv = λ _. (pos (length piece), piece) }

abbrev pub receives : World → List ℕ → World
receives w piece = record w { env = gives w.env piece }

-- A piece is not empty, and small enough that the bytes kept back have room in front of it.
abbrev pub IsPiece : List ℕ → Type 0
IsPiece piece = (1 ≤ length piece) × (length piece ≤ 2044)

-- The session waits for text: its read buffer is empty and at its start.
pub record Reading (w : World) : Type 0 where
  pub whole : Whole w.env w
  pub read_at : w.session.read_buffer.read_at ≡ 0
  pub write_at : w.session.read_buffer.write_at ≡ 0
  pub limit : w.session.read_buffer.limit ≡ 2048
  pub fresh : w.session.write_buffer.write_at ≡ 0
  pub more : Data.is_done w.session.data_parser.state ≡ false

-- The read buffer with a piece.
abbrev holding : Buffer → List ℕ → Buffer
holding b piece = record (stored b b.write_at piece) { write_at = b.write_at + length piece }

-- What the process of the event works on.
abbrev begun : World → List ℕ → World
begun w piece =
    let w' = count_bytes (receives w piece) (pos (length piece)) in
    record w' { session = record w'.session { read_buffer = holding w.session.read_buffer piece } }

empty-holding :
    (b : Buffer) (piece : List ℕ)
    → b.read_at ≡ 0
    → b.write_at ≡ 0
    → contents (holding b piece) ≡ piece
empty-holding b piece r w =
    let n : b.write_at + length piece - b.read_at ≡ length piece = omega arith in
    rw n (rw (r, w) (take-length-append piece (drop (0 + length piece) b.bytes)))

received-begun :
    (w : World) (piece : List ℕ) (process : World → Result (State × World))
    → Reading w
    → IsPiece piece
    → received State.mail_info_read process
        (receives w piece)
        w.session.read_buffer.write_at
        (pos (length piece), piece)
      ≡ process (begun w piece)
unfolding received
received-begun w [] process h (some, fits) = absurd (omega arith)
received-begun w (c ∷ cs) process h (some, fits) =
    let b = w.session.read_buffer in
    rw
      (write_adv-fits (stored b b.write_at (c ∷ cs)) (suc (length cs))
        (omega (arith, h.write_at, h.limit)))
      refl

nothing_left : (w : World) → Reading w → Buffer.can_read w.session.read_buffer ≡ false
unfolding Buffer.can_read
nothing_left w h = rw (h.read_at, h.write_at) refl

mail_info_read-begun :
    (w : World) (piece : List ℕ)
    → Reading w
    → IsPiece piece
    → mail_info_read (receives w piece) ≡ mail_info_read_process (begun w piece)
unfolding mail_info_read read_status
mail_info_read-begun w piece h fits =
    rw (nothing_left w h, write_ptr-room w.session.read_buffer h.whole.read)
      (received-begun w piece mail_info_read_process h fits)

holding-IsCompact :
    (b : Buffer) (piece : List ℕ)
    → b.read_at ≡ 0
    → b.write_at ≡ 0
    → 1 ≤ length piece
    → IsCompact (holding b piece)
unfolding Buffer.can_read
holding-IsCompact b piece r w h e = ground arith

compact-start :
    (b : Buffer) → IsValid b → IsCompact b → contents b ≡ [] → (b.read_at ≡ 0) × (b.write_at ≡ 0)
compact-start b v c e =
    let start = c (can_read-none b v e) in (omega (arith, v.read_le, start), start)

-- What the automaton writes for a piece has room.
output-fits :
    (s : Data.State) (piece : List ℕ)
    → Data.is_done s ≡ false
    → length (scan s piece).1 ≤ length piece + 4
output-fits s piece more = omega (
  arith,
  ap length (scan-lossless s piece (ne-done s more)),
  length-append (pending s) piece,
  length-append (scan s piece).1 (pending (scan s piece).0 ++ (scan s piece).2),
  pending-short s more,
)

-- What an event leaves of a session that waits for text.
abbrev pub Left : World → List ℕ → State × World → Type 0
Left w piece r =
    let x = scan w.session.data_parser.state piece in
    (r.1.calls ≡ w.calls ++ (write_to_files w.session.rcpt_list x.1 ∷ []))
    × (r.1.session.rcpt_list ≡ w.session.rcpt_list)
    × (((Data.is_done x.0 ≡ true) × (r.0 ≡ State.mail_info_write))
        ⊎ ((Data.is_done x.0 ≡ false)
            × (r.0 ≡ State.mail_info_read)
            × Reading r.1
            × (r.1.session.data_parser.state ≡ x.0)
            × (r.1.env ≡ gives w.env piece)))

module _ (w : World) (piece : List ℕ) (h : Reading w) (fits : IsPiece piece)
    (accepts : w.env.accepts op_write ≡ true) (files : (c : FileCall) → w.env.files c ≡ true) where
  abbrev b : Buffer
  b = holding w.session.read_buffer piece

  abbrev p : Data.Parser
  p = record w.session.data_parser { data_buffer = Buffer.reset w.session.data_parser.data_buffer }

  abbrev x : Data.State × List ℕ × List ℕ
  x = scan w.session.data_parser.state piece

  b-IsValid : IsValid b
  b-IsValid =
      filled-IsValid (gives w.env piece) w.session w.session.read_buffer h.whole.read
        (omega (arith, h.limit, h.write_at))

  p-IsValid : IsValid p.data_buffer
  unfolding Buffer.reset
  p-IsValid = omega (arith, h.whole.text.in_memory)

  p-room : room p.data_buffer ≡ 2048
  unfolding Buffer.reset
  p-room = omega (arith, h.whole.text_limit)

  p-limit : p.data_buffer.limit ≡ 2048
  unfolding Buffer.reset
  p-limit = h.whole.text_limit

  p-at : p.data_buffer.read_at ≡ 0
  unfolding Buffer.reset
  p-at = refl

  p-empty : contents p.data_buffer ≡ []
  unfolding Buffer.reset
  p-empty = refl

  -- What `data_consume` makes of the piece.
  record Consumes (o : Data.Outcome) : Type 0 where
    runs : Data.consume b p ≡ ok o
    valid : IsValid o.b
    text_valid : IsValid o.p.data_buffer
    text_limit : o.p.data_buffer.limit ≡ 2048
    compact : IsCompact o.b
    limit : o.b.limit ≡ 2048
    returns : o.st ≡ x.0
    state : o.p.state ≡ x.0
    leaves : contents o.b ≡ x.2
    writes : take o.p.data_buffer.write_at o.p.data_buffer.bytes ≡ x.1

  from_start : (q : Buffer) → q.read_at ≡ 0 → take q.write_at q.bytes ≡ contents q
  from_start q e = let n : q.write_at - q.read_at ≡ q.write_at = omega arith in rw n (rw e refl)

  consumes : (o : Data.Outcome) × Consumes o
  consumes =
      let (o, e, scans) = consume-Scans b p b-IsValid p-IsValid in
      let bytes = empty-holding w.session.read_buffer piece h.read_at h.write_at in
      let stays =
        (consume-Stays b p
            (holding-IsCompact w.session.read_buffer piece h.read_at h.write_at fits.0)).on_ok
          o e in
      let same : scan p.state (contents b) ≡ x = ap (scan w.session.data_parser.state) bytes in
      let fit =
        take_all (room p.data_buffer) x.1
          (omega (arith, p-room, fits.1, output-fits w.session.data_parser.state piece h.more)) in
      (
        o,
        record {
          runs = e;
          valid = scans.valid;
          text_valid = scans.extends.valid;
          text_limit = scans.extends.same_limit ∙ p-limit;
          compact = stays.kept.compact;
          limit = stays.kept.limit ∙ h.limit;
          returns = scans.returns ∙ scans.ends ∙ ap (λ y. y.0) same;
          state = scans.ends ∙ ap (λ y. y.0) same;
          leaves = scans.leaves ∙ ap (λ y. y.2) same;
          writes =
              from_start o.p.data_buffer (stays.text ∙ p-at)
              ∙ scans.extends.held
              ∙ ap (λ y. contents p.data_buffer ++ take (room p.data_buffer) y.1) same
              ∙ ap (λ u. u ++ take (room p.data_buffer) x.1) p-empty
              ∙ fit;
        },
      )

  -- The session behind the writes for the piece.
  abbrev behind : Data.Outcome → World
  behind o = filed (begun w piece) o

  behind-Whole : (o : Data.Outcome) → Consumes o → Whole (gives w.env piece) (behind o)
  behind-Whole o c = record {
    same_env = refl;
    read = c.valid;
    write = h.whole.write;
    limit = h.whole.limit;
    text = c.text_valid;
    text_limit = c.text_limit;
    arg = h.whole.arg;
    from = h.whole.from;
  }

  behind-calls :
      (o : Data.Outcome)
      → Consumes o
      → (behind o).calls ≡ w.calls ++ (write_to_files w.session.rcpt_list x.1 ∷ [])
  behind-calls o c = ap (λ text. w.calls ++ (write_to_files w.session.rcpt_list text ∷ [])) c.writes

  goes_on :
      (o : Data.Outcome)
      → Consumes o
      → Data.is_done x.0 ≡ false
      → Left w piece (State.mail_info_read, behind o)
  goes_on o c more =
      let (r, at) =
        compact-start o.b c.valid c.compact
          (c.leaves ∙ scan-rest w.session.data_parser.state piece more) in
      (
        behind-calls o c,
        refl,
        inr (
          more,
          refl,
          record {
            whole = behind-Whole o c;
            read_at = r;
            write_at = at;
            limit = c.limit;
            fresh = h.fresh;
            more = ap Data.is_done c.state ∙ more;
          },
          c.state,
          refl,
        ),
      )

  -- The answer to the whole text.
  answers :
      (o : Data.Outcome)
      → Consumes o
      → x.0 ≡ Data.State.done
      → (r : State × World) × (mail_info_body o.p.state (record (behind o) { interest = op_write })
          ≡ ok r)
        × Left w piece r
  unfolding mail_info_body say
  answers o c ended =
      let w2 : World = record (behind o) { interest = op_write } in
      let text = codes "250 Ok: queued\r\n" in
      let (w3, replied, _, _) =
        reply-fits (gives w.env piece) text 16 w2 (behind-Whole o c) h.fresh (omega arith)
          (omega arith) in
      let same = (reply-Same text 16 w2).on_ok w3 replied in
      (
        (State.mail_info_write, w3),
        ap (λ s. mail_info_body s w2) (c.state ∙ ended) ∙ bind-ok _ replied refl,
        (same.kept.calls ∙ behind-calls o c, same.kept.nodes, inl (ap Data.is_done ended, refl)),
      )

  done-eq : (s : Data.State) → Data.is_done s ≡ true → s ≡ Data.State.done
  done-eq Data.State.done e = refl
  done-eq _ e = cc

  process-Left :
      (r : State × World) × (mail_info_read_process (begun w piece) ≡ ok r) × Left w piece r
  unfolding mail_info_read_process set_interest
  process-Left =
      let (o, c) = consumes in
      elim (Bool-cases (Data.is_done x.0)) [
        | inl ended ↦
            let stop : Data.is_done o.st ≡ true = ap Data.is_done c.returns ∙ ended in
            let (r, e, left) = answers o c (done-eq x.0 ended) in
            (r, rw (c.runs, files (text_call (begun w piece) o), stop, accepts) e, left)
        | inr more ↦
            let on : Data.is_done o.st ≡ false = ap Data.is_done c.returns ∙ more in
            (
              (State.mail_info_read, behind o),
              rw (c.runs, files (text_call (begun w piece) o), on) refl,
              goes_on o c more,
            )
      ]

  -- One event of mail_info_read returns: it writes what the automaton makes of the piece, and waits
  -- for more or answers as the automaton has ended.
  pub mail_info_read-Left :
      (r : State × World) × (mail_info_read (receives w piece) ≡ ok r) × Left w piece r
  mail_info_read-Left =
      let (r, e, left) = process-Left in (r, mail_info_read-begun w piece h fits ∙ e, left)
