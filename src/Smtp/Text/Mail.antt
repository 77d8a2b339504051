-- ===== src/Smtp/Text/Mail.antt =====
-- The events of mail_info_read in smtpnio.c up to the end of a text.
use mathlib.Core.Path.{ap₂}
use mathlib.Core.List.{map}
use tpe_protos.Base.{
  ℕ, Bool, true, false, List, [], ◌∷◌, ◌++◌, append-nil, append_assoc, ◌≡◌, refl, sym, ◌∙◌, ap, inl,
  inr, ok, Result, ◌>>=◌, if◌then◌else◌, bind-ok, true-ne_false,
}
use tpe_protos.Data
use tpe_protos.Data.Lossless.{scan}
use tpe_protos.Data.Body.{IsText, text, end_mark, scan-text}
use tpe_protos.RcptList.Contents.{joined}
use tpe_protos.Smtp.{State, op_write, FileCall, write_to_files, World}
use tpe_protos.Smtp.Handlers.{mail_info_read}
use tpe_protos.Smtp.Text.{outputs, outputs-scan}
use tpe_protos.Smtp.Text.Event.{IsPiece, Reading, receives, mail_info_read-Left}

abbrev is_reading : State → Bool
is_reading State.mail_info_read = true
is_reading _ = false

-- The events of a session that reads the text of a mail, one for each piece that comes.
abbrev pub text_events : List (List ℕ) → World → Result (State × World)
text_events [] w = ok (State.mail_info_read, w)
text_events (piece ∷ pieces) w =
    let more = text_events pieces in
    mail_info_read (receives w piece) >>= λ r. if is_reading r.0 then more r.1 else ok r

abbrev pub AllPieces : List (List ℕ) → Type 0
AllPieces [] = Unit {0}
AllPieces (piece ∷ pieces) = IsPiece piece × AllPieces pieces

-- What the events write, and the state that they lead to.
abbrev Outcome : World → List (List ℕ) → State × World → Type 0
Outcome w pieces r =
    let x = outputs w.session.data_parser.state pieces in
    (r.1.calls ≡ w.calls ++ map (write_to_files w.session.rcpt_list) x.1)
    × (r.1.session.rcpt_list ≡ w.session.rcpt_list)
    × (Data.is_done x.0 ≡ true → r.0 ≡ State.mail_info_write)

text_events-Outcome :
    (pieces : List (List ℕ)) (w : World)
    → Reading w
    → w.env.accepts op_write ≡ true
    → ((c : FileCall) → w.env.files c ≡ true)
    → AllPieces pieces
    → (r : State × World) × (text_events pieces w ≡ ok r) × Outcome w pieces r
text_events-Outcome [] w h accepts files all = (
  (State.mail_info_read, w),
  refl,
  (sym (append-nil w.calls), refl, λ e. absurd (true-ne_false (sym e ∙ h.more))),
)
text_events-Outcome (piece ∷ pieces) w h accepts files (fits, all) =
    let s = w.session.data_parser.state in
    let nodes = w.session.rcpt_list in
    let (r, e, (calls, same, what)) = mail_info_read-Left w piece h fits accepts files in
    elim what [
      | inl (ended, there) ↦ (r, bind-ok _ e (rw there refl), rw ended (calls, same, λ _. there))
      | inr (more, here, reading, state, env) ↦
          let accepts' = ap (λ v. v.accepts op_write) env ∙ accepts in
          let files' : (c : FileCall) → r.1.env.files c ≡ true =
            λ c. ap (λ v. v.files c) env ∙ files c in
          let (r', e', (calls', same', what')) =
            text_events-Outcome pieces r.1 reading accepts' files' all in
          (
            r',
            bind-ok _ e (rw here e'),
            rw more (
              rw (state, same, calls) at calls' ∙ append_assoc w.calls _ _,
              same' ∙ same,
              rw state at what',
            ),
          )
    ]

-- However the network cuts the text of a mail into pieces, the events of mail_info_read return and write
-- to the files of its recipients exactly the text, in order and without the end mark, and the session
-- goes on to answer. The text has lines that are not empty, none of them but the first a single dot,
-- and an end mark behind it. The session waits for text, the selector accepts the interest and the
-- calls on files return. A piece
-- has up to 2044 bytes, four less than the buffers.
pub text_events-Written :
    (pieces : List (List ℕ)) (w : World) (l : List ℕ) (ms : List (List ℕ)) (rest : List ℕ)
    → Reading w
    → w.session.data_parser.state ≡ Data.State.data_
    → w.env.accepts op_write ≡ true
    → ((c : FileCall) → w.env.files c ≡ true)
    → AllPieces pieces
    → IsText l ms
    → joined pieces ≡ text l ms ++ end_mark rest
    → (r : State × World) × (chunks : List (List ℕ)) × (text_events pieces w ≡ ok r)
      × (r.0 ≡ State.mail_info_write)
      × (r.1.calls ≡ w.calls ++ map (write_to_files w.session.rcpt_list) chunks)
      × (joined chunks ≡ text l ms)
text_events-Written pieces w l ms rest h start accepts files all is_text whole =
    let s = w.session.data_parser.state in
    let (r, e, (calls, _, ends)) = text_events-Outcome pieces w h accepts files all in
    let (state, out) = outputs-scan s pieces h.more in
    let scanned : scan s (joined pieces) ≡ (Data.State.done, text l ms ++ [], rest) =
      ap₂ scan start whole ∙ scan-text l ms (end_mark rest) is_text in
    (
      r,
      (outputs s pieces).1,
      e,
      ends (ap Data.is_done (state ∙ ap (λ x. x.0) scanned)),
      calls,
      out ∙ ap (λ x. x.1) scanned ∙ append-nil (text l ms),
    )
