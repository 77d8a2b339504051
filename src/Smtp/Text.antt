-- ===== src/Smtp/Text.antt =====
-- The text of a mail that smtpnio.c reads in pieces, one for each event, and what is written to the
-- files for each piece.
pub mod Event
pub mod Mail
pub mod Delivered
mod Tests
use tpe_protos.Base.{
  Bool-cases, Bool, true, false, if◌then◌else◌, List, [], ◌∷◌, ◌++◌, ℕ, ◌≡◌, refl, sym, ◌∙◌, ap,
  inl, inr, append_assoc, append-nil, true-ne_false,
}
use tpe_protos.Data.{State, is_done}
use tpe_protos.Data.Lossless.{scan, next, written}
use tpe_protos.RcptList.Contents.{joined}

-- The automaton of data.c over pieces, up to the one that ends the text: its last state, and what it
-- writes for each piece.
abbrev pub outputs : State → List (List ℕ) → State × List (List ℕ)
outputs s [] = (s, [])
outputs s (piece ∷ pieces) =
    let (t, out, rest) = scan s piece in
    let (u, outs) = outputs t pieces in if is_done t then (t, out ∷ []) else (u, out ∷ outs)

-- More bytes behind the end of the text change nothing.
scan-append-done :
    (s : State) (u v : List ℕ)
    → is_done s ≡ false
    → is_done (scan s u).0 ≡ true
    → ((scan s (u ++ v)).0 ≡ (scan s u).0) × ((scan s (u ++ v)).1 ≡ (scan s u).1)
scan-append-done s [] v more ended = absurd (true-ne_false (sym ended ∙ more))
scan-append-done s (c ∷ u) v more ended = elim (Bool-cases (is_done (next s c))) [
  | inl stop ↦ rw stop (refl, refl)
  | inr on ↦
      let (state, out) = scan-append-done (next s c) u v on (rw on at ended) in
      rw on (state, ap (λ x. written s c ++ x) out)
]

-- Otherwise the automaton goes on from its state.
scan-append-on :
    (s : State) (u v : List ℕ)
    → is_done (scan s u).0 ≡ false
    → ((scan s (u ++ v)).0 ≡ (scan (scan s u).0 v).0)
      × ((scan s (u ++ v)).1 ≡ (scan s u).1 ++ (scan (scan s u).0 v).1)
scan-append-on s [] v ended = (refl, refl)
scan-append-on s (c ∷ u) v ended = elim (Bool-cases (is_done (next s c))) [
  | inl stop ↦ absurd (true-ne_false (sym stop ∙ rw stop at ended))
  | inr on ↦
      let (state, out) = scan-append-on (next s c) u v (rw on at ended) in
      rw on (
        state,
        ap (λ x. written s c ++ x) out
            ∙ sym
                (append_assoc (written s c) (scan (next s c) u).1 (scan (scan (next s c) u).0 v).1),
      )
]

-- The pieces do not matter: what is written for them is what the whole text gives.
pub outputs-scan :
    (s : State) (pieces : List (List ℕ))
    → is_done s ≡ false
    → ((outputs s pieces).0 ≡ (scan s (joined pieces)).0)
      × (joined (outputs s pieces).1 ≡ (scan s (joined pieces)).1)
outputs-scan s [] more = (refl, refl)
outputs-scan s (piece ∷ pieces) more = elim (Bool-cases (is_done (scan s piece).0)) [
  | inl ended ↦
      let (state, out) = scan-append-done s piece (joined pieces) more ended in
      rw ended (sym state, append-nil (scan s piece).1 ∙ sym out)
  | inr on ↦
      let (state, out) = scan-append-on s piece (joined pieces) on in
      let (state', out') = outputs-scan (scan s piece).0 pieces on in
      rw on (state' ∙ sym state, ap (λ x. (scan s piece).1 ++ x) out' ∙ sym out)
]

-- Before the end of the text all bytes are read.
pub scan-rest : (s : State) (w : List ℕ) → is_done (scan s w).0 ≡ false → (scan s w).2 ≡ []
scan-rest s [] more = refl
scan-rest s (c ∷ w) more = elim (Bool-cases (is_done (next s c))) [
  | inl stop ↦ absurd (true-ne_false (sym stop ∙ rw stop at more))
  | inr on ↦ rw on (scan-rest (next s c) w (rw on at more))
]
