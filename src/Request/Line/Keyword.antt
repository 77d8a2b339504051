-- ===== src/Request/Line/Keyword.antt =====
-- The chains of states that read the keywords of request.c, letter by letter.
use tpe_protos.Base.{
  IsLine, ℕ, ◌≡◌, refl, ◌∙◌, ◌≢◌, ◌-◌, ◌≤◌, ◌<◌, true, false, List, [], ◌∷◌, ◌++◌, ◌||◌, Option,
  none, some, ok, arith, ◌==◌, inl, inr, Bool-cases,
}
use tpe_protos.Request.{
  unknown, State, verb_e, verb_ehlo, verb_h, verb_helo, verb_m, verb_r, verb_d, verb_data, verb_q,
  verb_quit, mail_from_sep, rcpt_to_sep, Parser,
}
use tpe_protos.Request.Feed.{feed, expect, refeed}
use tpe_protos.Request.Consume.{is_done_state}
use tpe_protos.Request.Consume.Refine.{run}
use tpe_protos.Request.Line.{after_keyword, to_lower}
use tpe_protos.Request.Line.Run.{crlf, run-step, answered, run-refeed}

-- In state `s` the automaton Waits-letter for one letter.
pub record Waits (low : ℕ) (s s' : State) : Type 0 where
  up : ℕ
  feeds :
      (p : Parser) (c : ℕ)
      → feed (record p { state = s }) c ≡ expect low up s' (record p { state = s }) c
  either : (c : ℕ) → (c == low || c == up) ≡ (to_lower c == low)
  not_cr : (b'\r' == low || b'\r' == up) ≡ false
  not_done : is_done_state s' ≡ false

-- From state `s` the automaton reads `ks`, in any case, and comes to state `t`.
pub data Spells : State → List ℕ → State → Type 0 where
  end : {s : State} → Spells s [] s
  letter :
      {low : ℕ} {s s' t : State} {ks : List ℕ}
      → Waits low s s'
      → Spells s' ks t
      → Spells s (low ∷ ks) t

module _ (rest : List ℕ) (p : Parser) where
  -- What a run from state `s` over `w` comes to, if the automaton spells a word up to `t`.
  abbrev pub Reads : State → State → List ℕ → Option (List ℕ) → Type 0
  Reads s t w (some r) =
      IsLine r
      × (run (w ++ crlf rest) (record p { state = s }) none
          ≡ run (r ++ crlf rest) (record p { state = t }) none)
  Reads s t w none =
      run (w ++ crlf rest) (record p { state = s }) none ≡ ok (answered unknown p rest)

  expect-refeed :
      {low : ℕ} {s s' : State} (wt : Waits low s s') (c : ℕ)
      → (c == low || c == wt.up) ≡ false
      → feed (record p { state = s }) c ≡ refeed (record p { state = s }) c
  unfolding expect
  expect-refeed wt c h = wt.feeds p c ∙ rw h refl

  expect-go :
      {low : ℕ} {s s' : State} (wt : Waits low s s') (c : ℕ)
      → (c == low || c == wt.up) ≡ true
      → feed (record p { state = s }) c ≡ ok (record p { state = s' })
  unfolding expect
  expect-go wt c h = wt.feeds p c ∙ rw h refl

  Reads-step :
      (s s' t : State) (c : ℕ) (w : List ℕ) (o : Option (List ℕ))
      → run (c ∷ (w ++ crlf rest)) (record p { state = s }) none
        ≡ run (w ++ crlf rest) (record p { state = s' }) none
      → Reads s' t w o
      → Reads s t (c ∷ w) o
  Reads-step s s' t c w (some r) e (h, f) = (h, e ∙ f)
  Reads-step s s' t c w none e f = e ∙ f

  pub run-Spells :
      {s t : State} {ks : List ℕ}
      → Spells s ks t
      → (w : List ℕ) → IsLine w
      → Reads s t w (after_keyword ks w)
  run-Spells end w h = (h, refl)
  run-Spells (letter {s = s} wt sp) [] h =
      run-refeed [] rest (record p { state = s }) h (expect-refeed wt b'\r' wt.not_cr)
  run-Spells (letter {low} {s = s} {s' = s'} {t = t} {ks = ks} wt sp) (c ∷ w) (ne, h) =
      elim (Bool-cases (to_lower c == low)) [
        | inr other ↦ rw other (
            run-refeed (c ∷ w) rest (record p { state = s }) (ne, h)
              (expect-refeed wt c (wt.either c ∙ other)))
        | inl same ↦ rw same (
            Reads-step s s' t c w (after_keyword ks w)
              (run-step c (w ++ crlf rest) (record p { state = s }) (record p { state = s' })
                (expect-go wt c (wt.either c ∙ same)) wt.not_done)
              (run-Spells sp w h))
      ]

-- A letter, in either case.
Waits-letter :
    (low : ℕ) {s s' : State}
    → ((p : Parser) (c : ℕ)
        → feed (record p { state = s }) c ≡ expect low (low - 32) s' (record p { state = s }) c)
    → is_done_state s' ≡ false
    → b'a' ≤ low
    → low ≤ b'z'
    → Waits low s s'
Waits-letter low feeds on lo hi = record {
  up = low - 32;
  feeds = feeds;
  either = λ c. ground arith;
  not_cr = ground arith;
  not_done = on;
}

-- A mark that has no case.
Waits-mark :
    (low : ℕ) {s s' : State}
    → ((p : Parser) (c : ℕ)
        → feed (record p { state = s }) c ≡ expect low low s' (record p { state = s }) c)
    → is_done_state s' ≡ false
    → low ≢ b'\r'
    → low < b'A'
    → Waits low s s'
Waits-mark low feeds on ne hi = record {
  up = low;
  feeds = feeds;
  either = λ c. ground arith;
  not_cr = ground arith;
  not_done = on;
}

pub helo-Spells : Spells verb_h (b'e' ∷ b'l' ∷ b'o' ∷ []) verb_helo
unfolding feed
helo-Spells = letter (Waits-letter b'e' (λ p c. refl) refl (omega arith) (omega arith)) (
    letter (Waits-letter b'l' (λ p c. refl) refl (omega arith) (omega arith))
      (letter (Waits-letter b'o' (λ p c. refl) refl (omega arith) (omega arith)) (end)))

pub ehlo-Spells : Spells verb_e (b'h' ∷ b'l' ∷ b'o' ∷ []) verb_ehlo
unfolding feed
ehlo-Spells = letter (Waits-letter b'h' (λ p c. refl) refl (omega arith) (omega arith)) (
    letter (Waits-letter b'l' (λ p c. refl) refl (omega arith) (omega arith))
      (letter (Waits-letter b'o' (λ p c. refl) refl (omega arith) (omega arith)) (end)))

pub mail-Spells :
    Spells verb_m (b'a' ∷ b'i' ∷ b'l' ∷ b' ' ∷ b'f' ∷ b'r' ∷ b'o' ∷ b'm' ∷ b':' ∷ []) mail_from_sep
unfolding feed
mail-Spells = letter (Waits-letter b'a' (λ p c. refl) refl (omega arith) (omega arith)) (
    letter (Waits-letter b'i' (λ p c. refl) refl (omega arith) (omega arith)) (
      letter (Waits-letter b'l' (λ p c. refl) refl (omega arith) (omega arith)) (
        letter (Waits-mark b' ' (λ p c. refl) refl (λ e. omega arith) (omega arith)) (
          letter (Waits-letter b'f' (λ p c. refl) refl (omega arith) (omega arith)) (
            letter (Waits-letter b'r' (λ p c. refl) refl (omega arith) (omega arith)) (
              letter (Waits-letter b'o' (λ p c. refl) refl (omega arith) (omega arith)) (
                letter (Waits-letter b'm' (λ p c. refl) refl (omega arith) (omega arith)) (
                  letter (Waits-mark b':' (λ p c. refl) refl (λ e. omega arith) (omega arith))
                    (end)))))))))

pub rcpt-Spells : Spells verb_r (b'c' ∷ b'p' ∷ b't' ∷ b' ' ∷ b't' ∷ b'o' ∷ b':' ∷ []) rcpt_to_sep
unfolding feed
rcpt-Spells = letter (Waits-letter b'c' (λ p c. refl) refl (omega arith) (omega arith)) (
    letter (Waits-letter b'p' (λ p c. refl) refl (omega arith) (omega arith)) (
      letter (Waits-letter b't' (λ p c. refl) refl (omega arith) (omega arith)) (
        letter (Waits-mark b' ' (λ p c. refl) refl (λ e. omega arith) (omega arith)) (
          letter (Waits-letter b't' (λ p c. refl) refl (omega arith) (omega arith)) (
            letter (Waits-letter b'o' (λ p c. refl) refl (omega arith) (omega arith)) (
              letter (Waits-mark b':' (λ p c. refl) refl (λ e. omega arith) (omega arith))
                (end)))))))

pub data-Spells : Spells verb_d (b'a' ∷ b't' ∷ b'a' ∷ []) verb_data
unfolding feed
data-Spells = letter (Waits-letter b'a' (λ p c. refl) refl (omega arith) (omega arith)) (
    letter (Waits-letter b't' (λ p c. refl) refl (omega arith) (omega arith))
      (letter (Waits-letter b'a' (λ p c. refl) refl (omega arith) (omega arith)) (end)))

pub quit-Spells : Spells verb_q (b'u' ∷ b'i' ∷ b't' ∷ []) verb_quit
unfolding feed
quit-Spells = letter (Waits-letter b'u' (λ p c. refl) refl (omega arith) (omega arith)) (
    letter (Waits-letter b'i' (λ p c. refl) refl (omega arith) (omega arith))
      (letter (Waits-letter b't' (λ p c. refl) refl (omega arith) (omega arith)) (end)))
