-- ===== src/Parser/Steps.antt =====
-- parser.c and parser_utils.c: how one byte moves the parser of a word.
use tpe_protos.Base.{
  ℕ, suc, ◌+◌, ◌<◌, arith, true, false, List, [], ◌∷◌, ◌++◌, append_assoc, ◌≡◌, refl, sym, ap, ◌∙◌,
  inl, inr, ok, load, ◌==◌, if◌then◌else◌, length, length-append, replicate, length-replicate, ◌⊎◌,
  same_letter, equal_refl,
}
use tpe_protos.Parser.{Event, no_event, Parser, find_match, parser_feed, parser_no_classes}
use tpe_protos.Parser.Strcmpi.{
  StringCmp, mayeq, eq, neq, event_code, letter_rows, sinks, to_neq, parser_utils_strcmpi,
}
use tpe_protos.Parser.Rows.{
  class-none, letter-state, letter-count, letter-match, load-at, length-letter_rows,
}

-- What a byte tells of the word: `w` is what follows the letter that it matches.
abbrev pub mark : List ℕ → StringCmp
mark [] = eq
mark (x ∷ w) = mayeq

-- An event of one byte.
abbrev pub event : StringCmp → ℕ → Event
event type c = record { type = event_code type; chars = c ∷ 0 ∷ 0 ∷ []; n = 1 }

-- The parser of the word `s` in the state `i`, whose last event has the byte `y`.
abbrev pub parser_at : List ℕ → ℕ → ℕ → ℕ → ℕ → Parser
parser_at s i type y n = record {
  classes = parser_no_classes;
  def = parser_utils_strcmpi true s;
  state = i;
  e1 = record { type = type; chars = y ∷ 0 ∷ 0 ∷ []; n = n };
  e2 = no_event;
  next = false;
}

not_next : (m k : ℕ) → (m + 1 == m + suc (suc k)) ≡ false
not_next m k = ground arith

mark-end :
    (pre w : List ℕ) (x : ℕ)
    → (if length pre + 1 == length (pre ++ (x ∷ w)) then eq else mayeq) ≡ mark w
mark-end pre [] x =
    let e : (length pre + 1 == length (pre ++ (x ∷ []))) ≡ true =
      ap (λ k. length pre + 1 == k) (length-append pre (x ∷ [])) ∙ equal_refl (length pre + 1) in
    rw e refl
mark-end pre (y ∷ w) x =
    let e : (length pre + 1 == length (pre ++ (x ∷ y ∷ w))) ≡ false =
      ap (λ k. length pre + 1 == k) (length-append pre (x ∷ y ∷ w))
      ∙ not_next (length pre) (length w) in
    rw e refl

pub letter-feed :
    (pre w : List ℕ) (x type y n c : ℕ)
    → x < 128
    → c < 255
    → parser_feed (parser_at (pre ++ (x ∷ w)) (length pre) type y n) c
      ≡ ok (
          if same_letter c x
          then parser_at (pre ++ (x ∷ w)) (length pre + 1) (event_code (mark w)) c 1
          else parser_at (pre ++ (x ∷ w)) (length (pre ++ (x ∷ w)) + 1) (event_code neq) c 1)
unfolding parser_feed parser_utils_strcmpi
letter-feed pre w x type y n c h k =
    let s = pre ++ (x ∷ w) in
    let size = length s in
    let inside : length pre < size = omega (arith, length-append pre (x ∷ w)) in
    rw
      (
        class-none 255 c k,
        letter-state pre w x size,
        letter-count size (length pre) (1 ∷ 1 ∷ []) inside,
        letter-match size (length pre) c x (parser_at s (length pre) type y n) h,
        mark-end pre w x,
      )
      refl

-- The two states behind the letters: that of the whole word and that of another text.
abbrev pub IsSink : List ℕ → ℕ → Type 0
IsSink s i = (i ≡ length s) ⊎ (i ≡ length s + 1)

sink-states :
    (s : List ℕ) (i : ℕ)
    → IsSink s i
    → (load (letter_rows (length s) 0 s ++ sinks (length s)) i ≡ ok (to_neq (length s) ∷ []))
      × (load {A = ℕ} (replicate (length s) 3 ++ (1 ∷ 1 ∷ [])) i ≡ ok 1)
sink-states s i (inl e) =
    let n = length s in
    (
      load-at (letter_rows n 0 s) (to_neq n ∷ []) ((to_neq n ∷ []) ∷ []) i
          (length-letter_rows n 0 s ∙ sym e),
      load-at (replicate n 3) 1 (1 ∷ []) i (length-replicate n 3 ∙ sym e),
    )
sink-states s i (inr e) =
    let n = length s in
    let rows = letter_rows n 0 s in
    let numbers = replicate n 3 in
    (
      ap (λ r. load r i) (sym (append_assoc rows ((to_neq n ∷ []) ∷ []) ((to_neq n ∷ []) ∷ [])))
          ∙ load-at (rows ++ ((to_neq n ∷ []) ∷ [])) (to_neq n ∷ []) [] i (
              length-append rows ((to_neq n ∷ []) ∷ [])
              ∙ ap (λ k. k + 1) (length-letter_rows n 0 s)
              ∙ sym e),
      ap (λ r. load r i) (sym (append_assoc numbers (1 ∷ []) (1 ∷ [])))
          ∙ load-at (numbers ++ (1 ∷ [])) 1 [] i
              (length-append numbers (1 ∷ []) ∙ ap (λ k. k + 1) (length-replicate n 3) ∙ sym e),
    )

pub sink-feed :
    (s : List ℕ) (i type y n c : ℕ)
    → IsSink s i
    → c < 255
    → parser_feed (parser_at s i type y n) c ≡ ok (parser_at s (length s + 1) (event_code neq) c 1)
unfolding parser_feed parser_utils_strcmpi find_match
sink-feed s i type y n c h k =
    let (row, count) = sink-states s i h in rw (class-none 255 c k, row, count) refl
