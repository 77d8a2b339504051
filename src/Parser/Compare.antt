-- ===== src/Parser/Compare.antt =====
-- parser.c and parser_utils.c: the table of a word, run over a text, compares the two in any case.
use tpe_protos.Base.{
  ℕ, ◌+◌, ◌<◌, true, false, some, List, [], ◌∷◌, ◌++◌, append-nil, append_assoc, ◌≡◌, refl, sym, ap,
  inl, inr, Result, ok, err, out_of_bounds, ◌>>=◌, if◌then◌else◌, length, length-append, take,
  same_letter, same_nocase, Bool-cases,
}
use mathlib.Core.Path.{subst}
use tpe_protos.Parser.{Parser, parser_feed, parser_init, parser_no_classes}
use tpe_protos.Parser.Strcmpi.{StringCmp, mayeq, eq, neq, event_code, parser_utils_strcmpi}
use tpe_protos.Parser.Steps.{mark, event, parser_at, letter-feed, IsSink, sink-feed}

-- `parser_feed` for each byte.
abbrev pub feed_all : List ℕ → Parser → Result Parser
feed_all [] p = ok p
feed_all (c ∷ text) p = parser_feed p c >>= feed_all text

abbrev pub AreAscii : List ℕ → Type 0
AreAscii [] = Unit {0}
AreAscii (x ∷ s) = (x < 128) × AreAscii s

-- The bytes that have a class in `parser_no_classes`.
abbrev pub HaveClass : List ℕ → Type 0
HaveClass [] = Unit {0}
HaveClass (c ∷ text) = (c < 255) × HaveClass text

-- What the last byte of the text `c ∷ text` tells of the word.
abbrev told : List ℕ → ℕ → List ℕ → StringCmp
told [] c text = neq
told (x ∷ w) c [] = if same_letter c x then mark w else neq
told (x ∷ w) c (d ∷ text) = let rest = told w d text in if same_letter c x then rest else neq

abbrev pub last_byte : ℕ → List ℕ → ℕ
last_byte c [] = c
last_byte c (d ∷ text) = last_byte d text

sink-run :
    (s text : List ℕ) (i type y n c : ℕ)
    → IsSink s i
    → HaveClass (c ∷ text)
    → feed_all (c ∷ text) (parser_at s i type y n)
      ≡ ok (parser_at s (length s + 1) (event_code neq) (last_byte c text) 1)
sink-run s [] i type y n c h (k, ks) = rw (sink-feed s i type y n c h k) refl
sink-run s (d ∷ text) i type y n c h (k, ks) =
    rw (sink-feed s i type y n c h k)
      (sink-run s text (length s + 1) (event_code neq) c 1 d (inr refl) ks)

letters-run :
    (pre w text : List ℕ) (type y n c : ℕ)
    → AreAscii w
    → HaveClass (c ∷ text)
    → (i : ℕ) × (feed_all (c ∷ text) (parser_at (pre ++ w) (length pre) type y n)
        ≡ ok (parser_at (pre ++ w) i (event_code (told w c text)) (last_byte c text) 1))
letters-run pre [] text type y n c h ks = (
  _,
  sink-run (pre ++ []) text (length pre) type y n c (inl (ap length (sym (append-nil pre)))) ks,
)
letters-run pre (x ∷ w) [] type y n c (h, hs) (k, ks) = elim (Bool-cases (same_letter c x)) [
  | inl e ↦ (length pre + 1, rw (letter-feed pre w x type y n c h k, e) refl)
  | inr e ↦ (length (pre ++ (x ∷ w)) + 1, rw (letter-feed pre w x type y n c h k, e) refl)
]
letters-run pre (x ∷ w) (d ∷ text) type y n c (h, hs) (k, ks) =
    elim (Bool-cases (same_letter c x)) [
      | inl e ↦
          let (i, rest) = letters-run (pre ++ (x ∷ [])) w text (event_code (mark w)) c 1 d hs ks in
          let run =
            subst
              (λ s.
                feed_all (d ∷ text)
                  (parser_at s (length (pre ++ (x ∷ []))) (event_code (mark w)) c 1)
                ≡ ok (parser_at s i (event_code (told w d text)) (last_byte d text) 1))
              (append_assoc pre (x ∷ []) w) rest in
          (i, rw (letter-feed pre w x type y n c h k, e) (rw (length-append pre (x ∷ [])) at run))
      | inr e ↦ (
        length (pre ++ (x ∷ w)) + 1,
        rw (letter-feed pre w x type y n c h k, e)
            (sink-run (pre ++ (x ∷ w)) text (length (pre ++ (x ∷ w)) + 1) (event_code neq) c 1 d
              (inr refl) ks),
      )
    ]

-- What a text tells of a word: it is the word, a start of it, or neither, in any case.
abbrev pub verdict : List ℕ → List ℕ → StringCmp
verdict s text =
    if same_nocase text s
    then eq
    else if same_nocase text (take (length text) s)
    then mayeq
    else neq

told-verdict : (w text : List ℕ) (c : ℕ) → told w c text ≡ verdict w (c ∷ text)
told-verdict [] text c = refl
told-verdict (x ∷ []) [] c = elim (Bool-cases (same_letter c x)) [
  | inl e ↦ rw e refl
  | inr e ↦ rw e refl
]
told-verdict (x ∷ y ∷ w) [] c = elim (Bool-cases (same_letter c x)) [
  | inl e ↦ rw e refl
  | inr e ↦ rw e refl
]
told-verdict (x ∷ w) (d ∷ text) c = elim (Bool-cases (same_letter c x)) [
  | inl e ↦ rw e (told-verdict w text d)
  | inr e ↦ rw e refl
]

first-parser :
    (s : List ℕ)
    → parser_init true parser_no_classes (parser_utils_strcmpi true s) ≡ some (parser_at s 0 0 0 0)
unfolding parser_init parser_utils_strcmpi
first-parser s = refl

no-class : (p : Parser) → p.classes ≡ parser_no_classes → parser_feed p 255 ≡ err out_of_bounds
unfolding parser_feed
no-class p e = rw e refl

-- A parser of an ASCII word, made with memory and without classes, is fed a text of bytes below
-- 255: no call faults, and behind its last byte the event is one of that byte alone that says
-- whether the text is the word, a start of it, or neither, in any case. The byte 255 is then looked
-- up behind the classes.
pub feed_all-verdict :
    (s text : List ℕ) (c : ℕ)
    → AreAscii s
    → HaveClass (c ∷ text)
    → (p : Parser) × (p' : Parser) × (parser_init true parser_no_classes
          (parser_utils_strcmpi true s)
        ≡ some p)
      × (feed_all (c ∷ text) p ≡ ok p')
      × (p'.e1 ≡ event (verdict s (c ∷ text)) (last_byte c text))
      × (p'.next ≡ false)
      × (parser_feed p' 255 ≡ err out_of_bounds)
feed_all-verdict s text c h ks =
    let (i, run) = letters-run [] s text 0 0 0 c h ks in
    let behind = parser_at s i (event_code (told s c text)) (last_byte c text) 1 in
    (
      parser_at s 0 0 0 0,
      behind,
      first-parser s,
      run,
      ap (λ v. event v (last_byte c text)) (told-verdict s text c),
      refl,
      no-class behind refl,
    )
