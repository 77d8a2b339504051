-- ===== src/Parser/Strcmpi.antt =====
-- parser_utils.c and parser_utils.h: the table that compares text with a word in any case.
use tpe_protos.Base.{
  ℕ, ◌+◌, ◌-◌, ℤ, pos, negsuc, Bool, true, false, none, List, [], ◌∷◌, ◌++◌, Result, ok, ◌>>=◌,
  load, ltb, ◌==◌, if◌then◌else◌, length, set, replicate, codes, to_lower, to_upper,
}
use tpe_protos.Parser.{Event, Transition, Definition, any}

-- `enum string_cmp_event_types`
pub data StringCmp : Type 0 where
  mayeq eq neq : StringCmp

abbrev pub event_code : StringCmp → ℕ
event_code mayeq = 0
event_code eq = 1
event_code neq = 2

abbrev pub parser_utils_strcmpi_event : StringCmp → List ℕ
parser_utils_strcmpi_event mayeq = codes "wait(c)"
parser_utils_strcmpi_event eq = codes "eq(c)"
parser_utils_strcmpi_event neq = codes "neq(c)"

-- `may_eq`, `eq` and `neq`
abbrev pub tell : StringCmp → Event → ℕ → Event
tell type ret c = record { type = event_code type; chars = set ret.chars 0 c; n = 1 }

-- A byte of the word as a `char`, which has a sign. `tolower` and `toupper` leave what is negative.
abbrev pub on_char : (ℕ → ℕ) → ℕ → ℤ
on_char f b = if ltb b 128 then pos (f b) else negsuc (255 - b)

abbrev pub transition : ℤ → ℕ → StringCmp → Transition
transition when dest type = record { when = when; dest = dest; act1 = tell type; act2 = none }

-- The transition of the last two states, and the last one of the others.
abbrev pub to_neq : ℕ → Transition
to_neq n = transition (pos any) (n + 1) neq

-- The transitions of the state `i` of a word of `n` letters, of which `x` is the one at `i`.
abbrev pub letter_row : ℕ → ℕ → ℕ → List Transition
letter_row n i x =
    let dest = if i + 1 == n then n else i + 1 in
    let type = if i + 1 == n then eq else mayeq in
    transition (on_char to_lower x) dest type
    ∷ transition (on_char to_upper x) dest type
    ∷ to_neq n
    ∷ []

-- The loop over the letters.
abbrev pub letter_rows : ℕ → ℕ → List ℕ → List (List Transition)
letter_rows n i [] = []
letter_rows n i (x ∷ s) = letter_row n i x ∷ letter_rows n (i + 1) s

abbrev pub sinks : ℕ → List (List Transition)
sinks n = (to_neq n ∷ []) ∷ (to_neq n ∷ []) ∷ []

-- `parser_utils_strcmpi` of a string; `allocated` is whether all calls of `calloc` succeed. A row is
-- the part of the array of transitions that is written for a state.
unfoldable pub parser_utils_strcmpi : Bool → List ℕ → Definition
parser_utils_strcmpi true s =
    let n = length s in
    record {
      states_count = n + 2;
      states = letter_rows n 0 s ++ sinks n;
      states_n = replicate n 3 ++ (1 ∷ 1 ∷ []);
      start_state = 0;
    }
parser_utils_strcmpi false s = record {
  states_count = 0;
  states = [];
  states_n = [];
  start_state = 0;
}

-- `parser_utils_strcmpi_destroy`: the array of transitions is freed through the first state.
unfoldable pub parser_utils_strcmpi_destroy : Definition → Result (Unit {0})
parser_utils_strcmpi_destroy p = load p.states 0 >>= λ row. ok tt
