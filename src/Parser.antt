-- ===== src/Parser.antt =====
-- parser.c and parser.h: the engine that runs a table of transitions over bytes.
pub mod Strcmpi
pub mod Rows
pub mod Steps
pub mod Compare
mod Tests
use Prim.Native.Nat.{bit_and}
use tpe_protos.Base.{
  ℕ, zero, suc, ◌+◌, ℤ, pos, negsuc, Bool, true, false, not, Option, none, some, List, [], ◌∷◌,
  Result, ok, ◌>>=◌, load, leb, ◌==◌, if◌then◌else◌, replicate,
}

-- `struct parser_event`, with its array `data` as `chars`; its pointer `next` is kept by the parser.
pub record Event : Type 0 where
  pub type : ℕ
  pub chars : List ℕ
  pub n : ℕ

-- `struct parser_state_transition`; `act1` is required and `act2` may be null.
pub record Transition : Type 0 where
  pub when : ℤ
  pub dest : ℕ
  pub act1 : Event → ℕ → Event
  pub act2 : Option (Event → ℕ → Event)

-- `struct parser_definition`: for each state the array of its transitions and their number. A null
-- pointer is an empty list.
pub record Definition : Type 0 where
  pub states_count : ℕ
  pub states : List (List Transition)
  pub states_n : List ℕ
  pub start_state : ℕ

-- `struct parser`: `next` is whether the event `e1` points to `e2`.
pub record Parser : Type 0 where
  pub classes : List ℕ
  pub def : Definition
  pub state : ℕ
  pub e1 : Event
  pub e2 : Event
  pub next : Bool

-- `ANY`
abbrev pub any : ℕ
any = 512

abbrev pub no_event : Event
no_event = record { type = 0; chars = replicate 3 0; n = 0 }

-- `parser_init`; `allocated` is whether `malloc` succeeds.
unfoldable pub parser_init : Bool → List ℕ → Definition → Option Parser
parser_init true classes def = some (record {
  classes = classes;
  def = def;
  state = def.start_state;
  e1 = no_event;
  e2 = no_event;
  next = false;
})
parser_init false classes def = none

unfoldable pub parser_reset : Parser → Parser
parser_reset p = record p { state = p.def.start_state }

-- Whether a transition matches a byte of a class: a byte, any, or a set of classes.
abbrev pub matches : ℕ → ℕ → ℤ → Bool
matches type c (negsuc n) = false
matches type c (pos when) =
    if leb when 255 then c == when else if when == any then true else not (bit_and type when == 0)

-- The loop over the transitions of a state, with the rounds left and `i`.
unfoldable pub find_match : ℕ → ℕ → ℕ → ℕ → List Transition → Result (Option Transition)
find_match zero i type c row = ok none
find_match (suc n) i type c row =
    let rest = find_match n (i + 1) type c row in
    load row i >>= λ t. if matches type c t.when then ok (some t) else rest

abbrev pub act_again : Option (Event → ℕ → Event) → ℕ → Parser → Parser
act_again none c p = p
act_again (some act2) c p = record p { next = true; e2 = act2 p.e2 c }

abbrev pub take_transition : Option Transition → ℕ → Parser → Parser
take_transition none c p = p
take_transition (some t) c p = record (act_again t.act2 c (record p { e1 = t.act1 p.e1 c })) {
  state = t.dest;
}

-- `parser_feed`; what it returns is the event `e1` of the parser behind it.
unfoldable pub parser_feed : Parser → ℕ → Result Parser
unfolding find_match
parser_feed p c = load p.classes c >>= λ type. load p.def.states p.state >>= λ row.
    load p.def.states_n p.state >>= λ n.
    find_match n 0 type c row >>= λ t. ok (take_transition t c (record p { next = false }))

-- `parser_no_classes`: an array of `0xFF` elements.
abbrev pub parser_no_classes : List ℕ
parser_no_classes = replicate 255 0
