-- ===== src/Udp/Answers.antt =====
-- udpserver.c: which commands are answered, and what they leave of the server.
use tpe_protos.Base.{
  ℕ, Bool, true, false, ◌||◌, sym, ◌∙◌, Bool-cases, if◌then◌else◌, Option, none, some, List, [],
  ◌∷◌, ◌≡◌, refl, inl, inr, ok, err, uninitialized, Holds, Holds-value, Holds-if, Holds-err, codes,
  same_nocase, same_letter, to_lower, equal→≡, both-left, Option-cases, true-ne_false,
}
use tpe_protos.Smtp.{Server, set_new_status}
use tpe_protos.Udp.Commands.{
  Command, historico, actual, bytes, mail, cant, status, transon, transoff, which, execute, answer,
  max_command, is_max,
}

-- A command of help is none of max.
help-max : (text : List ℕ) → same_nocase text (codes "help\n") ≡ true → is_max text ≡ false
help-max [] h = refl
help-max (_ ∷ []) h = refl
help-max (_ ∷ _ ∷ []) h = refl
help-max (_ ∷ _ ∷ _ ∷ []) h = refl
help-max (m ∷ a ∷ x ∷ b ∷ s) h =
    rw (equal→≡ (to_lower m) b'h' (both-left (same_letter m b'h') _ h)) refl

execute-max_user : (c : Command) (server : Server) → (execute c server).1.max_user ≡ server.max_user
unfolding execute set_new_status
execute-max_user historico server = refl
execute-max_user actual server = refl
execute-max_user bytes server = refl
execute-max_user mail server = refl
execute-max_user cant server = refl
execute-max_user status server = refl
execute-max_user transon server = refl
execute-max_user transoff server = refl

max_command-max_user :
    (text : List ℕ) (server : Server)
    → same_nocase text (codes "help\n") ≡ true
    → Holds (λ r. r.1.max_user ≡ server.max_user) (max_command text server)
unfolding max_command
max_command-max_user text server h = rw (help-max text h) (Holds-value _ refl)

-- A command leaves the maximal number of users as it is.
pub answer-max_user :
    (text : List ℕ) (server : Server)
    → Holds (λ r. r.1.max_user ≡ server.max_user) (answer text server)
unfolding answer
answer-max_user text server = elim (Option-cases (which text)) [
  | inl e ↦ rw e (Holds-if _ _ _ (max_command-max_user text server) (λ _. Holds-err uninitialized))
  | inr (c, e) ↦ rw e (Holds-value _ (execute-max_user c server))
]

-- The lines that are commands, in any case.
abbrev pub commands : List (List ℕ)
commands =
    codes "historico\n"
    ∷ codes "actual\n"
    ∷ codes "bytes\n"
    ∷ codes "mail\n"
    ∷ codes "cant\n"
    ∷ codes "status\n"
    ∷ codes "transon\n"
    ∷ codes "transoff\n"
    ∷ codes "help\n"
    ∷ []

abbrev pub is_one_of : List (List ℕ) → List ℕ → Bool
is_one_of [] text = false
is_one_of (line ∷ lines) text = same_nocase text line || is_one_of lines text

abbrev pub is_command : List ℕ → Bool
is_command text = is_one_of commands text

unfoldable is_known : Option Command → List ℕ → Bool
is_known (some c) text = true
is_known none text = same_nocase text (codes "help\n")

-- The command of the first line of a table that is the text.
abbrev lookup : List (List ℕ × Command) → List ℕ → Option Command
lookup [] text = none
lookup ((line, c) ∷ table) text = if same_nocase text line then some c else lookup table text

abbrev lines_of : List (List ℕ × Command) → List (List ℕ)
lines_of [] = codes "help\n" ∷ []
lines_of ((line, c) ∷ table) = line ∷ lines_of table

is_known-lookup :
    (table : List (List ℕ × Command)) (text : List ℕ)
    → is_known (lookup table text) text ≡ is_one_of (lines_of table) text
unfolding is_known
is_known-lookup [] text = elim (Bool-cases (same_nocase text (codes "help\n"))) [
  | inl e ↦ rw e refl
  | inr e ↦ rw e refl
]
is_known-lookup ((line, c) ∷ table) text = elim (Bool-cases (same_nocase text line)) [
  | inl e ↦ rw e refl
  | inr e ↦ rw e (is_known-lookup table text)
]

abbrev table : List (List ℕ × Command)
table =
    (codes "historico\n", historico)
    ∷ (codes "actual\n", actual)
    ∷ (codes "bytes\n", bytes)
    ∷ (codes "mail\n", mail)
    ∷ (codes "cant\n", cant)
    ∷ (codes "status\n", status)
    ∷ (codes "transon\n", transon)
    ∷ (codes "transoff\n", transoff)
    ∷ []

is_command-known : (text : List ℕ) → is_command text ≡ is_known (which text) text
unfolding which
is_command-known text = sym (is_known-lookup table text)

max_command-help :
    (text : List ℕ) (server : Server)
    → same_nocase text (codes "help\n") ≡ true
    → (a : List ℕ) × (max_command text server ≡ ok (a, server))
unfolding max_command
max_command-help text server h = rw (help-max text h) (_, refl)

-- A command is answered.
pub answer-command :
    (text : List ℕ) (server : Server)
    → is_command text ≡ true
    → (r : List ℕ × Server) × (answer text server ≡ ok r)
unfolding answer is_known
answer-command text server is =
    let h = sym (is_command-known text) ∙ is in
    elim (Option-cases (which text)) [
      | inl e ↦
          let k = rw e at h in
          let (a, returns) = max_command-help text server k in ((a, server), rw (e, k) returns)
      | inr (c, e) ↦ (execute c server, rw e refl)
    ]

-- Any other text is answered from a variable that was never written.
pub answer-unknown :
    (text : List ℕ) (server : Server)
    → is_command text ≡ false
    → answer text server ≡ err uninitialized
unfolding answer is_known
answer-unknown text server is =
    let h = sym (is_command-known text) ∙ is in
    elim (Option-cases (which text)) [
      | inl e ↦ rw (e, rw e at h) refl
      | inr (c, e) ↦ absurd (true-ne_false (rw e at h))
    ]
