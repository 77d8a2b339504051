-- ===== src/Args/Options.antt =====
-- args.c: what the options of a command line leave.
use tpe_protos.Base.{ℕ, List, [], ◌∷◌, ◌≡◌, refl, ap, ◌∙◌}
use tpe_protos.Args.{goes, port, pass, SmtpArgs, defaults, take_option, take_options, parse_args}

-- An option that is accepted, with what it says.
pub data Setting : Type 0 where
  program : List ℕ → Setting
  smtp_port : ℕ → Setting
  mng_port : ℕ → Setting
  password : List ℕ → Setting

-- How a setting stands on the command line.
pub data Says : Setting → ℕ → List ℕ → Type 0 where
  says_program : (s : List ℕ) → Says (program s) b'T' s
  says_smtp_port : (n : ℕ) (s : List ℕ) → port s ≡ goes n → Says (smtp_port n) b'p' s
  says_mng_port : (n : ℕ) (s : List ℕ) → port s ≡ goes n → Says (mng_port n) b'P' s
  says_password : (s : List ℕ) → pass s ≡ goes s → Says (password s) b'u' s

pub data AllSay : List Setting → List (ℕ × List ℕ) → Type 0 where
  none_says : AllSay [] []
  next_says :
      (x : Setting) (xs : List Setting) (c : ℕ) (s : List ℕ) (options : List (ℕ × List ℕ))
      → Says x c s
      → AllSay xs options
      → AllSay (x ∷ xs) ((c, s) ∷ options)

-- The last setting of each kind, or the default.
abbrev pub last_program : List ℕ → List Setting → List ℕ
last_program s [] = s
last_program s (program s' ∷ xs) = last_program s' xs
last_program s (_ ∷ xs) = last_program s xs

abbrev pub last_smtp_port : ℕ → List Setting → ℕ
last_smtp_port n [] = n
last_smtp_port n (smtp_port n' ∷ xs) = last_smtp_port n' xs
last_smtp_port n (_ ∷ xs) = last_smtp_port n xs

abbrev pub last_mng_port : ℕ → List Setting → ℕ
last_mng_port n [] = n
last_mng_port n (mng_port n' ∷ xs) = last_mng_port n' xs
last_mng_port n (_ ∷ xs) = last_mng_port n xs

abbrev pub last_password : List ℕ → List Setting → List ℕ
last_password s [] = s
last_password s (password s' ∷ xs) = last_password s' xs
last_password s (_ ∷ xs) = last_password s xs

abbrev pub settled : SmtpArgs → List Setting → SmtpArgs
settled args xs = record {
  smtp_port = last_smtp_port args.smtp_port xs;
  mng_port = last_mng_port args.mng_port xs;
  transformations = last_program args.transformations xs;
  pass = last_password args.pass xs;
}

abbrev set_one : SmtpArgs → Setting → SmtpArgs
set_one args (program s) = record args { transformations = s }
set_one args (smtp_port n) = record args { smtp_port = n }
set_one args (mng_port n) = record args { mng_port = n }
set_one args (password s) = record args { pass = s }

take_option-Says :
    (x : Setting) (c : ℕ) (s : List ℕ) (args : SmtpArgs)
    → Says x c s
    → take_option c s args ≡ goes (set_one args x)
unfolding take_option
take_option-Says _ _ _ args (says_program s) = refl
take_option-Says _ _ _ args (says_smtp_port n s e) = rw e refl
take_option-Says _ _ _ args (says_mng_port n s e) = rw e refl
take_option-Says _ _ _ args (says_password s e) = rw e refl

settled-next :
    (args : SmtpArgs) (x : Setting) (xs : List Setting)
    → settled (set_one args x) xs ≡ settled args (x ∷ xs)
settled-next args (program s) xs = refl
settled-next args (smtp_port n) xs = refl
settled-next args (mng_port n) xs = refl
settled-next args (password s) xs = refl

take_options-AllSay :
    (xs : List Setting) (options : List (ℕ × List ℕ)) (args : SmtpArgs)
    → AllSay xs options
    → take_options options args ≡ goes (settled args xs)
unfolding take_options
take_options-AllSay _ _ args none_says = refl
take_options-AllSay _ _ args (next_says x xs c s options h hs) =
    rw (take_option-Says x c s args h)
      (take_options-AllSay xs options (set_one args x) hs ∙ ap goes (settled-next args x xs))

-- With options that are accepted, in any order and number, and no operands `parse_args` goes on: each
-- field has what the last option of its kind says, or its default.
pub parse_args-AllSay :
    (xs : List Setting) (options : List (ℕ × List ℕ))
    → AllSay xs options
    → parse_args options [] ≡ goes (settled defaults xs)
unfolding parse_args
parse_args-AllSay xs options h = rw (take_options-AllSay xs options defaults h) refl
