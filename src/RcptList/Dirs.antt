-- ===== src/RcptList/Dirs.antt =====
-- rcpt_to_list.c: the directories of a recipient.
use tpe_protos.Base.{
  ℕ, suc, ◌≤◌, arith, Bool, true, false, ◌||◌, none, List, [], ◌∷◌, ◌++◌, ◌≡◌, refl, sym, ap, ◌∙◌,
  inl, inr, Result, ok, ◌==◌, length, length-append, take_all, same_text, same_text_refl,
  Bool-cases, true-ne_false, bind-ok, codes,
}
use mathlib.Core.Path.{subst}
use tpe_protos.RcptList.Disk.{
  FilePath, Disk, is_in, named, has_slash, is_name, parent, is_empty, has_parent,
}
use tpe_protos.RcptList.Files.{System, mails, mailbox, part, ensure_dir, ensure_dirs}

slash-behind : (x f : List ℕ) → has_slash (x ++ (b'/' ∷ f)) ≡ true
slash-behind [] f = refl
slash-behind (c ∷ x) f = elim (Bool-cases (c == b'/')) [
  | inl e ↦ rw e refl
  | inr e ↦ rw e (slash-behind x f)
]

-- The directory of a file whose name has no slash.
pub parent-append : (x f : List ℕ) → has_slash f ≡ false → parent (x ++ (b'/' ∷ f)) ≡ x
parent-append [] f h = rw h refl
parent-append (c ∷ x) f h = rw (slash-behind x f) (ap (◌∷◌ c) (parent-append x f h))

pub is_name-one : (s : List ℕ) → is_name s ≡ true → has_slash s ≡ false
is_name-one s h = elim (Bool-cases (has_slash s)) [
  | inl e ↦ absurd (true-ne_false (sym h ∙ rw e refl))
  | inr e ↦ e
]

-- A disk with other directories.
abbrev pub with_dirs : Disk → List FilePath → Disk
with_dirs d dirs = record d { dirs = dirs }

abbrev Includes : List FilePath → List FilePath → Type 0
Includes old new = (q : FilePath) → is_in q old ≡ true → is_in q new ≡ true

-- What `ensure_dir` leaves: the directory is there, and those of before.
abbrev Ensured : Disk → FilePath → Result Disk → Type 0
Ensured d p m =
    (dirs : List FilePath) × (m ≡ ok (with_dirs d dirs))
    × (is_in p dirs ≡ true)
    × Includes d.dirs dirs

module _ (sys : System) (permits : (p : FilePath) → sys.permits p ≡ true) where
  ensure_dir-Ensured :
      (p : FilePath) (d : Disk)
      → named p d.names ≡ none
      → has_parent p d ≡ true
      → Ensured d p (ensure_dir sys p d)
  unfolding ensure_dir
  ensure_dir-Ensured p d free h = elim (Bool-cases (is_in p d.dirs)) [
    | inl e ↦ (d.dirs, rw e refl, e, λ q k. k)
    | inr e ↦ (
      p ∷ d.dirs,
      rw (e, free, permits p, h) refl,
      rw (same_text_refl p) refl,
      λ q k. elim (Bool-cases (same_text p q)) [ inl t ↦ rw t refl | inr t ↦ rw t k ],
    )
  ]

abbrev pub box : List ℕ → FilePath
box email = codes "mails/" ++ email

abbrev pub inside : List ℕ → List ℕ → FilePath
inside email name = box email ++ name

-- No file has the name of a directory that a mail needs, or of the file of the mail.
pub record IsFree (email filename : List ℕ) (d : Disk) : Type 0 where
  pub no_mails : named mails d.names ≡ none
  pub no_box : named (box email) d.names ≡ none
  pub no_new : named (inside email (codes "/new")) d.names ≡ none
  pub no_cur : named (inside email (codes "/cur")) d.names ≡ none
  pub no_tmp : named (inside email (codes "/tmp")) d.names ≡ none
  pub no_file : named (inside email (codes "/tmp" ++ (codes "/" ++ filename))) d.names ≡ none

pub or_true : (b : Bool) → (b || true) ≡ true
or_true true = refl
or_true false = refl

pub has_parent-in :
    (p q : FilePath) (d : Disk) → parent p ≡ q → is_in q d.dirs ≡ true → has_parent p d ≡ true
has_parent-in p q d e h = rw (e, h) (or_true (is_empty q))

pub mailbox-box : (email : List ℕ) → length email ≤ 39 → mailbox email ≡ box email
unfolding mailbox
mailbox-box email h = take_all 45 (box email) (omega arith)

pub part-inside :
    (email name : List ℕ)
    → length email ≤ 39
    → length name ≡ 4
    → part (mailbox email) name ≡ inside email name
unfolding part
part-inside email name h k =
    ap (λ dir. part dir name) (mailbox-box email h)
    ∙ take_all 49 (inside email name) (omega (arith, length-append (box email) name, k))

module _ (sys : System) (permits : (p : FilePath) → sys.permits p ≡ true) (email filename : List ℕ)
    (short : length email ≤ 39) (one_name : has_slash email ≡ false) where
  sub-Ensured :
      (name : List ℕ) (d : Disk)
      → length name ≡ 3
      → has_slash name ≡ false
      → named (inside email (b'/' ∷ name)) d.names ≡ none
      → is_in (box email) d.dirs ≡ true
      → Ensured d
          (inside email (b'/' ∷ name))
          (ensure_dir sys (part (mailbox email) (b'/' ∷ name)) d)
  sub-Ensured name d size no_slash free h =
      let e = part-inside email (b'/' ∷ name) short (ap suc size) in
      subst (λ p. Ensured d (inside email (b'/' ∷ name)) (ensure_dir sys p d)) (sym e)
        (ensure_dir-Ensured sys permits (inside email (b'/' ∷ name)) d free (
          has_parent-in (inside email (b'/' ∷ name)) (box email) d
            (parent-append (box email) name no_slash) h))

  -- The directories of a mail are made, and the files stay.
  pub dirs-Ensured :
      (d : Disk)
      → IsFree email filename d
      → (first dirs : List FilePath) × (ensure_dir sys mails d ≡ ok (with_dirs d first))
        × (ensure_dirs sys email (with_dirs d first) ≡ ok (with_dirs d dirs))
        × (is_in (inside email (codes "/new")) dirs ≡ true)
        × (is_in (inside email (codes "/tmp")) dirs ≡ true)
  dirs-Ensured d free =
      let (a, e1, in1, _) = ensure_dir-Ensured sys permits mails d free.no_mails refl in
      let d1 = with_dirs d a in
      let (b, e2, in2, _) =
        ensure_dir-Ensured sys permits (box email) d1 free.no_box
          (has_parent-in (box email) mails d1 (parent-append mails email one_name) in1) in
      let (c, e3, in3, k3) = sub-Ensured (codes "new") (with_dirs d b) refl refl free.no_new in2 in
      let (g, e4, in4, k4) =
        sub-Ensured (codes "cur") (with_dirs d c) refl refl free.no_cur (k3 (box email) in2) in
      let (h, e5, in5, k5) =
        sub-Ensured (codes "tmp") (with_dirs d g) refl refl free.no_tmp
          (k4 (box email) (k3 (box email) in2)) in
      (
        a,
        h,
        e1,
        bind-ok _ (ap (λ p. ensure_dir sys p d1) (mailbox-box email short) ∙ e2)
            (bind-ok _ e3 (bind-ok _ e4 e5)),
        k5 (inside email (codes "/new")) (k4 (inside email (codes "/new")) in3),
        in5,
      )
