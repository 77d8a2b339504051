-- ===== src/RcptList/Slash.antt =====
-- rcpt_to_list.c: a recipient whose address has a slash.
use tpe_protos.Base.{
  ℕ, ◌≤◌, Bool, true, false, ◌&&◌, ◌||◌, Option, none, some, List, ◌∷◌, ◌++◌, ◌≡◌, refl, ap, ◌∙◌,
  Result, ok, err, aborted, ◌>>=◌, if◌then◌else◌, length, bind-ok, c_string,
}
use tpe_protos.Base.Fault.{Fault}
use tpe_protos.RcptList.{Node}
use tpe_protos.RcptList.Disk.{FilePath, Disk, is_in, stat, is_name, is_empty, has_parent}
use tpe_protos.RcptList.Files.{
  System, mails, ensure_dir, create_file, create_files, create_mails_files, or_abort,
}
use tpe_protos.RcptList.Dirs.{parent-append, is_name-one, box, mailbox-box}

no_permission :
    (b : Bool) (d : Disk) (p : FilePath)
    → or_abort (if b && (true && false) then some (record d { dirs = p ∷ d.dirs }) else none)
      ≡ err aborted
no_permission true d p = refl
no_permission false d p = refl

stuck-dir :
    (sys : System) (d : Disk) (p : FilePath)
    → stat p d ≡ false
    → has_parent p d ≡ false
    → ensure_dir sys p d ≡ err aborted
unfolding ensure_dir
stuck-dir sys d p e h = rw (e, h) (no_permission (sys.permits p) d p)

found-dir :
    (sys : System) (d : Disk) (p : FilePath) → is_in p d.dirs ≡ true → ensure_dir sys p d ≡ ok d
unfolding ensure_dir
found-dir sys d p e = rw e refl

bind-err {ℓ κ} :
    {A : Type ℓ} {B : Type κ} {m : Result A} (f : A → Result B) {x : Fault}
    → m ≡ err x
    → (m >>= f) ≡ err x
bind-err f e = ap (λ r. r >>= f) e

-- An address with a slash ends the server: with the directory of mails there, but none for what
-- stands in front of the slash, and nothing under the whole address, `create_mails_files` for a list
-- that begins with it aborts, whatever the system permits. What stands on both sides of the slash is a
-- name.
pub create_mails_files-slash :
    (sys : System) (node : Node) (nodes : List Node) (mailfrom from first rest : List ℕ)
    (program : Option (List ℕ)) (transformations : Bool) (d : Disk)
    → c_string mailfrom ≡ ok from
    → c_string node.email ≡ ok (first ++ (b'/' ∷ rest))
    → length (first ++ (b'/' ∷ rest)) ≤ 39
    → is_name first ≡ true
    → is_name rest ≡ true
    → is_in mails d.dirs ≡ true
    → is_in (box first) d.dirs ≡ false
    → stat (box (first ++ (b'/' ∷ rest))) d ≡ false
    → create_mails_files sys (node ∷ nodes) mailfrom program transformations d ≡ err aborted
unfolding create_mails_files create_files create_file
create_mails_files-slash sys node nodes mailfrom from first rest program transformations d is_from
      is_email short name one there none_first nothing =
    let email = first ++ (b'/' ∷ rest) in
    let up : has_parent (box email) d ≡ false =
      ap (λ p. is_empty p || is_in p d.dirs) (parent-append (box first) rest (is_name-one rest one))
      ∙ none_first in
    let fails =
      ap (λ p. ensure_dir sys p d) (mailbox-box email short)
      ∙ stuck-dir sys d (box email) nothing up in
    bind-ok _ is_from (
      bind-ok _ (found-dir sys d mails there)
        (bind-ok _ is_email (bind-err _ (bind-err _ (bind-err _ fails)))))
