-- ===== src/RcptList/Closing.antt =====
-- rcpt_to_list.c: the file of a recipient under its two names.
use tpe_protos.Base.{
  ℕ, true, false, Option, none, some, List, [], ◌∷◌, ◌++◌, append_assoc, ◌≡◌, refl, sym, ap, ◌∙◌,
  ok, length, get_elem?, get_elem?-length, same_text_refl, codes,
}
use tpe_protos.RcptList.Disk.{
  FilePath, Descriptor, Disk, is_in, named, stat, has_slash, parent, without, rename,
}
use tpe_protos.RcptList.Files.{System, move_file}
use tpe_protos.RcptList.Dirs.{or_true, parent-append, box, inside, has_parent-in}
use tpe_protos.RcptList.Contents.{disk}

abbrev pub tmp_path : List ℕ → List ℕ → FilePath
tmp_path email filename = inside email (codes "/tmp" ++ (codes "/" ++ filename))

abbrev pub new_path : List ℕ → List ℕ → FilePath
new_path email filename = inside email (codes "/new" ++ (codes "/" ++ filename))

-- The content of the file with a name.
abbrev pub content_in : Option ℕ → Disk → Option (List ℕ)
content_in none d = none
content_in (some i) d = get_elem? d.inodes i

abbrev pub content : FilePath → Disk → Option (List ℕ)
content p d = content_in (named p d.names) d

-- The disk with the new file, whose content is `c`.
abbrev pub with_file :
    List ℕ → List ℕ → Disk → List FilePath → List ℕ → List Descriptor → Descriptor → Disk
with_file email filename d dirs c ds o =
    disk dirs ((tmp_path email filename, length d.inodes) ∷ d.names) d.inodes c ds o

-- The disk with the file under its last name.
abbrev pub moved :
    List ℕ → List ℕ → Disk → List FilePath → List ℕ → List Descriptor → Descriptor → Disk
moved email filename d dirs c ds o =
    disk dirs
      ((new_path email filename, length d.inodes)
        ∷ without (tmp_path email filename) (
            without (new_path email filename)
              ((tmp_path email filename, length d.inodes) ∷ d.names)))
      d.inodes c ds o

module _ (sys : System) (permits : (p : FilePath) → sys.permits p ≡ true) (email filename : List ℕ)
    (one_name : has_slash filename ≡ false) where
  stat-tmp :
      (d : Disk) (dirs : List FilePath) (c : List ℕ) (ds : List Descriptor) (o : Descriptor)
      → stat (tmp_path email filename) (with_file email filename d dirs c ds o) ≡ true
  stat-tmp d dirs c ds o =
      rw (same_text_refl (tmp_path email filename)) (or_true (is_in (tmp_path email filename) dirs))

  rename-new :
      (d : Disk) (dirs : List FilePath) (c : List ℕ) (ds : List Descriptor) (o : Descriptor)
      → is_in (inside email (codes "/new")) dirs ≡ true
      → rename sys.permits
          (tmp_path email filename)
          (new_path email filename)
          (with_file email filename d dirs c ds o)
        ≡ some (moved email filename d dirs c ds o)
  rename-new d dirs c ds o there =
      let dir = inside email (codes "/new") in
      let up =
        has_parent-in (new_path email filename) dir (with_file email filename d dirs c ds o)
          (ap parent (sym (append_assoc (box email) (codes "/new") (codes "/" ++ filename)))
            ∙ parent-append dir filename one_name)
          there in
      rw (same_text_refl (tmp_path email filename), permits (new_path email filename), up) refl

  pub content-new :
      (d : Disk) (dirs : List FilePath) (c : List ℕ) (ds : List Descriptor) (o : Descriptor)
      → content (new_path email filename) (moved email filename d dirs c ds o) ≡ some c
  content-new d dirs c ds o =
      rw (same_text_refl (new_path email filename)) (get_elem?-length d.inodes c [])

  pub move_file-moved :
      (d : Disk) (dirs : List FilePath) (c : List ℕ) (ds : List Descriptor) (o : Descriptor)
      → is_in (inside email (codes "/new")) dirs ≡ true
      → move_file sys
          (tmp_path email filename)
          (new_path email filename)
          (with_file email filename d dirs c ds o)
        ≡ ok (moved email filename d dirs c ds o)
  unfolding move_file
  move_file-moved d dirs c ds o there =
      rw (stat-tmp d dirs c ds o, rename-new d dirs c ds o there) refl
