-- ===== src/RcptList/Delivery.antt =====
-- rcpt_to_list.c: what stands in the file of a recipient, from the files of a mail to their closing.
use tpe_protos.Base.{
  ℕ, ◌+◌, ◌-◌, ◌≤◌, arith, Bool, true, false, Option, none, some, List, [], ◌∷◌, ◌++◌, append-nil,
  append_assoc, ◌≡◌, refl, sym, ap, ◌∙◌, ok, length, length-append, get_elem?, get_elem?-length,
  set-length, take_all, bind-ok, codes, c_string,
}
use tpe_protos.RcptList.{Node}
use tpe_protos.RcptList.Disk.{
  FilePath, Descriptor, Disk, is_in, named, has_slash, is_name, parent, open_file, prints,
}
use tpe_protos.RcptList.Files.{
  System, FileNode, mailbox, part, ensure_dirs, filename_of, from_header, transform, create_file,
  create_files, create_mails_files, mail_path, move_file, close_fds, print, or_abort,
}
use tpe_protos.RcptList.Dirs.{
  parent-append, with_dirs, box, inside, IsFree, has_parent-in, part-inside, dirs-Ensured,
  is_name-one,
}
use tpe_protos.RcptList.Closing.{
  tmp_path, new_path, content, with_file, moved, move_file-moved, content-new,
}
use tpe_protos.RcptList.Contents.{
  file_at, pipe_at, write_each, joined, put_bytes-end, write-file, node-file, node-pipe, close-last,
}

-- What a recipient gets of a text: what the program writes, or the text.
abbrev pub delivered : Bool → List ℕ → List ℕ → List ℕ
delivered true text out = out
delivered false text out = text

-- What the program is given, at the end of its input: the text. Without one there is no pipe.
abbrev pub IsGiven : Bool → Option (List ℕ) → List ℕ → Option Descriptor → Type 0
IsGiven true program text cell =
    (o : Descriptor) × (cell ≡ some o)
    × (o.is_open ≡ false)
    × (o.program ≡ some program)
    × (o.piped ≡ text)
IsGiven false program text cell =
    (o : Descriptor) × (cell ≡ some o) × (o.is_open ≡ false) × (o.program ≡ none)

module _ (sys : System) (permits : (p : FilePath) → sys.permits p ≡ true) (forks : sys.forks ≡ true)
    (reads : sys.reads ≡ true) (email from : List ℕ) (short : length email ≤ 39)
    (name : is_name email ≡ true) (uuid_size : length (sys.uuid 0) ≡ 36)
    (uuid_name : has_slash (sys.uuid 0 ++ codes ".txt") ≡ false) where
  abbrev filename : List ℕ
  filename = sys.uuid 0 ++ codes ".txt"

  filename_size : length filename ≡ 40
  filename_size = omega (arith, length-append (sys.uuid 0) (codes ".txt"), uuid_size)

  filename_lem : filename_of (sys.uuid 0) ≡ filename
  unfolding filename_of
  filename_lem = take_all 44 filename (omega (arith, filename_size))

  abbrev tmp_dir : FilePath
  tmp_dir = inside email (codes "/tmp")

  inside_size : (x : List ℕ) → length (inside email x) ≡ 6 + length email + length x
  inside_size x = omega (arith, length-append email x)

  tmp_assoc : tmp_dir ++ (codes "/" ++ filename) ≡ tmp_path email filename
  tmp_assoc = append_assoc (box email) (codes "/tmp") (codes "/" ++ filename)

  tmp_path_lem :
      print 400 (part (mailbox email) (codes "/tmp") ++ (codes "/" ++ filename))
      ≡ tmp_path email filename
  tmp_path_lem =
      ap (λ p. print 400 (p ++ (codes "/" ++ filename)))
        (part-inside email (codes "/tmp") short refl)
      ∙ ap (print 400) tmp_assoc
      ∙ take_all 399 (tmp_path email filename)
          (omega (arith, filename_size, inside_size (codes "/tmp" ++ (codes "/" ++ filename))))

  mail_path_lem :
      (size : ℕ) (dir : List ℕ)
      → 120 ≤ size
      → length dir ≡ 5
      → mail_path size email dir filename ≡ inside email (dir ++ filename)
  mail_path_lem size dir h k =
      take_all (size - 1) (inside email (dir ++ filename))
        (omega (arith, filename_size, inside_size (dir ++ filename), length-append dir filename))

  abbrev header : List ℕ
  header = from_header from (sys.time_str 0)

  open-tmp :
      (d : Disk) (dirs : List FilePath)
      → named (tmp_path email filename) d.names ≡ none
      → is_in tmp_dir dirs ≡ true
      → open_file sys.permits (tmp_path email filename) (with_dirs d dirs)
        ≡ some (
          length d.descriptors,
          with_file email filename d dirs [] d.descriptors (file_at (length d.inodes) []),
        )
  open-tmp d dirs free there =
      let up =
        has_parent-in (tmp_path email filename) tmp_dir (with_dirs d dirs)
          (ap parent (sym tmp_assoc) ∙ parent-append tmp_dir filename uuid_name) there in
      rw (free, permits (tmp_path email filename), up) refl

  abbrev node_of : ℕ → FileNode
  node_of fd = record { email = email; file_fd = fd; filename = filename }

  -- The descriptors in front of the one that the node keeps.
  abbrev fds : Bool → Disk → List Descriptor
  fds false d = d.descriptors
  fds true d = d.descriptors ++ (record (file_at (length d.inodes) header) { is_open = false } ∷ [])

  abbrev last_fd : Bool → ℕ → Option (List ℕ) → List ℕ → List ℕ → Descriptor
  last_fd false n program c text = file_at n (c ++ text)
  last_fd true n program c text = pipe_at n c program text

  -- What the file has before it is closed.
  abbrev so_far : Bool → List ℕ → List ℕ → List ℕ
  so_far false c text = c ++ text
  so_far true c text = c

  so_far-delivered :
      (b : Bool) (text : List ℕ) → so_far b header text ≡ header ++ delivered b text []
  so_far-delivered true text = sym (append-nil header)
  so_far-delivered false text = refl

  abbrev made : Bool → Option (List ℕ) → Disk → List FilePath → List ℕ → Disk
  made b program d dirs text =
      with_file email filename d dirs (so_far b header text) (fds b d)
        (last_fd b (length d.inodes) program header text)

  transform-made :
      (b : Bool) (program : Option (List ℕ)) (d : Disk) (dirs : List FilePath)
      → transform sys b program
          (length d.descriptors)
          (with_file email filename d dirs header d.descriptors (file_at (length d.inodes) header))
        ≡ ok (length (fds b d), made b program d dirs [])
  unfolding transform
  transform-made false program d dirs = rw (append-nil header) refl
  transform-made true program d dirs =
      let o = file_at (length d.inodes) header in
      rw (forks, get_elem?-length d.descriptors o [], set-length d.descriptors o) refl

  create_file-made :
      (b : Bool) (program : Option (List ℕ)) (d : Disk) (first dirs : List FilePath)
      → named (tmp_path email filename) d.names ≡ none
      → ensure_dirs sys email (with_dirs d first) ≡ ok (with_dirs d dirs)
      → is_in tmp_dir dirs ≡ true
      → create_file sys from program b 0 email (with_dirs d first)
        ≡ ok (node_of (length (fds b d)), made b program d dirs [])
  unfolding create_file
  create_file-made b program d first dirs free e there = rw filename_lem (
      bind-ok _ e (
        bind-ok _
          (ap (λ p. or_abort (open_file sys.permits p (with_dirs d dirs))) tmp_path_lem
            ∙ ap or_abort (open-tmp d dirs free there))
          (bind-ok _
            (ap (transform sys b program (length d.descriptors)) (
                write-file dirs ((tmp_path email filename, length d.inodes) ∷ d.names) d.inodes
                  d.descriptors [] header)
              ∙ transform-made b program d dirs)
            refl)))

  written-made :
      (b : Bool) (program : Option (List ℕ)) (d : Disk) (dirs : List FilePath)
      (chunks : List (List ℕ))
      → write_each sys (node_of (length (fds b d)) ∷ []) chunks (made b program d dirs [])
        ≡ ok (made b program d dirs (joined chunks))
  written-made false program d dirs chunks =
      ap
        (λ c.
          write_each sys (node_of (length d.descriptors) ∷ []) chunks
            (with_file email filename d dirs c d.descriptors (file_at (length d.inodes) c)))
        (append-nil header)
      ∙ node-file dirs ((tmp_path email filename, length d.inodes) ∷ d.names) d.inodes d.descriptors
          sys (node_of (length d.descriptors)) refl chunks header
  written-made true program d dirs chunks =
      node-pipe dirs ((tmp_path email filename, length d.inodes) ∷ d.names) d.inodes (fds true d)
        sys (node_of (length (fds true d))) refl reads chunks header program []

  abbrev closed_fd : Bool → Option (List ℕ) → Disk → List ℕ → Descriptor
  closed_fd b program d text = record (last_fd b (length d.inodes) program header text) {
    is_open = false;
  }

  -- The disk behind `close_fds`, where the file has the content `c`.
  abbrev with_mail : Bool → Option (List ℕ) → Disk → List FilePath → List ℕ → List ℕ → Disk
  with_mail b program d dirs text c =
      moved email filename d dirs c (fds b d) (closed_fd b program d text)

  close_fds-made :
      (b : Bool) (program : Option (List ℕ)) (d : Disk) (dirs : List FilePath) (text : List ℕ)
      → is_in (inside email (codes "/new")) dirs ≡ true
      → close_fds sys (node_of (length (fds b d)) ∷ []) (made b program d dirs text)
        ≡ ok (with_mail b program d dirs text (so_far b header text))
  unfolding close_fds
  close_fds-made b program d dirs text there =
      let c = so_far b header text in
      let o = closed_fd b program d text in
      let disk1 = with_file email filename d dirs c (fds b d) o in
      let old = mail_path 120 email (codes "/tmp/") filename in
      let new = mail_path 400 email (codes "/new/") filename in
      bind-ok _
        (ap (move_file sys old new) (
            close-last dirs ((tmp_path email filename, length d.inodes) ∷ d.names) d.inodes
              (fds b d) c (last_fd b (length d.inodes) program header text))
          ∙ ap (λ p. move_file sys p new disk1)
              (mail_path_lem 120 (codes "/tmp/") (omega arith) refl)
          ∙ ap (λ p. move_file sys (tmp_path email filename) p disk1)
              (mail_path_lem 400 (codes "/new/") (omega arith) refl)
          ∙ move_file-moved sys permits email filename uuid_name d dirs c (fds b d) o there)
        refl

  -- What the program writes goes to the file under its last name.
  prints-with_mail :
      (b : Bool) (program : Option (List ℕ)) (d : Disk) (dirs : List FilePath) (text out : List ℕ)
      → prints (length (fds b d)) out (with_mail b program d dirs text (so_far b header text))
        ≡ with_mail b program d dirs text (header ++ delivered b text out)
  prints-with_mail false program d dirs text out =
      rw (get_elem?-length (fds false d) (closed_fd false program d text) []) refl
  prints-with_mail true program d dirs text out =
      rw
        (
          get_elem?-length (fds true d) (closed_fd true program d text) [],
          put_bytes-end d.inodes header out,
        )
        refl

  closed_fd-IsGiven :
      (b : Bool) (program : Option (List ℕ)) (d : Disk) (text : List ℕ)
      → IsGiven b program text
          (get_elem? (fds b d ++ (closed_fd b program d text ∷ [])) (length (fds b d)))
  closed_fd-IsGiven true program d text =
      (_, get_elem?-length (fds true d) (closed_fd true program d text) [], refl, refl, refl)
  closed_fd-IsGiven false program d text =
      (_, get_elem?-length (fds false d) (closed_fd false program d text) [], refl, refl)

  -- The file of a mail for one recipient: when the system permits everything, no file stands in the
  -- way, the address is a name and a program reads all its input, the calls from `create_mails_files` over the writes of any
  -- chunks to `close_fds` return. Without a program the file in the directory `new` of the recipient
  -- then has the header and, behind it, the chunks. With one the server itself has written the header
  -- alone to it, and has given the program exactly the chunks and their end; whatever the program writes,
  -- `out`, when the calls have returned, goes behind the header.
  pub close_fds-content :
      (node : Node) (mailfrom : List ℕ) (program : Option (List ℕ)) (b : Bool)
      (chunks : List (List ℕ)) (out : List ℕ) (d : Disk)
      → c_string node.email ≡ ok email
      → c_string mailfrom ≡ ok from
      → IsFree email (sys.uuid 0 ++ codes ".txt") d
      → (r : List FileNode × Disk) × (d1 : Disk) × (d' : Disk) × (fd : ℕ) × (create_mails_files sys
            (node ∷ [])
            mailfrom
            program
            b
            d
          ≡ ok r)
        × (write_each sys r.0 chunks r.1 ≡ ok d1)
        × (close_fds sys r.0 d1 ≡ ok d')
        × (content (new_path email (sys.uuid 0 ++ codes ".txt")) d'
            ≡ some (from_header from (sys.time_str 0) ++ delivered b (joined chunks) []))
        × IsGiven b program (joined chunks) (get_elem? d'.descriptors fd)
        × (content (new_path email (sys.uuid 0 ++ codes ".txt")) (prints fd out d')
            ≡ some (from_header from (sys.time_str 0) ++ delivered b (joined chunks) out))
  unfolding create_mails_files create_files
  close_fds-content node mailfrom program b chunks out d is_email is_from free =
      let (first, dirs, e1, e2, new, tmp) =
        dirs-Ensured sys permits email filename short (is_name-one email name) d free in
      let text = joined chunks in
      let file = create_file-made b program d first dirs free.no_file e2 tmp in
      let has = λ (c : List ℕ).
        content-new sys permits email filename uuid_name d dirs c (fds b d)
          (closed_fd b program d text) in
      (
        (node_of (length (fds b d)) ∷ [], made b program d dirs []),
        made b program d dirs text,
        with_mail b program d dirs text (so_far b header text),
        length (fds b d),
        bind-ok _ is_from (bind-ok _ e1 (bind-ok _ is_email (bind-ok _ file refl))),
        written-made b program d dirs chunks,
        close_fds-made b program d dirs text new,
        has (so_far b header text) ∙ ap some (so_far-delivered b text),
        closed_fd-IsGiven b program d text,
        ap (content (new_path email filename)) (prints-with_mail b program d dirs text out)
            ∙ has (header ++ delivered b text out),
      )
