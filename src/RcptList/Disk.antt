-- ===== src/RcptList/Disk.antt =====
-- What rcpt_to_list.c uses of the system: directories, files and descriptors. A path is its text, so
-- that what is said of one is meant for paths whose parts are names (`is_name`), by which a disk also
-- holds its directories and files.
use tpe_protos.Base.{
  ℕ, ◌+◌, Bool, true, false, not, ◌&&◌, ◌||◌, Option, none, some, List, [], ◌∷◌, ◌++◌, ◌==◌,
  if◌then◌else◌, length, get_elem?, set, take, drop, same_text, codes,
}

abbrev pub FilePath : Type 0
FilePath = List ℕ

-- A descriptor that has been opened: its file, the place of the next byte, and whether it is still open.
-- For a pipe there are the program at its other end, whose output goes to the file from that place on,
-- and what has been written to the pipe.
pub record Descriptor : Type 0 where
  pub inode : ℕ
  pub offset : ℕ
  pub is_open : Bool
  pub program : Option (Option (List ℕ))
  pub piped : List ℕ

-- A file is its place in `inodes`, a descriptor its place in `descriptors`.
pub record Disk : Type 0 where
  pub dirs : List FilePath
  pub names : List (FilePath × ℕ)
  pub inodes : List (List ℕ)
  pub descriptors : List Descriptor

abbrev pub is_in : FilePath → List FilePath → Bool
is_in p [] = false
is_in p (q ∷ qs) = same_text q p || is_in p qs

abbrev pub named : FilePath → List (FilePath × ℕ) → Option ℕ
named p [] = none
named p ((q, i) ∷ names) = if same_text q p then some i else named p names

abbrev pub is_some : Option ℕ → Bool
is_some none = false
is_some (some i) = true

-- `stat` succeeds.
abbrev pub stat : FilePath → Disk → Bool
stat p d = is_in p d.dirs || is_some (named p d.names)

abbrev pub has_slash : List ℕ → Bool
has_slash [] = false
has_slash (c ∷ s) = (c == b'/') || has_slash s

-- The directory of a path; the current one is the empty text.
abbrev pub parent : FilePath → FilePath
parent [] = []
parent (c ∷ s) = if has_slash s then c ∷ parent s else []

-- The part of a path that names an entry of a directory, and neither the directory itself nor the
-- one that it is in.
abbrev pub is_name : List ℕ → Bool
is_name s =
    not (has_slash s || (same_text s [] || (same_text s (codes ".") || same_text s (codes ".."))))

abbrev pub is_empty : List ℕ → Bool
is_empty [] = true
is_empty (c ∷ s) = false

abbrev pub has_parent : FilePath → Disk → Bool
has_parent p d = is_empty (parent p) || is_in (parent p) d.dirs

-- `mkdir`; `permits` is whether nothing else stands against it.
abbrev pub mkdir : (FilePath → Bool) → FilePath → Disk → Option Disk
mkdir permits p d =
    if permits p && (not (stat p d) && has_parent p d)
    then some (record d { dirs = p ∷ d.dirs })
    else none

abbrev pub at_start : ℕ → Descriptor
at_start i = record { inode = i; offset = 0; is_open = true; program = none; piped = [] }

-- `open` with `O_CREAT | O_WRONLY` of a path that is no directory: the descriptor and the disk.
abbrev pub open_at : Option ℕ → (FilePath → Bool) → FilePath → Disk → Option (ℕ × Disk)
open_at (some i) permits p d =
    if permits p
    then some (length d.descriptors, record d { descriptors = d.descriptors ++ (at_start i ∷ []) })
    else none
open_at none permits p d =
    if permits p && has_parent p d
    then some (
      length d.descriptors,
      record d {
        names = (p, length d.inodes) ∷ d.names;
        inodes = d.inodes ++ ([] ∷ []);
        descriptors = d.descriptors ++ (at_start (length d.inodes) ∷ []);
      },
    )
    else none

abbrev pub open_file : (FilePath → Bool) → FilePath → Disk → Option (ℕ × Disk)
open_file permits p d = open_at (named p d.names) permits p d

abbrev pub content_of : Option (List ℕ) → List ℕ
content_of none = []
content_of (some bytes) = bytes

-- Bytes over the content of a file from the place `at` on.
abbrev pub put_bytes : ℕ → ℕ → List ℕ → List (List ℕ) → List (List ℕ)
put_bytes i at bytes inodes =
    let old = content_of (get_elem? inodes i) in
    set inodes i (take at old ++ (bytes ++ drop (at + length bytes) old))

abbrev pub write_open : Descriptor → ℕ → List ℕ → Disk → Disk
write_open o fd bytes d = elim o.program [
  | none ↦ record d {
    inodes = put_bytes o.inode o.offset bytes d.inodes;
    descriptors = set d.descriptors fd (record o { offset = o.offset + length bytes });
  }
  | some _ ↦ record d { descriptors = set d.descriptors fd (record o { piped = o.piped ++ bytes }) }
]

abbrev pub write_at : Option Descriptor → ℕ → List ℕ → Disk → Disk
write_at none fd bytes d = d
write_at (some o) fd bytes d = if o.is_open then write_open o fd bytes d else d

-- `write`; of a descriptor that is not open it fails and changes nothing.
abbrev pub write : ℕ → List ℕ → Disk → Disk
write fd bytes d = write_at (get_elem? d.descriptors fd) fd bytes d

abbrev pub close_at : Option Descriptor → ℕ → Disk → Disk
close_at none fd d = d
close_at (some o) fd d = record d {
  descriptors = set d.descriptors fd (record o { is_open = false });
}

-- `close`; it does not wait for the program of a pipe.
abbrev pub close : ℕ → Disk → Disk
close fd d = close_at (get_elem? d.descriptors fd) fd d

-- What the program of a pipe, a process of its own, does: its output to the file.
abbrev pub prints_at : Option Descriptor → List ℕ → Disk → Disk
prints_at none out d = d
prints_at (some o) out d = elim o.program [
  | none ↦ d
  | some _ ↦ record d { inodes = put_bytes o.inode o.offset out d.inodes }
]

abbrev pub prints : ℕ → List ℕ → Disk → Disk
prints fd out d = prints_at (get_elem? d.descriptors fd) out d

abbrev pub without : FilePath → List (FilePath × ℕ) → List (FilePath × ℕ)
without p [] = []
without p ((q, i) ∷ names) = if same_text q p then without p names else (q, i) ∷ without p names

abbrev pub rename_at : Option ℕ → (FilePath → Bool) → FilePath → FilePath → Disk → Option Disk
rename_at none permits from to d = none
rename_at (some i) permits from to d =
    if permits to && has_parent to d
    then some (record d { names = (to, i) ∷ without from (without to d.names) })
    else none

-- `rename` of a file.
abbrev pub rename : (FilePath → Bool) → FilePath → FilePath → Disk → Option Disk
rename permits from to d = rename_at (named from d.names) permits from to d
