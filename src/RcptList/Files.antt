-- ===== src/RcptList/Files.antt =====
-- rcpt_to_list.c: the files of a mail, one for each recipient.
use tpe_protos.Base.{
  ℕ, ◌+◌, ◌*◌, ◌-◌, Bool, true, false, not, Option, none, some, List, [], ◌∷◌, ◌++◌, Result, ok,
  err, aborted, ◌>>=◌, if◌then◌else◌, length, get_elem?, take, codes, c_string,
}
use tpe_protos.RcptList.{Node, max_email_length}
use tpe_protos.RcptList.Disk.{
  FilePath, Descriptor, Disk, stat, mkdir, open_file, write, close, rename,
}

-- What the system answers while files are made: what it permits, whether `pipe` and `fork` succeed,
-- whether a program runs and reads all of its input, the identifiers that `uuid_generate` makes for
-- each node, and the time as text.
pub record System : Type 0 where
  pub permits : FilePath → Bool
  pub forks : Bool
  pub reads : Bool
  pub uuid : ℕ → List ℕ
  pub time_str : ℕ → List ℕ

-- A node with its `file_fd` and `filename`, which `create_mails_files` sets.
pub record FileNode : Type 0 where
  pub email : List ℕ
  pub file_fd : ℕ
  pub filename : List ℕ

-- `snprintf` to an array of `size` bytes.
abbrev pub print : ℕ → List ℕ → List ℕ
print size text = take (size - 1) text

abbrev pub mails : FilePath
mails = codes "mails"

unfoldable pub mailbox : List ℕ → FilePath
mailbox email = print (6 + max_email_length) (codes "mails/" ++ email)

unfoldable pub part : FilePath → List ℕ → FilePath
part dir name = print (6 + max_email_length + 4) (dir ++ name)

abbrev pub or_abort {ℓ} : {A : Type ℓ} → Option A → Result A
or_abort none = err aborted
or_abort (some a) = ok a

-- A directory is made when `stat` does not find it.
unfoldable pub ensure_dir : System → FilePath → Disk → Result Disk
ensure_dir sys p d = if stat p d then ok d else or_abort (mkdir sys.permits p d)

-- The part of the loop of `create_mails_files` up to the file.
abbrev pub ensure_dirs : System → List ℕ → Disk → Result Disk
ensure_dirs sys email d = ensure_dir sys (mailbox email) d >>= λ d1.
    ensure_dir sys (part (mailbox email) (codes "/new")) d1 >>= λ d2.
    ensure_dir sys (part (mailbox email) (codes "/cur")) d2 >>= λ d3.
    ensure_dir sys (part (mailbox email) (codes "/tmp")) d3

unfoldable pub filename_of : List ℕ → List ℕ
filename_of uuid = print (max_email_length + 5) (uuid ++ codes ".txt")

unfoldable pub from_header : List ℕ → List ℕ → List ℕ
from_header mailfrom time_str =
    print 512 (codes "From " ++ (mailfrom ++ (codes "  " ++ (time_str ++ codes "\n"))))

-- The descriptor of the pipe, whose program gets the file, behind what is there, as its output. What
-- `fork` runs besides is another process.
abbrev pub piped : Option (List ℕ) → Option Descriptor → List Descriptor
piped program none = []
piped program (some o) = record o { program = some program } ∷ []

-- The transformation of a mail by a program.
unfoldable pub transform : System → Bool → Option (List ℕ) → ℕ → Disk → Result (ℕ × Disk)
transform sys false program fd d = ok (fd, d)
transform sys true program fd d =
    if sys.forks
    then (let closed = close fd d in
        ok (
          length closed.descriptors,
          record closed {
            descriptors = closed.descriptors ++ piped program (get_elem? d.descriptors fd);
          },
        ))
    else err aborted

-- The body of the loop of `create_mails_files`, for the node of number `k`.
unfoldable pub create_file :
    System → List ℕ → Option (List ℕ) → Bool → ℕ → List ℕ → Disk → Result (FileNode × Disk)
create_file sys mailfrom program transformations k email d =
    let filename = filename_of (sys.uuid k) in
    let path = print 400 (part (mailbox email) (codes "/tmp") ++ (codes "/" ++ filename)) in
    ensure_dirs sys email d >>= λ d1. or_abort (open_file sys.permits path d1) >>= λ r.
    let written = write r.0 (from_header mailfrom (sys.time_str k)) r.1 in
    transform sys transformations program r.0 written >>= λ q.
    ok (record { email = email; file_fd = q.0; filename = filename }, q.1)

unfoldable pub create_files :
    System → List ℕ → Option (List ℕ) → Bool → ℕ → List Node → Disk → Result (List FileNode × Disk)
create_files sys mailfrom program transformations k [] d = ok ([], d)
create_files sys mailfrom program transformations k (node ∷ nodes) d =
    c_string node.email >>= λ email.
    create_file sys mailfrom program transformations k email d >>= λ r.
    create_files sys mailfrom program transformations (k + 1) nodes r.1 >>= λ q. ok (r.0 ∷ q.0, q.1)

-- `create_mails_files`; `mailfrom` is the array of the session.
unfoldable pub create_mails_files :
    System → List Node → List ℕ → Option (List ℕ) → Bool → Disk → Result (List FileNode × Disk)
create_mails_files sys head mailfrom program transformations d = c_string mailfrom >>= λ from.
    ensure_dir sys mails d >>= λ d1. create_files sys from program transformations 0 head d1

-- A pipe that its program does not read: the signal for it, which main.c does not ignore, ends the
-- process.
abbrev pub is_broken : System → Option Descriptor → Bool
is_broken sys none = false
is_broken sys (some o) = elim o.program [ none ↦ false | some _ ↦ not sys.reads ]

-- `write_to_files`, with the bytes of the data buffer; what `write` returns is not used.
unfoldable pub write_to_files : System → List FileNode → List ℕ → Disk → Result Disk
write_to_files sys [] bytes d = ok d
write_to_files sys (node ∷ nodes) bytes d =
    let more = write_to_files sys nodes bytes (write node.file_fd bytes d) in
    if is_broken sys (get_elem? d.descriptors node.file_fd) then err aborted else more

abbrev pub mail_path : ℕ → List ℕ → List ℕ → List ℕ → FilePath
mail_path size email dir filename = print size (codes "mails/" ++ (email ++ (dir ++ filename)))

-- The file is there, and gets its last name.
unfoldable pub move_file : System → FilePath → FilePath → Disk → Result Disk
move_file sys file_path file_path_new d =
    if stat file_path d
    then or_abort (rename sys.permits file_path file_path_new d)
    else err aborted

-- `close_fds`
unfoldable pub close_fds : System → List FileNode → Disk → Result Disk
close_fds sys [] d = ok d
close_fds sys (node ∷ nodes) d =
    let file_path = mail_path (max_email_length * 3) node.email (codes "/tmp/") node.filename in
    let file_path_new = mail_path 400 node.email (codes "/new/") node.filename in
    move_file sys file_path file_path_new (close node.file_fd d) >>= close_fds sys nodes
