-- ===== src/RcptList/Tests.antt =====
-- Witnesses for rcpt_to_list.c.
use tpe_protos.Base.{
  ℕ, ◌≡◌, refl, true, false, none, some, List, [], ◌∷◌, ◌++◌, ok, err, aborted, c_string, length,
  take, codes, arith, get_elem?,
}
use tpe_protos.RcptList.{Node, email_array, add_rcpt_to_list}
use tpe_protos.RcptList.Disk.{Disk, prints}
use tpe_protos.RcptList.Files.{System, FileNode, from_header, create_mails_files, close_fds}
use tpe_protos.RcptList.Dirs.{IsFree}
use tpe_protos.RcptList.Contents.{write_each, joined}
use tpe_protos.RcptList.Closing.{new_path, content}
use tpe_protos.RcptList.Delivery.{delivered, IsGiven, close_fds-content}
use tpe_protos.RcptList.Slash.{create_mails_files-slash}
use tpe_protos.RcptList.Stored.{add_rcpt_to_list-stored}

add_rcpt_to_list-stored_example :
    (node : Node) × (add_rcpt_to_list true [] (codes "a@b") ≡ ok (node ∷ []))
    × (c_string node.email ≡ ok (take 39 (codes "a@b")))
    × (length node.email ≡ 40)
add_rcpt_to_list-stored_example =
    add_rcpt_to_list-stored [] (codes "a@b")
      ((λ e. omega arith), ((λ e. omega arith), ((λ e. omega arith), tt)))

abbrev system : System
system = record {
  permits = λ _. true;
  forks = true;
  uuid = λ _. codes "0b8ee6f9-19f5-4f08-a5ab-1f7c2a0d3e11";
  time_str = λ _. codes "Mon Jun 24 10:00:00 2024";
  reads = true;
}

abbrev no_files : Disk
no_files = record { dirs = []; names = []; inodes = []; descriptors = [] }

abbrev ann : Node
ann = record { email = email_array (codes "ann@smtpd.com") }

abbrev sender : List ℕ
sender = codes "bob@smtpd.com" ++ (0 ∷ [])

abbrev lines : List (List ℕ)
lines = codes "Hi" ∷ codes " Ann" ∷ []

no_files-IsFree : IsFree (codes "ann@smtpd.com") (system.uuid 0 ++ codes ".txt") no_files
no_files-IsFree = record {
  no_mails = refl;
  no_box = refl;
  no_new = refl;
  no_cur = refl;
  no_tmp = refl;
  no_file = refl;
}

close_fds-content_example :
    (r : List FileNode × Disk) × (d1 : Disk) × (d' : Disk) × (fd : ℕ) × (create_mails_files system
        (ann ∷ [])
        sender
        (some (codes "quote"))
        true
        no_files
      ≡ ok r)
    × (write_each system r.0 lines r.1 ≡ ok d1)
    × (close_fds system r.0 d1 ≡ ok d')
    × (content (new_path (codes "ann@smtpd.com") (system.uuid 0 ++ codes ".txt")) d'
        ≡ some (
            from_header (codes "bob@smtpd.com") (system.time_str 0)
            ++ delivered true (joined lines) []))
    × IsGiven true (some (codes "quote")) (joined lines) (get_elem? d'.descriptors fd)
    × (content
          (new_path (codes "ann@smtpd.com") (system.uuid 0 ++ codes ".txt"))
          (prints fd (codes "> Hi Ann") d')
        ≡ some (
            from_header (codes "bob@smtpd.com") (system.time_str 0)
            ++ delivered true (joined lines) (codes "> Hi Ann")))
close_fds-content_example =
    close_fds-content system (λ _. refl) refl refl (codes "ann@smtpd.com") (codes "bob@smtpd.com")
      (omega arith) refl refl refl ann sender (some (codes "quote")) true lines (codes "> Hi Ann")
      no_files refl refl no_files-IsFree

abbrev slashed : Node
slashed = record { email = email_array (codes "a/b@smtpd.com") }

abbrev only_mails : Disk
only_mails = record { dirs = codes "mails" ∷ []; names = []; inodes = []; descriptors = [] }

create_mails_files-slash_example :
    create_mails_files system (slashed ∷ ann ∷ []) sender none false only_mails ≡ err aborted
create_mails_files-slash_example =
    create_mails_files-slash system slashed (ann ∷ []) sender (codes "bob@smtpd.com") (codes "a")
      (codes "b@smtpd.com") none false only_mails refl refl (omega arith) refl refl refl refl refl
