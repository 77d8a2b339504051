-- ===== src/Smtp/Text/Delivered.antt =====
-- The calls on files that a session of smtpnio.c makes for a mail, made on a disk: from the pieces that
-- the client sends to the file of the recipient.
use mathlib.Core.List.{map}
use mathlib.Core.Path.{subst}
use tpe_protos.Base.{
  ℕ, ◌≤◌, Bool, true, false, Option, some, List, [], ◌∷◌, ◌++◌, ◌≡◌, refl, ◌∙◌, ap, ok, Result,
  ◌>>=◌, length, codes, c_string, bind-ok, get_elem?, ok-inj, ok-ne_err, Result-cases, inl, inr,
}
use tpe_protos.Data
use tpe_protos.Data.Body.{IsText, text, end_mark}
use tpe_protos.RcptList.{Node}
use tpe_protos.RcptList.Disk.{FilePath, Disk, has_slash, is_name, prints}
use tpe_protos.RcptList.Files
use tpe_protos.RcptList.Files.{System, FileNode, from_header}
use tpe_protos.RcptList.Dirs.{IsFree}
use tpe_protos.RcptList.Contents.{joined, write_each}
use tpe_protos.RcptList.Closing.{content, new_path}
use tpe_protos.RcptList.Delivery.{delivered, IsGiven, close_fds-content}
use tpe_protos.Smtp.{
  State, op_write, FileCall, create_mails_files, write_to_files, close_fds, World,
}
use tpe_protos.Smtp.Text.Event.{Reading}
use tpe_protos.Smtp.Text.Mail.{text_events, AllPieces, text_events-Written}

-- A call, with the nodes whose files are open and the disk.
abbrev pub perform : System → FileCall → List FileNode × Disk → Result (List FileNode × Disk)
perform sys (create_mails_files nodes mailfrom program transformations) (files, d) =
    Files.create_mails_files sys nodes mailfrom program transformations d
perform sys (write_to_files nodes bytes) (files, d) =
    Files.write_to_files sys files bytes d >>= λ d'. ok (files, d')
perform sys (close_fds nodes) (files, d) = Files.close_fds sys files d >>= λ d'. ok ([], d')

abbrev pub perform_all :
    System → List FileCall → List FileNode × Disk → Result (List FileNode × Disk)
perform_all sys [] x = ok x
perform_all sys (call ∷ calls) x = perform sys call x >>= perform_all sys calls

perform_all-writes :
    (sys : System) (nodes : List Node) (chunks : List (List ℕ)) (calls : List FileCall)
    (files : List FileNode) (d d1 : Disk)
    → write_each sys files chunks d ≡ ok d1
    → perform_all sys (map (write_to_files nodes) chunks ++ calls) (files, d)
      ≡ perform_all sys calls (files, d1)
perform_all-writes sys nodes [] calls files d d1 e =
    ap (λ x. perform_all sys calls (files, x)) (ok-inj e)
perform_all-writes sys nodes (chunk ∷ chunks) calls files d d1 e =
    elim (Result-cases (Files.write_to_files sys files chunk d)) [
      | inl (d2, e2) ↦ rw e2 (perform_all-writes sys nodes chunks calls files d2 d1 (rw e2 at e))
      | inr (f, e2) ↦ absurd (ok-ne_err (rw e2 at e))
    ]

module _ (sys : System) (permits : (p : FilePath) → sys.permits p ≡ true) (forks : sys.forks ≡ true)
    (reads : sys.reads ≡ true) (email from : List ℕ) (short : length email ≤ 39)
    (name : is_name email ≡ true) (uuid_size : length (sys.uuid 0) ≡ 36)
    (uuid_name : has_slash (sys.uuid 0 ++ codes ".txt") ≡ false) where
  -- A mail for one recipient, from the pieces of its text to its file. However the network cuts the
  -- text into pieces of up to 2044 bytes, the events of mail_info_read return, and the calls on
  -- files that they make return, between the creation of the mail and its closing. Without a program
  -- they leave in the directory `new` of the recipient a file with the header and, behind it, exactly the
  -- text. With one that reads all its input the server itself has written the header alone to that
  -- file, and has given the program exactly the text and its end; whatever the program writes, `out`,
  -- when the calls have returned, goes behind the header. The text has lines that are not empty, none of them but the first a
  -- single dot, and an end mark behind it; the address is a name, the system permits everything, the calls of the session
  -- return, and no file stands in the way.
  pub text_events-Delivered :
      (node : Node) (mailfrom : List ℕ) (program : Option (List ℕ)) (transformations : Bool)
      (out : List ℕ) (d : Disk) (pieces : List (List ℕ)) (w : World) (l : List ℕ)
      (ms : List (List ℕ)) (rest : List ℕ)
      → c_string node.email ≡ ok email
      → c_string mailfrom ≡ ok from
      → IsFree email (sys.uuid 0 ++ codes ".txt") d
      → Reading w
      → w.session.rcpt_list ≡ node ∷ []
      → w.session.data_parser.state ≡ Data.State.data_
      → w.env.accepts op_write ≡ true
      → ((c : FileCall) → w.env.files c ≡ true)
      → AllPieces pieces
      → IsText l ms
      → joined pieces ≡ text l ms ++ end_mark rest
      → (r : State × World) × (calls : List FileCall) × (d' : Disk) × (fd : ℕ) × (text_events pieces
            w
          ≡ ok r)
        × (r.0 ≡ State.mail_info_write)
        × (r.1.calls ≡ w.calls ++ calls)
        × (perform_all sys
              (create_mails_files (node ∷ []) mailfrom program transformations
                ∷ (calls ++ (close_fds (node ∷ []) ∷ [])))
              ([], d)
            ≡ ok ([], d'))
        × (content (new_path email (sys.uuid 0 ++ codes ".txt")) d'
            ≡ some (from_header from (sys.time_str 0) ++ delivered transformations (text l ms) []))
        × IsGiven transformations program (text l ms) (get_elem? d'.descriptors fd)
        × (content (new_path email (sys.uuid 0 ++ codes ".txt")) (prints fd out d')
            ≡ some (from_header from (sys.time_str 0) ++ delivered transformations (text l ms) out))
  text_events-Delivered node mailfrom program b out d pieces w l ms rest is_email is_from free h
        nodes start accepts files all is_text whole =
      let (r, chunks, e, there, calls, exact) =
        text_events-Written pieces w l ms rest h start accepts files all is_text whole in
      let (made, d1, d', fd, created, wrote, closed, left, given, printed) =
        close_fds-content sys permits forks reads email from short name uuid_size uuid_name node
          mailfrom program b chunks out d is_email is_from free in
      let writes : List FileCall = map (write_to_files (node ∷ [])) chunks in
      (
        r,
        writes,
        d',
        fd,
        e,
        there,
        calls ∙ ap (λ ns. w.calls ++ map (write_to_files ns) chunks) nodes,
        bind-ok _ created (
            perform_all-writes sys (node ∷ []) chunks (close_fds (node ∷ []) ∷ []) made.0 made.1 d1
              wrote
            ∙ bind-ok _ (bind-ok _ closed refl) refl),
        left ∙ ap (λ t. some (from_header from (sys.time_str 0) ++ delivered b t [])) exact,
        subst (λ t. IsGiven b program t (get_elem? d'.descriptors fd)) exact given,
        printed ∙ ap (λ t. some (from_header from (sys.time_str 0) ++ delivered b t out)) exact,
      )
