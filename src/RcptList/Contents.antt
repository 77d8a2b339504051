-- ===== src/RcptList/Contents.antt =====
-- rcpt_to_list.c: what the writes of a mail leave in the last file of the disk.
use tpe_protos.Base.{
  ℕ, ◌+◌, arith, Option, none, some, List, [], ◌∷◌, ◌++◌, append-nil, append_assoc, ◌≡◌, refl, sym,
  ap, ◌∙◌, true, false, Result, ok, ◌>>=◌, length, length-append, get_elem?-length, set-length,
  take, take-length-append, drop_all,
}
use tpe_protos.RcptList.Disk.{FilePath, Descriptor, Disk, put_bytes, write, close}
use tpe_protos.RcptList.Files.{System, FileNode, write_to_files}

-- A descriptor behind the content `c` of a file, and one of a pipe.
abbrev pub file_at : ℕ → List ℕ → Descriptor
file_at n c = record { inode = n; offset = length c; is_open = true; program = none; piped = [] }

abbrev pub pipe_at : ℕ → List ℕ → Option (List ℕ) → List ℕ → Descriptor
pipe_at n c program bytes = record {
  inode = n;
  offset = length c;
  is_open = true;
  program = some program;
  piped = bytes;
}

-- A disk with the last file `c` and the last descriptor `o`.
abbrev pub disk :
    List FilePath
    → List (FilePath × ℕ)
    → List (List ℕ)
    → List ℕ
    → List Descriptor
    → Descriptor
    → Disk
disk dirs names files c ds o = record {
  dirs = dirs;
  names = names;
  inodes = files ++ (c ∷ []);
  descriptors = ds ++ (o ∷ []);
}

-- `write_to_files` for each of the chunks of a text.
abbrev pub write_each : System → List FileNode → List (List ℕ) → Disk → Result Disk
write_each sys nodes [] d = ok d
write_each sys nodes (chunk ∷ chunks) d =
    write_to_files sys nodes chunk d >>= write_each sys nodes chunks

abbrev pub joined : List (List ℕ) → List ℕ
joined [] = []
joined (chunk ∷ chunks) = chunk ++ joined chunks

-- Bytes behind the content of the last file.
pub put_bytes-end :
    (files : List (List ℕ)) (c bytes : List ℕ)
    → put_bytes (length files) (length c) bytes (files ++ (c ∷ [])) ≡ files ++ ((c ++ bytes) ∷ [])
put_bytes-end files c bytes =
    let whole : take (length c) c ≡ c =
      ap (take (length c)) (sym (append-nil c)) ∙ take-length-append c [] in
    let nothing = drop_all (length c + length bytes) c (omega arith) in
    rw (get_elem?-length files c [], whole, nothing, append-nil) (set-length files c (c ++ bytes))

module _ (dirs : List FilePath) (names : List (FilePath × ℕ)) (files : List (List ℕ))
    (ds : List Descriptor) where
  pub write-file :
      (c bytes : List ℕ)
      → write (length ds) bytes (disk dirs names files c ds (file_at (length files) c))
        ≡ disk dirs names files (c ++ bytes) ds (file_at (length files) (c ++ bytes))
  write-file c bytes =
      let n = length files in
      let o = file_at n c in
      rw (get_elem?-length ds o [], put_bytes-end files c bytes, set-length ds o)
        (ap
          (λ k. record {
            dirs = dirs;
            names = names;
            inodes = files ++ ((c ++ bytes) ∷ []);
            descriptors = ds ++ (record o { offset = k } ∷ []);
          })
          (sym (length-append c bytes)))

  pub write-pipe :
      (c : List ℕ) (program : Option (List ℕ)) (old bytes : List ℕ)
      → write (length ds) bytes (disk dirs names files c ds (pipe_at (length files) c program old))
        ≡ disk dirs names files c ds (pipe_at (length files) c program (old ++ bytes))
  write-pipe c program old bytes =
      let o = pipe_at (length files) c program old in
      rw (get_elem?-length ds o [], set-length ds o) refl

  module _ (sys : System) (node : FileNode) (last : node.file_fd ≡ length ds) where
    pub node-file :
        (chunks : List (List ℕ)) (c : List ℕ)
        → write_each sys (node ∷ []) chunks (disk dirs names files c ds (file_at (length files) c))
          ≡ ok (
              disk dirs names files
                (c ++ joined chunks)
                ds
                (file_at (length files) (c ++ joined chunks)))
    unfolding write_to_files
    node-file [] c =
        ap (λ x. ok (disk dirs names files x ds (file_at (length files) x))) (sym (append-nil c))
    node-file (chunk ∷ chunks) c =
        rw (last, write-file c chunk, get_elem?-length ds (file_at (length files) c) [])
          (node-file chunks (c ++ chunk)
            ∙ ap (λ x. ok (disk dirs names files x ds (file_at (length files) x)))
                (append_assoc c chunk (joined chunks)))

    pub node-pipe :
        (reads : sys.reads ≡ true) (chunks : List (List ℕ)) (c : List ℕ) (program : Option (List ℕ))
        (old : List ℕ)
        → write_each sys
            (node ∷ [])
            chunks
            (disk dirs names files c ds (pipe_at (length files) c program old))
          ≡ ok
              (disk dirs names files c ds (pipe_at (length files) c program (old ++ joined chunks)))
    unfolding write_to_files
    node-pipe reads [] c program old =
        ap (λ x. ok (disk dirs names files c ds (pipe_at (length files) c program x)))
          (sym (append-nil old))
    node-pipe reads (chunk ∷ chunks) c program old =
        rw
          (
            last,
            write-pipe c program old chunk,
            get_elem?-length ds (pipe_at (length files) c program old) [],
            reads,
          )
          (node-pipe reads chunks c program (old ++ chunk)
            ∙ ap (λ x. ok (disk dirs names files c ds (pipe_at (length files) c program x)))
                (append_assoc old chunk (joined chunks)))

  pub close-last :
      (c : List ℕ) (o : Descriptor)
      → close (length ds) (disk dirs names files c ds o)
        ≡ disk dirs names files c ds (record o { is_open = false })
  close-last c o = rw (get_elem?-length ds o [], set-length ds o) refl
