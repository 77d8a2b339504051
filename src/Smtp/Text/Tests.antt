-- ===== src/Smtp/Text/Tests.antt =====
-- A mail of smtpnio.c that comes in three pieces, which cut its end mark.
use tpe_protos.Base.{
  ℕ, arith, true, false, some, none, List, [], ◌∷◌, ◌++◌, ◌≡◌, refl, pos, ok, length, codes,
  get_elem?,
}
use tpe_protos.Buffer
use tpe_protos.Request
use tpe_protos.Data
use tpe_protos.Data.Body.{text}
use tpe_protos.RcptList.{Node, email_array}
use tpe_protos.RcptList.Disk.{Disk, prints}
use tpe_protos.RcptList.Files.{System, from_header}
use tpe_protos.RcptList.Closing.{content, new_path}
use tpe_protos.RcptList.Delivery.{delivered, IsGiven}
use tpe_protos.Smtp.{State, op_read, FileCall, create_mails_files, close_fds, World}
use tpe_protos.Smtp.Connection.{new_session}
use tpe_protos.Smtp.Text.Event.{Reading}
use tpe_protos.Smtp.Text.Mail.{text_events}
use tpe_protos.Smtp.Text.Delivered.{perform_all, text_events-Delivered}

abbrev system : System
system = record {
  permits = λ _. true;
  forks = true;
  uuid = λ _. codes "0b8ee6f9-19f5-4f08-a5ab-1f7c2a0d3e11";
  time_str = λ _. codes "Mon Jun 24 10:00:00 2024";
  reads = true;
}

abbrev no_files : Disk
no_files = record { dirs = []; names = []; inodes = []; descriptors = [] }

abbrev ann : Node
ann = record { email = email_array (codes "ann@smtpd.com") }

abbrev sender : List ℕ
sender = codes "bob@smtpd.com" ++ (0 ∷ [])

abbrev pieces : List (List ℕ)
pieces = codes "Hi\r\n. A" ∷ codes "nn\r\n." ∷ codes "\r\nQUIT" ∷ []

abbrev waiting : World
waiting = record {
  session = record (new_session false) { rcpt_list = ann ∷ [] };
  server = record {
    historic_users = pos 1;
    current_users = pos 1;
    transferred_bytes = pos 0;
    mails_sent = pos 0;
    transformations = false;
    program = none;
    max_user = pos 500;
  };
  interest = op_read;
  sent = [];
  calls = [];
  env = record {
    recv = λ _. (pos 0, []);
    send = λ bytes. pos (length bytes);
    accepts = λ _. true;
    allocated = true;
    files = λ _. true;
  };
}

waiting-Reading : Reading waiting
unfolding new_session Buffer.init Data.init Request.init
waiting-Reading = record {
  whole = record {
    same_env = refl;
    read = omega arith;
    write = omega arith;
    limit = refl;
    text = omega arith;
    text_limit = refl;
    arg = refl;
    from = refl;
  };
  read_at = refl;
  write_at = refl;
  limit = refl;
  fresh = refl;
  more = refl;
}

waiting-start : waiting.session.data_parser.state ≡ Data.State.data_
unfolding new_session Data.init
waiting-start = refl

waiting-nodes : waiting.session.rcpt_list ≡ ann ∷ []
waiting-nodes = refl

text_events-Delivered_example :
    (r : State × World) × (calls : List FileCall) × (d' : Disk) × (fd : ℕ) × (text_events pieces
        waiting
      ≡ ok r)
    × (r.0 ≡ State.mail_info_write)
    × (r.1.calls ≡ calls)
    × (perform_all system
          (create_mails_files (ann ∷ []) sender (some (codes "quote")) true
            ∷ (calls ++ (close_fds (ann ∷ []) ∷ [])))
          ([], no_files)
        ≡ ok ([], d'))
    × (content (new_path (codes "ann@smtpd.com") (system.uuid 0 ++ codes ".txt")) d'
        ≡ some (
            from_header (codes "bob@smtpd.com") (system.time_str 0)
            ++ delivered true (text (codes "Hi") (codes ". Ann" ∷ [])) []))
    × IsGiven true
        (some (codes "quote"))
        (text (codes "Hi") (codes ". Ann" ∷ []))
        (get_elem? d'.descriptors fd)
    × (content
          (new_path (codes "ann@smtpd.com") (system.uuid 0 ++ codes ".txt"))
          (prints fd (codes "> Hi") d')
        ≡ some (
            from_header (codes "bob@smtpd.com") (system.time_str 0)
            ++ delivered true (text (codes "Hi") (codes ". Ann" ∷ [])) (codes "> Hi")))
text_events-Delivered_example =
    text_events-Delivered system (λ _. refl) refl refl (codes "ann@smtpd.com")
      (codes "bob@smtpd.com") (omega arith) refl refl refl ann sender (some (codes "quote")) true
      (codes "> Hi") no_files pieces waiting (codes "Hi") (codes ". Ann" ∷ []) (codes "QUIT") refl
      refl
      (record {
        no_mails = refl;
        no_box = refl;
        no_new = refl;
        no_cur = refl;
        no_tmp = refl;
        no_file = refl;
      })
      waiting-Reading waiting-nodes waiting-start refl (λ _. refl) (omega arith)
      (omega arith, ((omega arith, (λ e. cc), (λ e. cc)), tt)) refl
