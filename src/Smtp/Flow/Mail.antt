-- ===== src/Smtp/Flow/Mail.antt =====
-- DATA and the text of a mail in the course of a session of smtpnio.c.
use tpe_protos.Base.{
  Option, some, none, codes, ◌≡◌, inl, inr, List, [], ◌∷◌, ◌++◌, ok, take, if◌then◌else◌, Holds,
  Holds-value, Holds-then, Holds-bind, Holds-if, Holds-err, Bool-cases, Result, ◌>>=◌, aborted,
}
use tpe_protos.Buffer
use tpe_protos.Data
use tpe_protos.Request.{Command, rcpt, data_, quit}
use tpe_protos.RcptList.{Node, add_rcpt_to_list}
use tpe_protos.Smtp.{
  State, op_read, op_write, FileCall, World, create_mails_files, write_to_files, close_fds,
}
use tpe_protos.Smtp.Io.{reply, set_interest}
use tpe_protos.Smtp.Process.{
  add_call, call_files, consumed, filed, argument, data_body, mail_info_body,
  mail_info_read_process, with_rcpt_list,
}
use tpe_protos.Smtp.Flow.{
  data_asked, data_bye, data_rcpt, text_ended, stays, fails, Goes, Addressed, HasNode, Mails,
  no_mail, created, written, closed,
}
use tpe_protos.Smtp.Flow.Steps.{Kept, reply-Same, switched-Holds}
use tpe_protos.Smtp.Flow.Bodies.{
  Kept-Mails, fails-Goes, bye-Goes, answered-Goes, add_rcpt_to_list-HasNode,
}

-- An open mail has a recipient.
abbrev OpenHasNode : Option (List Node) → Type 0
OpenHasNode none = Unit {0}
OpenHasNode (some nodes) = HasNode nodes

Mails-HasNode :
    {calls : List FileCall} {mail : Option (List Node)} → Mails calls mail → OpenHasNode mail
Mails-HasNode no_mail = tt
Mails-HasNode (created _ _ _ _ _ m h) = h
Mails-HasNode (written _ _ _ m) = Mails-HasNode m
Mails-HasNode (closed _ _ m) = tt

-- The open mail of a session whose recipients and calls are kept.
pub Kept-Text :
    {w w' : World}
    → Kept w w'
    → Mails w.calls (some w.session.rcpt_list)
    → Mails w'.calls (some w'.session.rcpt_list)
Kept-Text k a = rw (k.nodes, k.calls) a

Addressed-append : (cs ds : List FileCall) → Addressed cs → Addressed ds → Addressed (cs ++ ds)
Addressed-append [] ds a b = b
Addressed-append (create_mails_files _ _ _ _ ∷ cs) ds (h, a) b = (h, Addressed-append cs ds a b)
Addressed-append (write_to_files _ _ ∷ cs) ds (h, a) b = (h, Addressed-append cs ds a b)
Addressed-append (close_fds _ ∷ cs) ds a b = Addressed-append cs ds a b

pub Mails-Addressed :
    {calls : List FileCall} {mail : Option (List Node)} → Mails calls mail → Addressed calls
Mails-Addressed no_mail = tt
Mails-Addressed (created calls _ _ _ _ m h) = Addressed-append calls _ (Mails-Addressed m) (h, tt)
Mails-Addressed (written calls nodes _ m) =
    Addressed-append calls _ (Mails-Addressed m) (Mails-HasNode m, tt)
Mails-Addressed (closed calls _ m) = Addressed-append calls _ (Mails-Addressed m) tt

-- A call on files that returns is noted.
Holds-call {ℓ} :
    {B : Type ℓ} {Q : B → Type 0} (c : FileCall) (w : World) (k : World → Result B)
    → Holds Q (k (add_call w c))
    → Holds Q (call_files c w >>= k)
Holds-call c w k h = elim (Bool-cases (w.env.files c)) [
  | inl e ↦ rw e h
  | inr e ↦ rw e (Holds-err aborted)
]

pub data_body-Goes :
    (c : Command) (w : World)
    → w.interest ≡ op_write
    → w.session.request_parser.command ≡ c
    → HasNode w.session.rcpt_list
    → Mails w.calls none
    → Holds (λ r. Goes State.data_read r.0 r.1) (data_body c w)
unfolding data_body
data_body-Goes quit w i e h a = bye-Goes State.data_read w data_bye (λ w' k. (none, Kept-Mails k a))
data_body-Goes data_ w i e h a =
    Holds-bind (reply (codes "354 End data with <CR><LF>.<CR><LF>\r\n") 37 w) _
      (reply-Same (codes "354 End data with <CR><LF>.<CR><LF>\r\n") 37 w)
      (λ w' same.
        let h' : HasNode w'.session.rcpt_list = rw same.kept.nodes h in
        Holds-call _ w' _ (
          Holds-value _ (record {
            edge = data_asked;
            sound = record {
              watched = rw same.interest i;
              named = h';
              filed = rw same.parser (rw e (created w'.calls _ _ _ _ (Kept-Mails same.kept a) h'));
            };
          })))
data_body-Goes rcpt w i e h a = Holds-then (argument w) _ (λ arg _.
    Holds-bind (add_rcpt_to_list w.env.allocated w.session.rcpt_list arg) _
      (add_rcpt_to_list-HasNode _ _ _)
      (λ nodes some_node.
        answered-Goes State.data_read State.rcpt_to_write _ _ (with_rcpt_list w nodes) data_rcpt
          (λ w' same. record {
            watched = rw same.interest i;
            named = inl (rw same.kept.nodes some_node);
            filed = Kept-Mails same.kept a;
          })))
data_body-Goes _ w i e h a =
    answered-Goes State.data_read State.data_write _ _ w data_asked (λ w' same. record {
      watched = rw same.interest i;
      named = rw same.kept.nodes h;
      filed = rw same.parser (rw e (Kept-Mails same.kept a));
    })

mail_info_body-Goes :
    (s : Data.State) (w : World)
    → w.interest ≡ op_write
    → HasNode w.session.rcpt_list
    → Mails w.calls (some w.session.rcpt_list)
    → Holds (λ r. Goes State.mail_info_read r.0 r.1) (mail_info_body s w)
unfolding mail_info_body
mail_info_body-Goes Data.State.done w i h a =
    answered-Goes State.mail_info_read State.mail_info_write _ _ w text_ended (λ w' same. record {
      watched = rw same.interest i;
      named = rw same.kept.nodes h;
      filed = Kept-Text same.kept a;
    })
mail_info_body-Goes _ w i h a =
    answered-Goes State.mail_info_read State.error _ _ w (fails State.mail_info_read)
      (λ w' same. record { watched = tt; named = tt; filed = (_, Kept-Mails same.kept a) })

mail_info_ended-Goes :
    (w : World)
    → HasNode w.session.rcpt_list
    → Mails w.calls (some w.session.rcpt_list)
    → Holds
        (λ r. Goes State.mail_info_read r.0 r.1)
        (let x = set_interest op_write w in
          if x.0 then mail_info_body x.1.session.data_parser.state x.1 else ok (State.error, x.1))
mail_info_ended-Goes w h a =
    switched-Holds (λ w'. mail_info_body w'.session.data_parser.state w') w
      (λ w' k i.
        mail_info_body-Goes w'.session.data_parser.state w' i (rw k.nodes h) (Kept-Text k a))
      (λ w' k. fails-Goes State.mail_info_read w' (_, Kept-Mails k a))

pub mail_info_read_process-Goes :
    (w : World)
    → w.interest ≡ op_read
    → HasNode w.session.rcpt_list
    → Mails w.calls (some w.session.rcpt_list)
    → Holds (λ r. Goes State.mail_info_read r.0 r.1) (mail_info_read_process w)
unfolding mail_info_read_process
mail_info_read_process-Goes w i h a =
    Holds-then
      (Data.consume w.session.read_buffer (record w.session.data_parser {
        data_buffer = Buffer.reset w.session.data_parser.data_buffer;
      }))
      _
      (λ o _. Holds-call _ (consumed w o) _ (
        Holds-if (Data.is_done o.st) _ _ (λ _. mail_info_ended-Goes (filed w o) h (with_files o.p))
          (λ _. Holds-value _ (record {
            edge = stays State.mail_info_read;
            sound = record { watched = i; named = h; filed = with_files o.p };
          }))))
  where
    with_files :
        (p : Data.Parser)
        → Mails
            (w.calls
              ++ (write_to_files w.session.rcpt_list
                    (take p.data_buffer.write_at p.data_buffer.bytes)
                  ∷ []))
            (some w.session.rcpt_list)
    with_files p = written w.calls w.session.rcpt_list _ a
