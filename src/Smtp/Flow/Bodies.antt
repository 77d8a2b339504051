-- ===== src/Smtp/Flow/Bodies.antt =====
-- What the commands do in the course of a session of smtpnio.c.
use tpe_protos.Smtp.Handlers.{rcpt_to_next}
use tpe_protos.Base.{
  Option, none, c_string, string_copy, ◌≡◌, ◌≢◌, refl, inl, inr, List, [], ◌∷◌, ℕ, ok, Bool, false,
  Holds, Holds-value, Holds-then, Holds-bind, Holds-if, Holds-implies,
}
use tpe_protos.Request.{Command, mail, rcpt, data_, quit}
use tpe_protos.RcptList.{Node, add_rcpt_to_list, create_rcpt_node}
use tpe_protos.Smtp.{State, op_write, World}
use tpe_protos.Smtp.Io.{reply, bye, check_email_domain}
use tpe_protos.Smtp.Process.{
  say, failed_connection_body, ehlo_body, mail_from_body, with_mailfrom, argument, add_rcpt,
  rcpt_to_body, with_rcpt_list,
}
use tpe_protos.Smtp.Flow.{
  Edge, rcpt_bye, rcpt_without, rcpt_asked, Comes, Goes, Mails, Filed, HasNode, ehlo_asked,
  ehlo_bye, refused_again, refused_bye, mail_asked, mail_bye, fails,
}
use tpe_protos.Smtp.Flow.Steps.{Kept, Same, reply-Same, bye-Kept}

-- The calls of a world that keeps them.
pub Kept-Mails :
    {w w' : World} {mail : Option (List Node)}
    → Kept w w'
    → Mails w.calls mail
    → Mails w'.calls mail
Kept-Mails k a = rw k.calls a

-- An error is sound.
pub fails-Goes :
    (s : State) (w : World) → Filed s State.error w.session w.calls → Goes s State.error w
fails-Goes s w a = record { edge = fails s; sound = record { watched = tt; named = tt; filed = a } }

pub bye-Goes :
    (s : State) (w : World)
    → Edge s State.done
    → ((w' : World) → Kept w w' → Filed s State.done w'.session w'.calls)
    → Holds (λ r. Goes s r.0 r.1) (bye s w)
bye-Goes s w edge a = Holds-implies (bye s w) (bye-Kept s w) (λ r (kept, ended).
    rw ended
      (record { edge = edge; sound = record { watched = tt; named = tt; filed = a r.1 kept } }))

-- An answer of fixed text that leads to a state with no recipient to show.
pub say-Holds :
    {P : State × World → Type 0} (next : State) (text : List ℕ) (n : ℕ) (w : World)
    → ((w' : World) → Same w w' → P (next, w'))
    → Holds P (say next text n w)
unfolding say
say-Holds next text n w go =
    Holds-bind (reply text n w) _ (reply-Same text n w) (λ w' same. Holds-value _ (go w' same))

-- A reading state that has no recipient to show.
pub failed_connection_body-Goes :
    (c : Command) (w : World)
    → w.interest ≡ op_write
    → Mails w.calls none
    → Holds (λ r. Goes State.failed_connection_read r.0 r.1) (failed_connection_body c w)
unfolding failed_connection_body
failed_connection_body-Goes quit w i a =
    bye-Goes State.failed_connection_read w refused_bye (λ w' k. (none, Kept-Mails k a))
failed_connection_body-Goes _ w i a =
    Holds-value _
      (record { edge = refused_again; sound = record { watched = i; named = tt; filed = a } })

-- A reply that keeps the parser and the recipients, after which the descriptor waits for writing.
pub answered-Goes :
    (s next : State) (text : List ℕ) (n : ℕ) (w : World)
    → Edge s next
    → ((w' : World) → Same w w' → Comes s next w')
    → Holds (λ r. Goes s r.0 r.1) (say next text n w)
answered-Goes s next text n w edge sound =
    say-Holds next text n w (λ w' same. record { edge = edge; sound = sound w' same })

pub ehlo_body-Goes :
    (c : Command) (w : World)
    → w.interest ≡ op_write
    → Mails w.calls none
    → Holds (λ r. Goes State.ehlo_read r.0 r.1) (ehlo_body c w)
unfolding ehlo_body
ehlo_body-Goes quit w i a = bye-Goes State.ehlo_read w ehlo_bye (λ w' k. (none, Kept-Mails k a))
ehlo_body-Goes _ w i a =
    answered-Goes State.ehlo_read State.ehlo_write _ _ w ehlo_asked (λ w' same. record {
      watched = rw same.interest i;
      named = tt;
      filed = Kept-Mails same.kept a;
    })

pub mail_from_body-Goes :
    (c : Command) (w : World)
    → w.interest ≡ op_write
    → Mails w.calls none
    → Holds (λ r. Goes State.mail_from_read r.0 r.1) (mail_from_body c w)
unfolding mail_from_body
mail_from_body-Goes quit w i a =
    bye-Goes State.mail_from_read w mail_bye (λ w' k. (none, Kept-Mails k a))
mail_from_body-Goes mail w i a = Holds-then (argument w) _ (λ arg _.
    Holds-then (string_copy w.session.mailfrom 0 arg) _ (λ mailfrom _.
      answered-Goes State.mail_from_read State.mail_from_write _ _ (with_mailfrom w mailfrom)
        mail_asked
        (λ w' same. record {
          watched = rw same.interest i;
          named = tt;
          filed = Kept-Mails same.kept a;
        })))
mail_from_body-Goes _ w i a =
    answered-Goes State.mail_from_read State.mail_from_write _ _ w mail_asked (λ w' same. record {
      watched = rw same.interest i;
      named = tt;
      filed = Kept-Mails same.kept a;
    })

-- A list to which a node has been added has one.
pub add_rcpt_to_list-HasNode :
    (allocated : Bool) (nodes : List Node) (email : List ℕ)
    → Holds HasNode (add_rcpt_to_list allocated nodes email)
unfolding add_rcpt_to_list
add_rcpt_to_list-HasNode allocated nodes email =
    Holds-then (create_rcpt_node allocated email) _ (λ node _. Holds-value _ tt)

add_rcpt-HasNode :
    (allocated : Bool) (nodes : List Node) (email : List ℕ)
    → Holds HasNode (add_rcpt allocated nodes email)
unfolding add_rcpt
add_rcpt-HasNode allocated [] email =
    Holds-then (create_rcpt_node allocated email) _ (λ node _. Holds-value _ tt)
add_rcpt-HasNode allocated (node ∷ nodes) email =
    add_rcpt_to_list-HasNode allocated (node ∷ nodes) email

pub rcpt_to_next-other :
    (c : Command) (arg : List ℕ) → c ≢ rcpt → rcpt_to_next c arg ≢ ok State.data_read
unfolding rcpt_to_next
rcpt_to_next-other rcpt arg h = absurd (h refl)
rcpt_to_next-other _ arg h = λ e. cc

rcpt_to_next-foreign :
    (arg s : List ℕ)
    → c_string arg ≡ ok s
    → check_email_domain s ≡ false
    → rcpt_to_next rcpt arg ≢ ok State.data_read
unfolding rcpt_to_next
rcpt_to_next-foreign arg s found foreign = rw (found, foreign) (λ e. cc)

pub rcpt_to_body-Goes :
    (c : Command) (w : World)
    → w.interest ≡ op_write
    → w.session.request_parser.command ≡ c
    → Mails w.calls none
    → Holds (λ r. Goes State.rcpt_to_read r.0 r.1) (rcpt_to_body c w)
unfolding rcpt_to_body
rcpt_to_body-Goes quit w i e a =
    bye-Goes State.rcpt_to_read w rcpt_bye (λ w' k. (none, Kept-Mails k a))
rcpt_to_body-Goes data_ w i e a =
    answered-Goes State.rcpt_to_read State.mail_from_write _ _ w rcpt_without (λ w' same. record {
      watched = rw same.interest i;
      named = tt;
      filed = Kept-Mails same.kept a;
    })
rcpt_to_body-Goes rcpt w i e a = Holds-then (argument w) _ (λ arg found.
    Holds-if (check_email_domain arg) _ _
      (λ _.
        Holds-bind (add_rcpt w.env.allocated w.session.rcpt_list arg) _ (add_rcpt-HasNode _ _ _)
          (λ nodes some_node.
            answered-Goes State.rcpt_to_read State.rcpt_to_write _ _ (with_rcpt_list w nodes)
              rcpt_asked
              (λ w' same. record {
                watched = rw same.interest i;
                named = inl (rw same.kept.nodes some_node);
                filed = Kept-Mails same.kept a;
              })))
      (λ foreign. answered-Goes State.rcpt_to_read State.rcpt_to_write _ _ w rcpt_asked (λ w' same.
        record {
          watched = rw same.interest i;
          named = inr (rw same.parser (rw e (rcpt_to_next-foreign _ arg found foreign)));
          filed = Kept-Mails same.kept a;
        })))
rcpt_to_body-Goes _ w i e a =
    answered-Goes State.rcpt_to_read State.rcpt_to_write _ _ w rcpt_asked (λ w' same. record {
      watched = rw same.interest i;
      named = inr (rw same.parser (rw e (rcpt_to_next-other _ _ (λ x. cc))));
      filed = Kept-Mails same.kept a;
    })
