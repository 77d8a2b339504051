-- ===== src/Smtp/Flow/Handlers.antt =====
-- The frames of the handlers of smtpnio.c in the course of a session.
use tpe_protos.Base.{
  Option, some, none, ◌≡◌, refl, inl, inr, List, ℕ, Result, Holds, Holds-then, Holds-implies, take,
  drop,
}
use tpe_protos.Buffer
use tpe_protos.Request.{Command, data_}
use tpe_protos.RcptList.{Node}
use tpe_protos.Smtp.{FileCall, State, op_read, op_write, World}
use tpe_protos.Smtp.Io.{read_status, write_status, answer, with_write_buffer}
use tpe_protos.Smtp.Handlers.{copy_to_start, write_text}
use tpe_protos.Smtp.Flow.{Edge, stays, awaits, Agrees, Sound, Goes, Named, Mails, Answered, Filed}
use tpe_protos.Smtp.Flow.Steps.{
  Kept, Same, Writes, sent_some-Writes, write_status-Writes, read_status-Holds, answer-Holds,
}
use tpe_protos.Smtp.Flow.Bodies.{fails-Goes}

Named-Same : (s : State) {w w' : World} → Same w w' → Named s w.session → Named s w'.session
Named-Same State.rcpt_to_write same h = rw (same.parser, same.kept.nodes) h
Named-Same State.data_read same h = rw same.kept.nodes h
Named-Same State.data_write same h = rw same.kept.nodes h
Named-Same State.mail_info_read same h = rw same.kept.nodes h
Named-Same State.mail_info_write same h = rw same.kept.nodes h
Named-Same _ same h = tt

Filed-Kept :
    (s : State) {w w' : World}
    → Kept w w'
    → w'.session.request_parser ≡ w.session.request_parser
    → Filed s s w.session w.calls
    → Filed s s w'.session w'.calls
Filed-Kept State.data_write k e h = rw (e, k.nodes, k.calls) h
Filed-Kept State.mail_info_read k e h = rw (k.nodes, k.calls) h
Filed-Kept State.mail_info_write k e h = rw (k.nodes, k.calls) h
Filed-Kept _ k e h = rw k.calls h

Answered-Mails :
    (c : Command) (nodes : List Node) {calls : List FileCall}
    → Answered c nodes calls
    → (mail : Option (List Node)) × Mails calls mail
Answered-Mails data_ nodes h = (some nodes, h)
Answered-Mails _ nodes h = (none, h)

pub Filed-Mails :
    (s : State) (w : World)
    → Filed s s w.session w.calls
    → (mail : Option (List Node)) × Mails w.calls mail
Filed-Mails State.data_write w h =
    Answered-Mails w.session.request_parser.command w.session.rcpt_list h
Filed-Mails State.mail_info_read w h = (some w.session.rcpt_list, h)
Filed-Mails State.mail_info_write w h = (some w.session.rcpt_list, h)
Filed-Mails State.done w h = h
Filed-Mails State.error w h = h
Filed-Mails _ w h = (none, h)

-- In an error the mail of the state is given up.
Filed-fails :
    (s : State) (w : World) → Filed s s w.session w.calls → Filed s State.error w.session w.calls
Filed-fails State.mail_info_write w h = h
Filed-fails State.data_write w h = Filed-Mails State.data_write w h
Filed-fails State.mail_info_read w h = Filed-Mails State.mail_info_read w h
Filed-fails State.done w h = h
Filed-fails State.error w h = h
Filed-fails _ w h = (none, h)

pub Sound-Same : (s : State) {w w' : World} → Same w w' → Sound s w → Sound s w'
Sound-Same s same h = record {
  watched = rw same.interest h.watched;
  named = Named-Same s same h.named;
  filed = Filed-Kept s same.kept same.parser h.filed;
}

pub read_status-Goes :
    (s : State) (process : World → Result (State × World)) (w : World)
    → Sound s w
    → ((w' : World) → Sound s w' → Holds (λ r. Goes s r.0 r.1) (process w'))
    → Holds (λ r. Goes s r.0 r.1) (read_status s process w)
read_status-Goes s process w h go =
    read_status-Holds s process w (λ w' same. go w' (Sound-Same s same h))
      (λ w' same. fails-Goes s w' (Filed-fails s w' (Sound-Same s same h).filed))

pub answer-Goes :
    (s : State) (body : World → Result (State × World)) (w : World)
    → Sound s w
    → ((w' : World) → Kept w w' → Named s w'.session × Filed s s w'.session w'.calls)
    → ((w' : World)
        → Named s w'.session
        → w'.interest ≡ op_write
        → Filed s s w'.session w'.calls
        → Holds (λ r. Goes s r.0 r.1) (body w'))
    → Holds (λ r. Goes s r.0 r.1) (answer s body w)
answer-Goes s body w h kept go =
    answer-Holds s body w
      (λ w' k i. record {
        edge = stays s;
        sound = record { watched = rw i h.watched; named = (kept w' k).0; filed = (kept w' k).1 };
      })
      (λ w' k i. go w' (kept w' k).0 i (kept w' k).1)
      (λ w' k. fails-Goes s w' (Filed-fails s w' (kept w' k).1))

Writes-Goes :
    (s next : State) (w w' : World) (t : State)
    → Sound s w
    → Edge s next
    → Named next w'.session × Filed s next w'.session w'.calls
    → Agrees (awaits next) op_read
    → Writes s next w w' t
    → Goes s t w'
Writes-Goes s next w w' t h edge (named, filed) waits wrote = elim wrote.on [
  | inl (here, i) ↦ rw here (record {
    edge = stays s;
    sound = Sound-Same s (record { kept = wrote.kept; parser = wrote.parser; interest = i }) h;
  })
  | inr (inl (there, i)) ↦ rw there (record {
    edge = edge;
    sound = record { watched = rw i waits; named = named; filed = filed };
  })
  | inr (inr failed) ↦
      rw failed (fails-Goes s w' (Filed-fails s w' (Filed-Kept s wrote.kept wrote.parser h.filed)))
]

pub write_status-Goes :
    (s next : State) (w : World)
    → Sound s w
    → Edge s next
    → ((w' : World) → Kept w w' → Named next w'.session × Filed s next w'.session w'.calls)
    → Agrees (awaits next) op_read
    → Holds (λ r. Goes s r.0 r.1) (write_status s next w)
write_status-Goes s next w h edge named waits =
    Holds-implies (write_status s next w) (write_status-Writes s next w)
      (λ r wrote. Writes-Goes s next w r.1 r.0 h edge (named r.1 wrote.kept) waits wrote)

pub write_text-Goes :
    (text : List ℕ) (s next : State) (w : World)
    → Sound s w
    → Edge s next
    → ((w' : World) → Kept w w' → Named next w'.session × Filed s next w'.session w'.calls)
    → Agrees (awaits next) op_read
    → Holds (λ r. Goes s r.0 r.1) (write_text text s next w)
unfolding write_text
write_text-Goes text s next w h edge named waits =
    Holds-then (copy_to_start text w.session.write_buffer) _ (λ b _.
      Holds-then (Buffer.read_ptr b) _ (λ p _.
        Holds-implies _
          (sent_some-Writes s next (take p.1 (drop p.0 b.bytes)) (with_write_buffer w b) _)
          (λ r wrote.
            Writes-Goes s next (with_write_buffer w b) r.1 r.0
              (Sound-Same s {w = w} {w' = with_write_buffer w b}
                (record {
                  kept = record { nodes = refl; calls = refl };
                  parser = refl;
                  interest = refl;
                })
                h)
              edge (named r.1 (record { nodes = wrote.kept.nodes; calls = wrote.kept.calls })) waits
              wrote)))
