-- ===== src/Smtp/Flow/Steps.antt =====
-- What the parts of the handlers keep: the reading, the sending and the answers of smtpnio.c.
use tpe_protos.Base.{
  codes, ◌⊎◌, ℕ, zero, suc, ◌≡◌, refl, ◌∙◌, false, List, ◌++◌, ℤ, pos, negsuc, Result, ok, take,
  if◌then◌else◌, string_copy, Holds, Holds-value, Holds-then, Holds-bind, Holds-if, Bool-cases, inl,
  inr, some,
}
use tpe_protos.Buffer
use tpe_protos.Buffer.{Buffer}
use tpe_protos.Request.Consume.{consume}
use tpe_protos.Smtp.{State, op_read, op_write, World}
use tpe_protos.Smtp.Io.{
  interest_state, set_interest, with_write_buffer, sent_some, write_status, received, read_status,
  stored, reply, consume_request, answer, bye,
}

-- The recipients and the calls on files are those of before.
pub record Kept (w w' : World) : Type 0 where
  pub nodes : w'.session.rcpt_list ≡ w.session.rcpt_list
  pub calls : w'.calls ≡ w.calls

-- So are the command and the interest.
pub record Same (w w' : World) : Type 0 where
  pub kept : Kept w w'
  pub parser : w'.session.request_parser ≡ w.session.request_parser
  pub interest : w'.interest ≡ w.interest

pub Kept-refl : (w : World) → Kept w w
Kept-refl w = record { nodes = refl; calls = refl }

pub Same-refl : (w : World) → Same w w
Same-refl w = record { kept = Kept-refl w; parser = refl; interest = refl }

pub Kept-trans : {u v w : World} → Kept u v → Kept v w → Kept u w
Kept-trans s t = record { nodes = t.nodes ∙ s.nodes; calls = t.calls ∙ s.calls }

pub Same-trans : {u v w : World} → Same u v → Same v w → Same u w
Same-trans s t = record {
  kept = Kept-trans s.kept t.kept;
  parser = t.parser ∙ s.parser;
  interest = t.interest ∙ s.interest;
}

-- `write_status` stays in `current` until all is sent, and then waits for the client in `next`.
pub record Writes (current next : State) (w w' : World) (s : State) : Type 0 where
  pub kept : Kept w w'
  pub parser : w'.session.request_parser ≡ w.session.request_parser
  pub on :
      ((s ≡ current) × (w'.interest ≡ w.interest))
      ⊎ ((s ≡ next) × (w'.interest ≡ op_read))
      ⊎ (s ≡ State.error)

interest_state-Writes :
    (current next : State) (w w' : World)
    → Same w w'
    → Writes current next w
        (interest_state (set_interest op_read w') next).1
        (interest_state (set_interest op_read w') next).0
unfolding set_interest
interest_state-Writes current next w w' same = elim (Bool-cases (w'.env.accepts op_read)) [
  | inl agreed ↦ rw agreed (record {
    kept = record { nodes = same.kept.nodes; calls = same.kept.calls };
    parser = same.parser;
    on = inr (inl (refl, refl));
  })
  | inr not_agreed ↦
      rw not_agreed (record { kept = same.kept; parser = same.parser; on = inr (inr refl) })
]

pub sent_some-Writes :
    (current next : State) (out : List ℕ) (w : World) (n : ℤ)
    → Holds (λ r. Writes current next w r.1 r.0) (sent_some current next out w n)
unfolding sent_some
sent_some-Writes current next out w (pos (suc k)) =
    Holds-then (Buffer.read_adv w.session.write_buffer (pos (suc k))) _ (λ b _.
      let same : Same w (record (with_write_buffer w b) { sent = w.sent ++ take (suc k) out }) =
        record { kept = record { nodes = refl; calls = refl }; parser = refl; interest = refl } in
      Holds-if (Buffer.can_read b) _ _
        (λ _. Holds-value _ (record { kept = same.kept; parser = refl; on = inl (refl, refl) }))
        (λ _. Holds-value _ (interest_state-Writes current next w _ same)))
sent_some-Writes current next out w (pos zero) =
    Holds-value _ (record { kept = Kept-refl w; parser = refl; on = inr (inr refl) })
sent_some-Writes current next out w (negsuc n) =
    Holds-value _ (record { kept = Kept-refl w; parser = refl; on = inr (inr refl) })

pub reply-Same : (text : List ℕ) (n : ℕ) (w : World) → Holds (Same w) (reply text n w)
unfolding reply
reply-Same text n w = Holds-then (Buffer.write_ptr w.session.write_buffer) _ (λ p _.
    Holds-then (string_copy w.session.write_buffer.bytes p.0 text) _ (λ memory _.
      Holds-then (Buffer.write_adv (record w.session.write_buffer { bytes = memory }) (pos n)) _
        (λ b _. Holds-value _ (record {
          kept = record { nodes = refl; calls = refl };
          parser = refl;
          interest = refl;
        }))))

pub write_status-Writes :
    (current next : State) (w : World)
    → Holds (λ r. Writes current next w r.1 r.0) (write_status current next w)
unfolding write_status
write_status-Writes current next w =
    Holds-then (Buffer.read_ptr w.session.write_buffer) _
      (λ p _. sent_some-Writes current next _ w _)

received-Holds :
    {P : State × World → Type 0} (current : State) (process : World → Result (State × World))
    (w : World) (at : ℕ) (r : ℤ × List ℕ)
    → ((w' : World) → Same w w' → Holds P (process w'))
    → ((w' : World) → Same w w' → P (State.error, w'))
    → Holds P (received current process w at r)
unfolding received
received-Holds current process w at (pos (suc k), bytes) go fail =
    Holds-then (Buffer.write_adv (stored w.session.read_buffer at bytes) (pos (suc k))) _ (λ b _.
      go _
        (record { kept = record { nodes = refl; calls = refl }; parser = refl; interest = refl }))
received-Holds current process w at (pos zero, bytes) go fail = Holds-value _ (
    fail _
      (record { kept = record { nodes = refl; calls = refl }; parser = refl; interest = refl }))
received-Holds current process w at (negsuc n, bytes) go fail = Holds-value _ (
    fail _
      (record { kept = record { nodes = refl; calls = refl }; parser = refl; interest = refl }))

-- What `read_status` returns is what its process returns for a world that is the same, or an error.
pub read_status-Holds :
    {P : State × World → Type 0} (current : State) (process : World → Result (State × World))
    (w : World)
    → ((w' : World) → Same w w' → Holds P (process w'))
    → ((w' : World) → Same w w' → P (State.error, w'))
    → Holds P (read_status current process w)
unfolding read_status
read_status-Holds current process w go fail =
    Holds-if (Buffer.can_read w.session.read_buffer) _ _ (λ _. go w (Same-refl w))
      (λ _.
        Holds-then (Buffer.write_ptr w.session.read_buffer) _
          (λ p _. received-Holds current process w p.0 (w.env.recv p.1) go fail))

pub consume_request-Kept :
    (w : World) → Holds (λ r. Kept w r.1 × (r.1.interest ≡ w.interest)) (consume_request w)
unfolding consume_request
consume_request-Kept w =
    Holds-then (consume w.session.read_buffer w.session.request_parser (some false)) _
      (λ o _. Holds-value _ (record { nodes = refl; calls = refl }, refl))

-- The interest is changed to writing for `body`, or there is an error.
pub switched-Holds :
    {P : State × World → Type 0} (body : World → Result (State × World)) (w : World)
    → ((w' : World) → Kept w w' → w'.interest ≡ op_write → Holds P (body w'))
    → ((w' : World) → Kept w w' → P (State.error, w'))
    → Holds P (let x = set_interest op_write w in if x.0 then body x.1 else ok (State.error, x.1))
unfolding set_interest
switched-Holds body w go fail = elim (Bool-cases (w.env.accepts op_write)) [
  | inl agreed ↦ rw agreed (go _ (record { nodes = refl; calls = refl }) refl)
  | inr not_agreed ↦ rw not_agreed (Holds-value _ (fail _ (Kept-refl w)))
]

-- What `answer` returns is that it stays, or what its body returns once it may write, or an error.
pub answer-Holds :
    {P : State × World → Type 0} (stay : State) (body : World → Result (State × World)) (w : World)
    → ((w' : World) → Kept w w' → w'.interest ≡ w.interest → P (stay, w'))
    → ((w' : World) → Kept w w' → w'.interest ≡ op_write → Holds P (body w'))
    → ((w' : World) → Kept w w' → P (State.error, w'))
    → Holds P (answer stay body w)
unfolding answer
answer-Holds stay body w remain go fail =
    Holds-bind (consume_request w) _ (consume_request-Kept w) (λ r (kept, same).
      Holds-if r.0 _ _
        (λ _.
          switched-Holds body r.1 (λ w' k i. go w' (Kept-trans kept k) i)
            (λ w' k. fail w' (Kept-trans kept k)))
        (λ _. Holds-value _ (remain r.1 kept same)))

pub bye-Kept :
    (stay : State) (w : World) → Holds (λ r. Kept w r.1 × (r.0 ≡ State.done)) (bye stay w)
unfolding bye
bye-Kept stay w =
    Holds-bind (reply (codes "221 Bye\r\n") 9 w) _ (reply-Same (codes "221 Bye\r\n") 9 w)
      (λ w1 same.
        Holds-bind (write_status stay State.done w1) _ (write_status-Writes stay State.done w1)
          (λ r wrote. Holds-value _ (Kept-trans same.kept wrote.kept, refl)))
