-- ===== src/Udp/Login.antt =====
-- udpserver.c: the login of a client, and what the datagrams of one client can do to the others.
use tpe_protos.Base.{
  ℕ, Bool, true, false, Option, none, some, List, [], ◌∷◌, ◌++◌, append-nil, ◌≡◌, ◌≢◌, refl, sym,
  ap, ◌∙◌, inl, inr, Holds, Holds-value, Holds-bind, Holds-implies, same_text, same_text_refl,
  same_nocase_n, Bool-cases, Option-cases, length, take, if◌then◌else◌,
}
use tpe_protos.Udp.{
  ClientState, init, wait_username, wait_password, auth_success, auth_failed, Client, find_client,
  add_client, before, user, ask_username, handle_authentication,
}
use tpe_protos.Udp.Handler.{Service, udp_read_handler, serve, log_in, enter, welcome}
use tpe_protos.Udp.Commands.{answer}
use tpe_protos.Udp.Answers.{answer-max_user}
use tpe_protos.Udp.Clients.{
  state_in, state_of, state_of-set_state, state_of-set_state_other, addressed, send_all-Service,
}

-- What a datagram says passes for the name and for the password.
abbrev pub passes : List ℕ → Bool
passes received = same_nocase_n (before b'\n' (before 0 received)) user (length received)

-- The login of one client as an automaton over its datagrams.
abbrev pub login : Option ClientState → List ℕ → ClientState
login none received = wait_username
login (some init) received = wait_username
login (some wait_username) received = if passes received then wait_password else wait_username
login (some wait_password) received = if passes received then auth_success else wait_username
login (some auth_success) received = auth_success
login (some auth_failed) received = auth_failed

-- What a datagram `received` from `addr` has done to `s`.
pub record Serves (addr received : List ℕ) (s s' : Service) : Type 0 where
  pub own : state_of addr s'.clients ≡ some (login (state_of addr s.clients) received)
  pub others :
      (a : List ℕ) → same_text addr a ≡ false → state_of a s'.clients ≡ state_of a s.clients
  pub answers : (texts : List (List ℕ)) × (s'.sent ≡ s.sent ++ addressed addr texts)
  pub guarded : state_of addr s.clients ≢ some auth_success → s'.server ≡ s.server
  pub max_user : s'.server.max_user ≡ s.server.max_user

log_in-Serves :
    (st : ClientState) (addr received : List ℕ) (s : Service)
    → state_of addr s.clients ≡ some st
    → (handle_authentication st (before 0 received) (length received)).0 ≡ login (some st) received
    → Serves addr received s (log_in st addr received s)
log_in-Serves st addr received s e next =
    let (st', texts) = handle_authentication st (before 0 received) (length received) in
    let all = texts ++ welcome st' in
    let f = send_all-Service addr all (enter addr st' s) in
    record {
      own =
          ap (λ x. state_of addr x.clients) f
          ∙ state_of-set_state addr st' st s.clients e
          ∙ ap some (next ∙ ap (λ o. login o received) (sym e));
      others =
          λ a h. ap (λ x. state_of a x.clients) f ∙ state_of-set_state_other addr a st' s.clients h;
      answers = (all, ap (λ x. x.sent) f);
      guarded = λ _. ap (λ x. x.server) f;
      max_user = ap (λ x. x.server.max_user) f;
    }

name-login :
    (received : List ℕ)
    → (handle_authentication wait_username (before 0 received) (length received)).0
      ≡ login (some wait_username) received
unfolding handle_authentication
name-login received = elim (Bool-cases (passes received)) [ inl h ↦ rw h refl | inr h ↦ rw h refl ]

password-login :
    (received : List ℕ)
    → (handle_authentication wait_password (before 0 received) (length received)).0
      ≡ login (some wait_password) received
unfolding handle_authentication
password-login received = elim (Bool-cases (passes received)) [
  | inl h ↦ rw h refl
  | inr h ↦ rw h refl
]

serve-Serves :
    (st : ClientState) (addr received : List ℕ) (s : Service)
    → state_of addr s.clients ≡ some st
    → Holds (Serves addr received s) (serve st addr received s)
unfolding serve
serve-Serves init addr received s e = Holds-value _ (record {
  own =
      state_of-set_state addr wait_username init s.clients e
      ∙ ap some (ap (λ o. login o received) (sym e));
  others = λ a h. state_of-set_state_other addr a wait_username s.clients h;
  answers = (ask_username ∷ [], refl);
  guarded = λ _. refl;
  max_user = refl;
})
serve-Serves wait_username addr received s e =
    Holds-value _ (log_in-Serves wait_username addr received s e (name-login received))
serve-Serves wait_password addr received s e =
    Holds-value _ (log_in-Serves wait_password addr received s e (password-login received))
serve-Serves auth_success addr received s e =
    Holds-bind (answer (before 0 received) s.server) _
      (answer-max_user (before 0 received) s.server)
      (λ r kept. Holds-value _ (record {
        own = e ∙ ap some (ap (λ o. login o received) (sym e));
        others = λ a h. refl;
        answers = (r.0 ∷ [], refl);
        guarded = λ n. absurd (n e);
        max_user = kept;
      }))
serve-Serves auth_failed addr received s e = Holds-value _ (record {
  own = e ∙ ap some (ap (λ o. login o received) (sym e));
  others = λ a h. refl;
  answers = ([], sym (append-nil s.sent));
  guarded = λ _. refl;
  max_user = refl;
})

init-ne : some init ≡ some auth_success → ⊥
init-ne e = cc

-- A client that is new to the service, behind `add_client`.
newcomer-Serves :
    (addr received : List ℕ) (s : Service)
    → find_client addr s.clients ≡ none
    → (s' : Service)
    → Serves addr received (record s { clients = add_client true addr s.clients }) s'
    → Serves addr received s s'
unfolding find_client add_client
newcomer-Serves addr received s e s' h =
    let new = record { addr = addr; state = init } ∷ s.clients in
    let known : state_of addr new ≡ some init = rw (same_text_refl addr) refl in
    record {
      own =
          h.own
          ∙ ap some (ap (λ o. login o received) known)
          ∙ ap (λ c. some (login (state_in c) received)) (sym e);
      others = λ a k. h.others a k ∙ rw k refl;
      answers = h.answers;
      guarded = λ _. h.guarded (λ k. init-ne (sym known ∙ k));
      max_user = h.max_user;
    }

pub find_client-add_client :
    (addr : List ℕ) (clients : List Client)
    → find_client addr (add_client true addr clients) ≡ some (record { addr = addr; state = init })
unfolding find_client add_client
find_client-add_client addr clients = rw (same_text_refl addr) refl

-- When the handler returns, a datagram has moved the login of its sender by one step of the
-- automaton, left the states of all other clients, been answered to its sender alone, changed the
-- variables of the server only if its sender had logged in, and never the maximal number of users.
pub udp_read_handler-Serves :
    (addr bytes : List ℕ) (s : Service)
    → Holds (Serves addr (take 1023 bytes) s) (udp_read_handler true (some (addr, bytes)) s)
unfolding udp_read_handler
udp_read_handler-Serves addr bytes s = elim (Option-cases (find_client addr s.clients)) [
  | inl e ↦
      let known = find_client-add_client addr s.clients in
      rw (e, known)
        (Holds-implies _
          (serve-Serves init addr (take 1023 bytes)
            (record s { clients = add_client true addr s.clients }) (ap state_in known))
          (newcomer-Serves addr (take 1023 bytes) s e))
  | inr (c, e) ↦ rw e (rw e (serve-Serves c.state addr (take 1023 bytes) s (ap state_in e)))
]
