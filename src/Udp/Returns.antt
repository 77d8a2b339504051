-- ===== src/Udp/Returns.antt =====
-- udpserver.c: when the handler of a datagram returns.
use tpe_protos.Base.{
  ℕ, true, false, none, some, List, ◌≡◌, ◌≢◌, refl, ap, ◌∙◌, inl, inr, ok, err, uninitialized,
  Option-cases, none-ne, some-inj, take,
}
use tpe_protos.Udp.{
  ClientState, init, wait_username, wait_password, auth_success, auth_failed, add_client, before,
  find_client,
}
use tpe_protos.Udp.Handler.{Service, send, udp_read_handler, serve}
use tpe_protos.Udp.Clients.{state_in, state_of}
use tpe_protos.Udp.Answers.{is_command, answer-command, answer-unknown}
use tpe_protos.Udp.Login.{find_client-add_client}

serve-Returns :
    (st : ClientState) (addr received : List ℕ) (s : Service)
    → st ≢ auth_success
    → (s' : Service) × (serve st addr received s ≡ ok s')
unfolding serve
serve-Returns init addr received s h = (_, refl)
serve-Returns wait_username addr received s h = (_, refl)
serve-Returns wait_password addr received s h = (_, refl)
serve-Returns auth_success addr received s h = absurd (h refl)
serve-Returns auth_failed addr received s h = (_, refl)

-- A client that is in the table is served by its state.
handler-serve :
    (addr sent : List ℕ) (s : Service) (st : ClientState)
    → state_of addr s.clients ≡ some st
    → udp_read_handler true (some (addr, sent)) s ≡ serve st addr (take 1023 sent) s
unfolding udp_read_handler
handler-serve addr sent s st e = elim (Option-cases (find_client addr s.clients)) [
  | inl k ↦ absurd (none-ne (rw k at e))
  | inr (c, k) ↦ rw k (rw k (ap (λ x. serve x addr (take 1023 sent) s) (some-inj (rw k at e))))
]

init-ne : init ≡ auth_success → ⊥
init-ne e = cc

newcomer-Returns :
    (addr sent : List ℕ) (s : Service)
    → find_client addr s.clients ≡ none
    → (s' : Service) × (udp_read_handler true (some (addr, sent)) s ≡ ok s')
unfolding udp_read_handler
newcomer-Returns addr sent s e =
    let new = record s { clients = add_client true addr s.clients } in
    let (s', returns) = serve-Returns init addr (take 1023 sent) new (λ k. init-ne k) in
    (s', rw (e, find_client-add_client addr s.clients) returns)

-- So it is of a client that has not logged in.
waiting-Returns :
    (addr sent : List ℕ) (s : Service)
    → state_of addr s.clients ≢ some auth_success
    → (s' : Service) × (udp_read_handler true (some (addr, sent)) s ≡ ok s')
waiting-Returns addr sent s h = elim (Option-cases (find_client addr s.clients)) [
  | inl e ↦ newcomer-Returns addr sent s e
  | inr (c, e) ↦
      let own = ap state_in e in
      let (s', returns) =
        serve-Returns c.state addr (take 1023 sent) s (λ k. h (own ∙ ap some k)) in
      (s', handler-serve addr sent s c.state own ∙ returns)
]

command-Returns :
    (addr received : List ℕ) (s : Service)
    → is_command (before 0 received) ≡ true
    → (s' : Service) × (serve auth_success addr received s ≡ ok s')
unfolding serve
command-Returns addr received s h =
    let (r, e) = answer-command (before 0 received) s.server h in
    (send addr r.0 (record s { server = r.1 }), rw e refl)

unknown-uninitialized :
    (addr received : List ℕ) (s : Service)
    → is_command (before 0 received) ≡ false
    → serve auth_success addr received s ≡ err uninitialized
unfolding serve
unknown-uninitialized addr received s h = rw (answer-unknown (before 0 received) s.server h) refl

pub udp_read_handler-Returns :
    (addr sent : List ℕ) (s : Service)
    → (state_of addr s.clients ≢ some auth_success
        → (s' : Service) × (udp_read_handler true (some (addr, sent)) s ≡ ok s'))
      × (state_of addr s.clients ≡ some auth_success
          → is_command (before 0 (take 1023 sent)) ≡ true
          → (s' : Service) × (udp_read_handler true (some (addr, sent)) s ≡ ok s'))
      × (state_of addr s.clients ≡ some auth_success
          → is_command (before 0 (take 1023 sent)) ≡ false
          → udp_read_handler true (some (addr, sent)) s ≡ err uninitialized)
udp_read_handler-Returns addr sent s = (
  waiting-Returns addr sent s,
  λ e h.
      let (s', returns) = command-Returns addr (take 1023 sent) s h in
      (s', handler-serve addr sent s auth_success e ∙ returns),
  λ e h. handler-serve addr sent s auth_success e ∙ unknown-uninitialized addr (take 1023 sent) s h,
)
