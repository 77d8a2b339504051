-- ===== src/Udp/Clients.antt =====
-- udpserver.c: the table of clients as a map from addresses to states.
use tpe_protos.Base.{
  ℕ, false, Option, none, some, List, [], ◌∷◌, ◌++◌, ◌≡◌, refl, sym, ap, ◌∙◌, inl, inr, append-nil,
  append_assoc, same_text, same_text→≡, Bool-cases,
}
use tpe_protos.Udp.{ClientState, Client, find_client, set_state}
use tpe_protos.Udp.Handler.{Service, send, send_all}

abbrev pub state_in : Option Client → Option ClientState
state_in none = none
state_in (some c) = some c.state

-- The state of the client with an address.
abbrev pub state_of : List ℕ → List Client → Option ClientState
state_of addr clients = state_in (find_client addr clients)

pub state_of-set_state :
    (addr : List ℕ) (st old : ClientState) (clients : List Client)
    → state_of addr clients ≡ some old
    → state_of addr (set_state addr st clients) ≡ some st
unfolding find_client set_state
state_of-set_state addr st old [] e = absurd cc
state_of-set_state addr st old (c ∷ clients) e = elim (Bool-cases (same_text c.addr addr)) [
  | inl h ↦ rw h (rw h refl)
  | inr h ↦ rw h (rw h (state_of-set_state addr st old clients (rw h at e)))
]

pub state_of-set_state_other :
    (addr a : List ℕ) (st : ClientState) (clients : List Client)
    → same_text addr a ≡ false
    → state_of a (set_state addr st clients) ≡ state_of a clients
unfolding find_client set_state
state_of-set_state_other addr a st [] e = refl
state_of-set_state_other addr a st (c ∷ clients) e = elim (Bool-cases (same_text c.addr addr)) [
  | inl h ↦
      let other : same_text c.addr a ≡ false =
        ap (λ b. same_text b a) (same_text→≡ c.addr addr h) ∙ e in
      rw h (rw other refl)
  | inr h ↦ rw h (elim (Bool-cases (same_text c.addr a)) [
    | inl k ↦ rw k refl
    | inr k ↦ rw k (state_of-set_state_other addr a st clients e)
  ])
]

-- Texts, each with the address that it goes to.
abbrev pub addressed : List ℕ → List (List ℕ) → List (List ℕ × List ℕ)
addressed addr [] = []
addressed addr (text ∷ texts) = (addr, text) ∷ addressed addr texts

pub send_all-Service :
    (addr : List ℕ) (texts : List (List ℕ)) (s : Service)
    → send_all addr texts s ≡ record s { sent = s.sent ++ addressed addr texts }
send_all-Service addr [] s = ap (λ l. record s { sent = l }) (sym (append-nil s.sent))
send_all-Service addr (text ∷ texts) s =
    send_all-Service addr texts (send addr text s)
    ∙ ap (λ l. record s { sent = l })
        (append_assoc s.sent ((addr, text) ∷ []) (addressed addr texts))
