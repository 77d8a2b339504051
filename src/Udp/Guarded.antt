-- ===== src/Udp/Guarded.antt =====
-- udpserver.c: the service over the datagrams of all its clients.
use tpe_protos.Base.{
  ℕ, true, Option, some, List, [], ◌∷◌, ◌≡◌, refl, inl, inr, Result, ok, ◌>>=◌, Holds, Holds-value,
  Holds-bind, same_text, same_text→≡, Bool-cases, take, if◌then◌else◌,
}
use mathlib.Core.Path.{subst}
use tpe_protos.Udp.{ClientState}
use tpe_protos.Udp.Handler.{Service, udp_read_handler}
use tpe_protos.Udp.Clients.{state_of}
use tpe_protos.Udp.Login.{login, udp_read_handler-Serves}

-- The handler for each of the datagrams that arrive, with memory for each new client.
abbrev pub run : List (List ℕ × List ℕ) → Service → Result Service
run [] s = ok s
run (d ∷ ds) s = udp_read_handler true (some d) s >>= run ds

-- The automaton of the login over the datagrams of one client.
abbrev pub follow : List ℕ → Option ClientState → List (List ℕ × List ℕ) → Option ClientState
follow addr st [] = st
follow addr st ((from, sent) ∷ ds) =
    if same_text from addr
    then follow addr (some (login st (take 1023 sent))) ds
    else follow addr st ds

-- The state of a client after any datagrams of any clients is what its own datagrams alone lead its
-- login to, whenever the service still runs.
pub run-follow :
    (addr : List ℕ) (ds : List (List ℕ × List ℕ)) (s : Service)
    → Holds (λ s'. state_of addr s'.clients ≡ follow addr (state_of addr s.clients) ds) (run ds s)
run-follow addr [] s = Holds-value s refl
run-follow addr ((from, sent) ∷ ds) s =
    let rest = run-follow addr ds in
    Holds-bind (udp_read_handler true (some (from, sent)) s) (run ds)
      (udp_read_handler-Serves from sent s)
      (λ s1 h. elim (Bool-cases (same_text from addr)) [
        | inl k ↦
            let own =
              subst
                (λ a. state_of a s1.clients ≡ some (login (state_of a s.clients) (take 1023 sent)))
                (same_text→≡ from addr k) h.own in
            rw k (rw own at (rest s1))
        | inr k ↦ rw k (rw (h.others addr k) at (rest s1))
      ])
