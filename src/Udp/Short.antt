-- ===== src/Udp/Short.antt =====
-- udpserver.c: the comparison of a name and a password with their own length.
use tpe_protos.Base.{
  ℕ, true, false, ◌&&◌, Option, none, some, List, [], ◌∷◌, ◌≡◌, ◌≢◌, refl, sym, ap, ◌∙◌, ok,
  same_nocase, same_letter, length, ◌≤◌, take,
}
use tpe_protos.Udp.{ClientState, wait_username, wait_password, auth_success, before, user}
use tpe_protos.Udp.Handler.{Service, udp_read_handler}
use tpe_protos.Udp.Clients.{state_of}
use tpe_protos.Udp.Login.{login, udp_read_handler-Serves, passes}
use tpe_protos.Base.{take_all, both-left, both-right, same_nocase_n, ◌<◌, ◌==◌, arith, zero, suc}
use tpe_protos.Udp.Guarded.{run}
use tpe_protos.Udp.Returns.{udp_read_handler-Returns}

-- A start of "user" in any case, also none of it.
abbrev pub IsStart : List ℕ → Type 0
IsStart text = (length text ≤ 4) × (same_nocase text (take (length text) user) ≡ true)

same_nocase_n-take :
    (a b : List ℕ) → same_nocase_n a b (length a) ≡ same_nocase a (take (length a) b)
same_nocase_n-take [] b = refl
same_nocase_n-take (x ∷ a) [] = refl
same_nocase_n-take (x ∷ a) (y ∷ b) = ap (λ r. same_letter x y && r) (same_nocase_n-take a b)

abbrev AreLetters : List ℕ → Type 0
AreLetters [] = Unit {0}
AreLetters (c ∷ s) = (b'a' ≤ c) × AreLetters s

letter-not : (stop c d : ℕ) → stop < 65 → b'a' ≤ d → same_letter c d ≡ true → (c == stop) ≡ false
letter-not stop c d h k e = ground arith

before-letters :
    (stop : ℕ) (a b : List ℕ)
    → stop < 65
    → AreLetters b
    → same_nocase a b ≡ true
    → before stop a ≡ a
before-letters stop [] b h k e = refl
before-letters stop (x ∷ a) [] h k e = absurd cc
before-letters stop (x ∷ a) (y ∷ b) h k e =
    let (is_letter, letters) = k in
    let other = letter-not stop x y h is_letter (both-left (same_letter x y) _ e) in
    let rest = before-letters stop a b h letters (both-right (same_letter x y) _ e) in
    rw other (ap (◌∷◌ x) rest)

take-letters : (n : ℕ) (s : List ℕ) → AreLetters s → AreLetters (take n s)
take-letters zero s h = tt
take-letters (suc n) [] h = tt
take-letters (suc n) (c ∷ s) (is_letter, letters) = (is_letter, take-letters n s letters)

user-letters : AreLetters user
user-letters = (omega arith, (omega arith, (omega arith, (omega arith, tt))))

start-passes : (text : List ℕ) → IsStart text → passes (take 1023 text) ≡ true
start-passes text (short, e) =
    let all = take_all 1023 text (omega arith) in
    let letters = take-letters (length text) user user-letters in
    let front = λ (stop : ℕ) (h : stop < 65).
      before-letters stop text (take (length text) user) h letters e in
    rw (all, front 0 (omega arith), front b'\n' (omega arith)) (same_nocase_n-take text user ∙ e)

-- A datagram of a client that has not logged in moves its login by one step.
login-step :
    (addr sent : List ℕ) (s : Service) (st : Option ClientState)
    → state_of addr s.clients ≡ st
    → st ≢ some auth_success
    → (s' : Service) × (udp_read_handler true (some (addr, sent)) s ≡ ok s')
      × (state_of addr s'.clients ≡ some (login st (take 1023 sent)))
login-step addr sent s st e h =
    let (s', returns) = (udp_read_handler-Returns addr sent s).0 (λ k. h (sym e ∙ k)) in
    let own = ((udp_read_handler-Serves addr sent s).on_ok s' returns).own in
    (s', returns, own ∙ ap (λ o. some (login o (take 1023 sent))) e)

-- Three datagrams log a new client in: any one, and two that are starts of "user" in any case, such
-- as two empty ones.
pub run-start :
    (addr first name password : List ℕ) (s : Service)
    → state_of addr s.clients ≡ none
    → IsStart name
    → IsStart password
    → (s' : Service) × (run ((addr, first) ∷ (addr, name) ∷ (addr, password) ∷ []) s ≡ ok s')
      × (state_of addr s'.clients ≡ some auth_success)
run-start addr first name password s new is_name is_password =
    let (s1, r1, e1) = login-step addr first s none new (λ k. cc) in
    let (s2, r2, e2) = login-step addr name s1 (some wait_username) e1 (λ k. cc) in
    let (s3, r3, e3) =
      login-step addr password s2 (some wait_password) (e2 ∙ rw (start-passes name is_name) refl)
        (λ k. cc) in
    (s3, rw (r1, r2, r3) refl, e3 ∙ rw (start-passes password is_password) refl)
