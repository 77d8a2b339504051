-- ===== src/Main/Codes.antt =====
-- main.c: the exit code of a server that has been started.
use tpe_protos.Base.{ℕ, true, false, none, some, List, [], ◌∷◌, ◌≡◌, ok, replicate}
use tpe_protos.Selector.{Status, Item, Selector, call_close}
use tpe_protos.Selector.Valid.{place, IsValid}
use tpe_protos.Selector.Operations.{IsFull}
use tpe_protos.Main.{is_success, passive}

new_table : Selector ℕ
new_table = record {
  fds = replicate 1025 none;
  max_fd = 0;
  master_r = λ _. false;
  master_w = λ _. false;
}

-- The items that main.c registers have no `handle_close`.
abbrev AllPassive : Selector ℕ → Type 0
AllPassive s = (j : ℕ) (item : Item ℕ) → place s.fds j ≡ some item → item.handler ≡ passive

-- What `selector_destroy` needs of a table to return.
pub record IsDestroyable (s : Selector ℕ) : Type 0 where
  pub full : IsFull s
  pub valid : IsValid s
  pub last : place s.fds 1024 ≡ none
  pub close : ℕ → ℕ → ℕ
  pub closes :
      (fd : ℕ) (item : Item ℕ) (w : ℕ)
      → place s.fds fd ≡ some item
      → call_close item.handler.handle_close fd w ≡ ok (close fd w)

-- The turns succeed, and leave tables that can be destroyed.
abbrev pub AllServe : List (Status × Selector ℕ) → Type 0
AllServe [] = Unit {0}
AllServe ((ss, t) ∷ turns) = (is_success ss ≡ true) × IsDestroyable t × AllServe turns
