-- ===== src/Main/Tests.antt =====
-- A witness for main.c.
use tpe_protos.Base.{ℕ, none, replicate, pos, true, false, [], ◌∷◌}
use tpe_protos.Selector.{success, Selector}
use tpe_protos.Main.{Answers}

-- A table that a turn leaves.
abbrev left : Selector ℕ
left = record {
  fds = replicate 1025 none;
  max_fd = 0;
  master_r = λ _. false;
  master_w = λ _. false;
}

abbrev two_turns : Answers
two_turns = record {
  server = pos 3;
  server_6969 = pos 4;
  bind = λ _. true;
  listen = true;
  nio = true;
  nio_6969 = true;
  init = true;
  made = true;
  allocated = true;
  turns = (success, left) ∷ (success, left) ∷ [];
}
