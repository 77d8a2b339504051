-- ===== src/Selector/Tests.antt =====
-- A table of selector.c with one descriptor.
use tpe_protos.Base.{
  none-ne, ℕ, Bool, [], ◌∷◌, ◌==◌, some-inj, inl, inr, ◌+◌, ◌≡◌, ◌<◌, refl, sym, ◌∙◌, true, false,
  none, some, pos, ok, length, replicate, arith,
}
use mathlib.Core.Path.{subst}
use tpe_protos.Selector.{
  Status, Interests, Handler, Item, Selector, register, set_interest, set_interest_key,
  unregister_fd, call_close, selector_new,
}
use tpe_protos.Selector.Valid.{place, IsValid, put, place-put, ==-cases}
use tpe_protos.Selector.Operations.{
  IsFull, item_of, Registers, Changes, placed-IsValid, register-Registers, set_interest-Changes,
}
use tpe_protos.Selector.Highest.{Releases, unregister_fd-Releases}
use tpe_protos.Selector.Select.{
  Callbacks, ready, handle_iteration, selector_select, selector_destroy,
}
use tpe_protos.Selector.Order.{Event, events, happen, handle_iteration-events}
use tpe_protos.Selector.Turn.{selector_select-Returns}
use tpe_protos.Selector.Dispatch.{status_of, jobs_left}
use tpe_protos.Selector.Destroy.{close_all, selector_destroy-close_all}
use tpe_protos.Selector.Capacity.{place-replicate, selector_new-IsValid}

abbrev table : Selector ℕ
table = record {
  fds = replicate 1025 none;
  max_fd = 0;
  master_r = λ _. false;
  master_w = λ _. false;
}

table-IsValid : IsValid table
table-IsValid = record {
  own_place = λ i item e. absurd (none-ne (sym (place-replicate 1025 i) ∙ e));
  below_max = λ i item e. absurd (none-ne (sym (place-replicate 1025 i) ∙ e));
  in_table = omega arith;
  reading = λ i. rw (place-replicate {A = Item ℕ} 1025 i) refl;
  writing = λ i. rw (place-replicate {A = Item ℕ} 1025 i) refl;
}

-- A callback that counts its calls.
abbrev counting : Handler ℕ
counting = record { handle_close = some (λ _ calls. ok (calls + 1)) }

abbrev reading : Interests
reading = record { op_read = true; op_write = false }

abbrev writing : Interests
writing = record { op_read = false; op_write = true }

abbrev five : Selector ℕ
five = put table 5 (some (item_of 5 counting reading)) 5

five-IsValid : IsValid five
five-IsValid = placed-IsValid table 5 (item_of 5 counting reading) table-IsValid (omega arith) refl

register-Registers_example :
    (r : Status × Selector ℕ) × (register true table (pos 5) (some counting) reading ≡ ok r)
    × IsFull r.1
    × IsValid r.1
    × Registers table 5 (item_of 5 counting reading) r
register-Registers_example =
    register-Registers true table 5 counting reading refl table-IsValid (omega arith)

set_interest-Changes_example :
    (r : Status × Selector ℕ) × (set_interest five (pos 5) writing ≡ ok r)
    × (set_interest_key five (some (pos 5)) writing ≡ ok r)
    × IsFull r.1
    × IsValid r.1
    × Changes five 5 writing r
set_interest-Changes_example = set_interest-Changes five 5 writing refl five-IsValid (omega arith)

unregister_fd-Releases_example : Releases five 5 0 (unregister_fd five (pos 5) 0)
unregister_fd-Releases_example = unregister_fd-Releases five 5 0 refl five-IsValid (omega arith)

selector_new-IsValid_example :
    (s : Selector ℕ) × (selector_new true true 1024 ≡ ok (some s))
    × IsValid s
    × (1024 < length s.fds)
selector_new-IsValid_example = selector_new-IsValid 1024 (omega arith)

-- Callbacks that count their calls.
abbrev count_all : Handler ℕ → Callbacks ℕ
count_all _ = record {
  handle_read = some (λ _ s calls. ok (s, calls + 1));
  handle_write = some (λ _ s calls. ok (s, calls + 1));
  handle_block = some (λ _ s calls. ok (s, calls + 1));
}

abbrev count : Event → ℕ → ℕ
count _ calls = calls + 1

abbrev only_five : ℕ → Bool
only_five fd = fd == 5

handle_iteration-events_example :
    handle_iteration count_all only_five only_five five 0
    ≡ ok (five, happen count (events five only_five only_five (five.max_fd + 1) 0) 0)
handle_iteration-events_example =
    handle_iteration-events count_all five refl five-IsValid count (λ _ _ _ _ _. refl)
      (λ _ _ _ _ _. refl) only_five only_five 0

abbrev Sane : Selector ℕ → ℕ → Type 0
Sane s calls = IsFull s × IsValid s

selector_select-Returns_example :
    (s' : Selector ℕ) × (calls : ℕ) × (selector_select count_all
        (ready only_five only_five)
        (pos 5 ∷ [])
        five
        0
      ≡ ok (
        status_of (ready only_five only_five),
        jobs_left (ready only_five only_five) (pos 5 ∷ []),
        s',
        calls,
      ))
    × Sane s' calls
selector_select-Returns_example =
    selector_select-Returns count_all Sane (λ _ _ h. h.0) (λ _ _ h. h.1) (ready only_five only_five)
      (pos 5 ∷ []) five 0 (λ s calls _ _ h _ _ _. ((s, calls + 1), refl, h))
      (λ s calls _ _ h _ _ _. ((s, calls + 1), refl, h)) (refl, five-IsValid) (omega arith, tt)
      ((λ s calls _ h _. ((s, calls + 1), refl, h)), tt)

abbrev close_counted : ℕ → ℕ → ℕ
close_counted _ calls = calls + 1

only_counting :
    (fd : ℕ) (item : Item ℕ) (calls : ℕ)
    → place five.fds fd ≡ some item
    → call_close item.handler.handle_close fd calls ≡ ok (calls + 1)
only_counting fd item calls e =
    let found =
      sym (place-put table 5 (some (item_of 5 counting reading)) 5 fd (omega arith)) ∙ e in
    elim (==-cases fd 5) [
      | inl (same, t) ↦
          subst (λ x. call_close x.handler.handle_close fd calls ≡ ok (calls + 1))
            (some-inj (rw t at found)) refl
      | inr (other, t) ↦ absurd (none-ne (sym (place-replicate 1025 fd) ∙ (rw t at found)))
    ]

selector_destroy-close_all_example :
    selector_destroy five 0 ≡ ok (close_all close_counted (place five.fds) (length five.fds) 0 0)
selector_destroy-close_all_example =
    selector_destroy-close_all close_counted five only_counting refl 0 refl five-IsValid
