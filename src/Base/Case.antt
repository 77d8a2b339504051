-- ===== src/Base/Case.antt =====
-- C strings compared in any case, as in the locale "C". A string is the list of its bytes, with no
-- zero; its end is read as a zero.
use Prim.Native.Nat.{ℕ, zero, suc, ◌+◌, ◌-◌}
use mathlib.Core.Bool.{Bool, true, false, ◌&&◌}
use mathlib.Core.List.{List, [], ◌∷◌}
use tpe_protos.Base.Tests.{◌==◌, leb, if◌then◌else◌}

abbrev pub to_lower : ℕ → ℕ
to_lower c = if leb b'A' c && leb c b'Z' then c + 32 else c

abbrev pub to_upper : ℕ → ℕ
to_upper c = if leb b'a' c && leb c b'z' then c - 32 else c

abbrev pub same_letter : ℕ → ℕ → Bool
same_letter c d = to_lower c == to_lower d

-- `strcasecmp(a, b) == 0`
abbrev pub same_nocase : List ℕ → List ℕ → Bool
same_nocase [] [] = true
same_nocase (x ∷ a) (y ∷ b) = same_letter x y && same_nocase a b
same_nocase _ _ = false

-- `strncasecmp(a, b, n) == 0`
abbrev pub same_nocase_n : List ℕ → List ℕ → ℕ → Bool
same_nocase_n a b zero = true
same_nocase_n [] [] (suc n) = true
same_nocase_n (x ∷ a) (y ∷ b) (suc n) = same_letter x y && same_nocase_n a b n
same_nocase_n _ _ (suc n) = false
