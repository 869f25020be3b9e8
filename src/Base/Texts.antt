-- ===== src/Base/Texts.antt =====
-- Texts as lists of numbers, and when two are equal.
use Prim.Native.Nat.{ℕ}
use Prim.Native.Char.{code}
use Prim.Native.String.{String}
use mathlib.Core.Path.{◌≡◌, refl}
use mathlib.Core.Bool.{Bool, true, false, ◌&&◌}
use mathlib.Core.List.{List, [], ◌∷◌}
use native.Mathlib.Omega.{arith}
use cocoa_lumberjack.Base.Tests.{◌==◌, ==_refl}

-- The numbers of the characters of a literal.
abbrev pub codes : String → List ℕ
codes String.[] = []
codes (String.◌∷◌ c s) = code c ∷ codes s

-- `isEqualToString:`
abbrev pub bytes_eq : List ℕ → List ℕ → Bool
bytes_eq [] [] = true
bytes_eq [] (d ∷ ds) = false
bytes_eq (c ∷ cs) [] = false
bytes_eq (c ∷ cs) (d ∷ ds) = c == d && bytes_eq cs ds

pub bytes_eq_refl : (s : List ℕ) → bytes_eq s s ≡ true
bytes_eq_refl [] = refl
bytes_eq_refl (c ∷ cs) = ground (arith, ==_refl c, bytes_eq_refl cs)

pub bytes_eq→≡ : (s t : List ℕ) → bytes_eq s t ≡ true → s ≡ t
bytes_eq→≡ [] [] h = refl
bytes_eq→≡ [] (d ∷ ds) h = cc
bytes_eq→≡ (c ∷ cs) [] h = cc
bytes_eq→≡ (c ∷ cs) (d ∷ ds) h = ground (arith, bytes_eq→≡ cs ds)
