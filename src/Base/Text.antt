-- ===== src/Base/Text.antt =====
-- Texts as lists of code points: equality, prefixes, and literals.
use Prim.Native.Nat.{ℕ}
use Prim.Native.Char.{code}
use Prim.Native.String.{String}
use mathlib.Core.Path.{◌≡◌, refl}
use mathlib.Core.Bool.{Bool, true, false}
use mathlib.Core.List.{List, [], ◌∷◌}
use native.Mathlib.Omega.{arith}
use court.Base.Tests.{◌==◌, if◌then◌else◌}

abbrev pub text : String → List ℕ
text String.[] = []
text (String.◌∷◌ c s) = code c ∷ text s

abbrev pub same_text : List ℕ → List ℕ → Bool
same_text [] [] = true
same_text (c ∷ cs) (d ∷ ds) = if c == d then same_text cs ds else false
same_text _ _ = false

-- `text.startswith(prefix)`
abbrev pub starts_with : List ℕ → List ℕ → Bool
starts_with [] text = true
starts_with (c ∷ cs) [] = false
starts_with (c ∷ cs) (d ∷ ds) = if c == d then starts_with cs ds else false

pub same_text_refl : (cs : List ℕ) → same_text cs cs ≡ true
same_text_refl [] = refl
same_text_refl (c ∷ cs) = ground (arith, same_text_refl cs)

pub same_text_eq : (cs ds : List ℕ) → same_text cs ds ≡ true → cs ≡ ds
same_text_eq [] [] e = refl
same_text_eq [] (d ∷ ds) e = absurd (ground arith)
same_text_eq (c ∷ cs) [] e = absurd (ground arith)
same_text_eq (c ∷ cs) (d ∷ ds) e = ground (arith, same_text_eq cs ds)
