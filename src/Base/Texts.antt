-- ===== src/Base/Texts.antt =====
-- Texts as lists of code points.
use Prim.Native.Nat.{ℕ}
use Prim.Native.Char.{code}
use Prim.Native.String.{String}
use mathlib.Core.Path.{◌≡◌, refl}
use mathlib.Core.Logic.{◌↔◌}
use mathlib.Core.Bool.{Bool, true, false}
use mathlib.Core.List.{List, [], ◌∷◌}
use native.Mathlib.Omega.{arith}
use add_members.Base.Tests.{nat_beq, if◌then◌else◌}
use add_members.Base.Lists.{length}
use add_members.Base.Keys.{Key}

abbrev pub Text : Type 0
Text = List ℕ

-- The code points of a literal.
abbrev pub codes : String → Text
codes String.[] = []
codes (String.◌∷◌ c s) = code c ∷ codes s

abbrev pub text_beq : Text → Text → Bool
text_beq [] [] = true
text_beq [] (y ∷ ys) = false
text_beq (x ∷ xs) [] = false
text_beq (x ∷ xs) (y ∷ ys) = let rest = text_beq xs ys in if nat_beq x y then rest else false

pub text_beq_iff : (s t : Text) → (text_beq s t ≡ true) ↔ (s ≡ t)
text_beq_iff [] [] = ground arith
text_beq_iff [] (y ∷ ys) = ground arith
text_beq_iff (x ∷ xs) [] = ground arith
text_beq_iff (x ∷ xs) (y ∷ ys) = ground (arith, text_beq_iff xs ys)

instance abbrev pub text_eq : Key Text
text_eq = record { same = text_beq; same_iff = text_beq_iff }

-- `data.startswith(pre)`
abbrev pub starts_with : Text → Text → Bool
starts_with s [] = true
starts_with [] (p ∷ ps) = false
starts_with (c ∷ s) (p ∷ ps) = let rest = starts_with s ps in if nat_beq c p then rest else false

pub starts_with-nil : (s : Text) → starts_with s [] ≡ true
starts_with-nil [] = refl
starts_with-nil (c ∷ s) = refl

-- Two prefixes of one text that are equally long are equal.
pub starts_with_unique :
    (s p q : Text) → starts_with s p ≡ true → starts_with s q ≡ true → length p ≡ length q → p ≡ q
starts_with_unique s [] [] h k e = refl
starts_with_unique s [] (y ∷ q) h k e = absurd (omega arith)
starts_with_unique s (x ∷ p) [] h k e = absurd (omega arith)
starts_with_unique [] (x ∷ p) (y ∷ q) h k e = ground arith
starts_with_unique (c ∷ s) (x ∷ p) (y ∷ q) h k e = ground (arith, starts_with_unique s p q)
