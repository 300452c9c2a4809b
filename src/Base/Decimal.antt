-- ===== src/Base/Decimal.antt =====
-- Decimal digits: `str(n)` and `int(s)` for natural numbers in ASCII digits.
use Prim.Native.Nat.{ℕ, zero, suc, ◌+◌, ◌*◌, ◌/◌, ◌%◌, ◌-◌, ◌<◌}
use mathlib.Core.Path.{◌≡◌, refl}
use mathlib.Core.Bool.{Bool, true, ◌&&◌}
use mathlib.Core.List.{[], ◌∷◌, ◌++◌}
use native.Mathlib.Omega.{arith}
use add_members.Base.Tests.{ltb, leb, if◌then◌else◌, Bool-cases}
use add_members.Base.Texts.{Text}
use add_members.Base.Pred.{All, All-append}
use mathlib.Core.Logic.{inl, inr}

-- The fuel is above the number, which is more than its digits.
unfoldable pub show_fuel : ℕ → ℕ → Text
show_fuel zero n = []
show_fuel (suc fuel) n =
    let rest = show_fuel fuel (n / 10) in
    if ltb n 10 then (48 + n) ∷ [] else rest ++ ((48 + n % 10) ∷ [])

unfoldable pub show : ℕ → Text
unfolding show_fuel
show n = show_fuel (suc n) n

unfoldable pub is_ascii_digit : ℕ → Bool
is_ascii_digit c = leb 48 c && leb c 57

-- The value of digits read after `acc`.
unfoldable pub value_from : ℕ → Text → ℕ
value_from acc [] = acc
value_from acc (c ∷ s) = value_from (acc * 10 + (c - 48)) s

value_from-append :
    (acc : ℕ) (s t : Text) → value_from acc (s ++ t) ≡ value_from (value_from acc s) t
unfolding value_from
value_from-append acc [] t = refl
value_from-append acc (c ∷ s) t = value_from-append (acc * 10 + (c - 48)) s t

value-show_fuel : (fuel n : ℕ) → n < fuel → value_from 0 (show_fuel fuel n) ≡ n
unfolding show_fuel value_from
value-show_fuel zero n h = absurd (omega arith)
value-show_fuel (suc fuel) n h = ground (
  arith,
  value-show_fuel fuel (n / 10),
  value_from-append 0 (show_fuel fuel (n / 10)) ((48 + n % 10) ∷ []),
)

-- A number is read back from its digits.
pub value-show : (n : ℕ) → value_from 0 (show n) ≡ n
unfolding show
value-show n = value-show_fuel (suc n) n (omega arith)

show_fuel-digits : (fuel n : ℕ) → All (λ c. is_ascii_digit c ≡ true) (show_fuel fuel n)
unfolding show_fuel is_ascii_digit
show_fuel-digits zero n = tt
show_fuel-digits (suc fuel) n = elim (Bool-cases (ltb n 10)) [
  | inl e ↦ rw e (ground arith, tt)
  | inr e ↦ rw e (
      All-append (λ c. is_ascii_digit c ≡ true) (show_fuel fuel (n / 10)) ((48 + n % 10) ∷ [])
        (show_fuel-digits fuel (n / 10)) (ground arith, tt))
]

pub show-digits : (n : ℕ) → All (λ c. is_ascii_digit c ≡ true) (show n)
unfolding show
show-digits n = show_fuel-digits (suc n) n
