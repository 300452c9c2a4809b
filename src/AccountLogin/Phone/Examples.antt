-- ===== src/AccountLogin/Phone/Examples.antt =====
-- Tests and instances of the theorems.
use add_members.Base.{
  ◌≡◌, refl, none, some, [], ◌∷◌, ◌++◌, codes, All, is_ascii_digit, is_space, arith,
}
use add_members.AccountLogin.Phone.{normalize_phone, cleaned, international}
use add_members.AccountLogin.Phone.Forms
use add_members.AccountLogin.Phone.Forms.{IsDigitTest}

ascii_test : IsDigitTest is_ascii_digit
unfolding is_ascii_digit is_space
ascii_test = record {
  ascii = λ c h k. ground arith;
  no_plus = refl;
  no_separator = λ c h. ground arith;
}

spaced :
    normalize_phone is_ascii_digit (some (codes " (0912) 123-4567")) ≡ some (codes "+989121234567")
unfolding normalize_phone is_ascii_digit is_space cleaned international
spaced = refl

too_short : normalize_phone is_ascii_digit (some (codes "12")) ≡ none
unfolding normalize_phone is_ascii_digit is_space cleaned international
too_short = refl

body-All : All (Forms.IsLatinDigit is_ascii_digit ascii_test) (codes "121234567")
unfolding is_ascii_digit
body-All = (
  (refl, refl),
  (
    (refl, refl),
    (
      (refl, refl),
      (
        (refl, refl),
        ((refl, refl), ((refl, refl), ((refl, refl), ((refl, refl), ((refl, refl), tt))))),
      ),
    ),
  ),
)

normalize_phone_forms_example :
    All
      (λ prefix.
        normalize_phone is_ascii_digit (some (prefix ++ codes "121234567"))
        ≡ some (codes "+989" ++ codes "121234567"))
      (codes "+989" ∷ codes "00989" ∷ codes "989" ∷ codes "09" ∷ codes "9" ∷ [])
normalize_phone_forms_example =
    Forms.normalize_phone_forms is_ascii_digit ascii_test (codes "121234567") body-All refl
