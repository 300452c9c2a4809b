-- ===== src/AccountLogin/Phone.antt =====
-- account_login.py, `normalize_phone`: one spelling for a phone number.
-- `is_digit` is the class `\d` of Python's `re`, which knows the digits of every script.
pub mod Forms
mod Examples
use add_members.Base.{
  ℕ, zero, suc, ◌+◌, ◌-◌, ◌≡◌, ◌≤◌, refl, ap, ◌∙◌, Bool, true, false, not, ◌&&◌, ◌||◌, Option, none,
  some, List, [], ◌∷◌, ◌++◌, map, Text, codes, leb, nat_beq, length, drop, starts_with, keep_if,
  strip, is_space, if◌then◌else◌, arith, All, Bool-cases, inl, inr, lstrip, rstrip, starts_with-nil,
}

-- The table of `str.maketrans`: Persian and Arabic digits become ASCII digits.
abbrev pub to_latin : ℕ → ℕ
to_latin c =
    if leb 1776 c && leb c 1785
    then 48 + (c - 1776)
    else if leb 1632 c && leb c 1641
    then 48 + (c - 1632)
    else c

-- `[\s\-()]`
abbrev pub is_separator : ℕ → Bool
is_separator c = is_space c || nat_beq c 45 || nat_beq c 40 || nat_beq c 41

-- `"+" + digits if len(digits) >= 10 else None`
abbrev pub with_plus : Text → Option Text
with_plus digits = if leb 10 (length digits) then some (43 ∷ digits) else none

-- The chain of `if` on a number without `+`.
unfoldable pub international : Text → Text
international digits =
    if starts_with digits (48 ∷ 48 ∷ [])
    then drop 2 digits
    else if starts_with digits (57 ∷ 56 ∷ []) && leb 12 (length digits)
    then digits
    else if starts_with digits (48 ∷ [])
    then 57 ∷ 56 ∷ drop 1 digits
    else if nat_beq (length digits) 10 && starts_with digits (57 ∷ [])
    then 57 ∷ 56 ∷ digits
    else digits

abbrev pub local : Text → Option Text
local [] = none
local (c ∷ digits) = with_plus (international (c ∷ digits))

-- The digits made Latin, and the separators removed.
unfoldable pub cleaned : Text → Text
cleaned s = keep_if (λ c. not (is_separator c)) (map to_latin s)

module _ (is_digit : ℕ → Bool) where
  unfoldable pub normalize_cleaned : Text → Option Text
  unfolding international
  normalize_cleaned s =
      if starts_with s (43 ∷ []) then with_plus (keep_if is_digit s) else local (keep_if is_digit s)

  -- After `strip`.
  unfoldable pub normalize_stripped : Text → Option Text
  unfolding normalize_cleaned cleaned
  normalize_stripped [] = none
  normalize_stripped (c ∷ s) = normalize_cleaned (cleaned (c ∷ s))

  -- `normalize_phone`: None is read as the empty text.
  unfoldable pub normalize_phone : Option Text → Option Text
  unfolding normalize_stripped strip
  normalize_phone none = none
  normalize_phone (some raw) = normalize_stripped (strip raw)
