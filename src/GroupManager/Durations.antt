-- ===== src/GroupManager/Durations.antt =====
-- group_manager.py: durations in commands, `parse_duration` and `fmt_duration`.
pub mod Parts
pub mod Printed
mod Examples
use add_members.Base.{
  ℕ, ◌+◌, ◌*◌, ◌/◌, ◌%◌, Bool, true, false, not, ◌&&◌, ◌||◌, Option, none, some, List, [], ◌∷◌,
  ◌++◌, map, Text, codes, ℤ, pos, negsuc, nat_beq, ltb, lower, is_space, starts_with, show,
  if◌then◌else◌,
}

-- The value of a character of the class `\d`, and `int` of a text.
pub record Library : Type 0 where
  pub digit : ℕ → Option ℕ
  pub int_of : Text → Option ℤ

-- Where the search of `_DUR_RE` stands: the number read last, with only white space after it.
pub data Mode : Type 0 where
  idle : Mode
  digits spaces : ℕ → Mode

-- The unit that begins with a character, in seconds, by `_DUR_MAP`. The Persian letters and the
-- word for day are written by their code points.
unfoldable pub unit_of : ℕ → Text → Option ℕ
unit_of c s =
    if nat_beq c 115 || nat_beq c 1579
    then some 1
    else if nat_beq c 109 || nat_beq c 1583
    then some 60
    else if nat_beq c 104 || nat_beq c 1587
    then some 3600
    else if nat_beq c 100 || (nat_beq c 1585 && starts_with s (1608 ∷ 1586 ∷ []))
    then some 86400
    else if nat_beq c 119 || nat_beq c 1607
    then some 604800
    else none

-- `total += n; found = True`
abbrev pub plus : Option ℕ → ℕ → Option ℕ
plus none n = some n
plus (some total) n = some (total + n)

abbrev pub value_of : Mode → ℕ
value_of idle = 0
value_of (digits v) = v
value_of (spaces v) = 0

-- A character that is no digit, after a number.
unfoldable pub after_number : Option ℕ → ℕ → ℕ → Text → Option ℕ × Mode
unfolding is_space unit_of
after_number total v c s =
    if is_space c
    then (total, spaces v)
    else elim (unit_of c s) [ none ↦ (total, idle) | some unit ↦ (plus total (v * unit), idle) ]

unfoldable pub letter : Option ℕ → Mode → ℕ → Text → Option ℕ × Mode
unfolding after_number
letter total idle c s = (total, idle)
letter total (digits v) c s = after_number total v c s
letter total (spaces v) c s = after_number total v c s

unfoldable pub advance : Library → Option ℕ → Mode → ℕ → Text → Option ℕ × Mode
unfolding letter
advance lib total mode c s = elim (lib.digit c) [
  | some d ↦ (total, digits (value_of mode * 10 + d))
  | none ↦ letter total mode c s
]

-- The sum over `_DUR_RE.findall`; none if there is no match.
unfoldable pub scan : Library → Option ℕ → Mode → Text → Option ℕ
unfolding advance
scan lib total mode [] = total
scan lib total mode (c ∷ s) =
    let (total', mode') = advance lib total mode c s in scan lib total' mode' s

abbrev pub if_positive : ℤ → Option ℕ
if_positive (pos n) = if ltb 0 n then some n else none
if_positive (negsuc n) = none

-- `parse_duration`
unfoldable pub parse_duration : Library → Text → Option ℕ
unfolding scan lower
parse_duration lib [] = none
parse_duration lib (c ∷ s) = elim (scan lib none idle (lower (c ∷ s))) [
  | some total ↦ if_positive (pos total)
  | none ↦ elim (lib.int_of (c ∷ s)) [ none ↦ none | some z ↦ if_positive z ]
]

abbrev pub day_word : Text
day_word = 1585 ∷ 1608 ∷ 1586 ∷ []

abbrev pub hour_word : Text
hour_word = 1587 ∷ 1575 ∷ 1593 ∷ 1578 ∷ []

abbrev pub minute_word : Text
minute_word = 1583 ∷ 1602 ∷ 1740 ∷ 1602 ∷ 1607 ∷ []

abbrev pub second_word : Text
second_word = 1579 ∷ 1575 ∷ 1606 ∷ 1740 ∷ 1607 ∷ []

abbrev pub always : Text
always = 1607 ∷ 1605 ∷ 1740 ∷ 1588 ∷ 1607 ∷ []

-- A part of the text, if its number is not 0.
abbrev pub part : ℕ → Text → List (ℕ × Text) → List (ℕ × Text)
part n word parts = if ltb 0 n then (n, word) ∷ parts else parts

unfoldable pub parts_of : ℕ → List (ℕ × Text)
parts_of sec =
    let d = sec / 86400 in
    let r = sec % 86400 in
    part d day_word (
      part (r / 3600) hour_word (
        part (r % 3600 / 60) minute_word
          (if ltb 0 d then [] else part (r % 3600 % 60) second_word [])))

abbrev pub spaced : List (ℕ × Text) → Text → Text
spaced [] rest = []
spaced (p ∷ parts) rest = 32 ∷ rest

-- `" ".join(parts)`
unfoldable pub joined : List (ℕ × Text) → Text
unfolding show
joined [] = []
joined ((n, word) ∷ parts) = show n ++ (word ++ spaced parts (joined parts))

-- `fmt_duration`
unfoldable pub fmt_duration : ℕ → Text
unfolding parts_of joined
fmt_duration sec = elim (parts_of sec) [ [] ↦ always | p ∷ ps ↦ joined (p ∷ ps) ]
