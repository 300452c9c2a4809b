-- ===== src/GroupManager/Durations/Examples.antt =====
-- Tests and instances of the theorems.
use add_members.Base.{
  ◌≡◌, ◌-◌, refl, none, some, ◌∷◌, codes, pos, is_ascii_digit, show, value_from, all, if◌then◌else◌,
  inl, arith,
}
use add_members.GroupManager.Durations.{Library, parse_duration, fmt_duration, day_word}
use add_members.GroupManager.Durations.Printed.{IsDigitTest, parse_duration-fmt_duration}

abbrev ascii : Library
ascii = record {
  digit = λ c. if is_ascii_digit c then some (c - 48) else none;
  int_of = λ s. if all is_ascii_digit s then some (pos (value_from 0 s)) else none;
}

ascii-IsDigitTest : IsDigitTest ascii
unfolding is_ascii_digit
ascii-IsDigitTest = record {
  ascii = λ c h. ground (arith, h);
  no_letter = (
    refl,
    (
      refl,
      (
        refl,
        (refl, (refl, (refl, (refl, (refl, (refl, (refl, (refl, (refl, (refl, (refl, tt))))))))))),
      ),
    ),
  );
}

two_units : parse_duration ascii (codes "2h30M") ≡ some 9000
unfolding parse_duration is_ascii_digit
two_units = refl

bare_number : parse_duration ascii (codes "45") ≡ some 45
unfolding parse_duration is_ascii_digit value_from
bare_number = refl

nothing : parse_duration ascii (codes "soon") ≡ none
unfolding parse_duration is_ascii_digit value_from
nothing = refl

-- The seconds of a long duration are not printed.
long : fmt_duration 86405 ≡ 49 ∷ day_word
unfolding fmt_duration show
long = refl

parse_duration-fmt_duration_example : parse_duration ascii (fmt_duration 5415) ≡ some 5415
parse_duration-fmt_duration_example =
    parse_duration-fmt_duration ascii ascii-IsDigitTest 5415 (omega arith) (inl (omega arith))
