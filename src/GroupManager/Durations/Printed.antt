-- ===== src/GroupManager/Durations/Printed.antt =====
-- group_manager.py: a printed duration is read back.
use add_members.Base.{
  ℕ, ◌+◌, ◌*◌, ◌/◌, ◌%◌, ◌-◌, ◌≡◌, ◌<◌, ◌⊎◌, refl, sym, subst, ap, ◌∙◌, true, false, Option, none,
  some, List, [], ◌∷◌, ◌++◌, Text, nat_beq, ltb, lower, is_space, all, all-All, contains, nat_eq,
  lower_char, All-append, show, show-digits, value_from, value-show, is_ascii_digit, All, All-map,
  Bool-cases, inl, inr, arith,
}
use add_members.GroupManager.Durations.{
  Library, Mode, idle, digits, unit_of, plus, value_of, after_number, letter, advance, scan,
  parse_duration, day_word, hour_word, minute_word, second_word, always, part, parts_of, spaced,
  joined, fmt_duration,
}
use add_members.GroupManager.Durations.Parts.{
  show-cons, weight, plus_all, sum, plus_all-none, seconds_left, sum-parts_of, IsLow, lower-IsLow,
  show-IsLow,
}

-- The letters that `fmt_duration` writes, and the space.
abbrev pub letters : Text
letters =
    32 ∷ 1585 ∷ 1608 ∷ 1586 ∷ 1587 ∷ 1575 ∷ 1593 ∷ 1578 ∷ 1583 ∷ 1602 ∷ 1740 ∷ 1607 ∷ 1579 ∷ 1606
    ∷ []

-- What is relied on of `\d` and `int`: the ASCII digits have their values, and these letters and
-- the space are no digits.
pub record IsDigitTest (lib : Library) : Type 0 where
  pub ascii : (c : ℕ) → is_ascii_digit c ≡ true → lib.digit c ≡ some (c - 48)
  pub no_letter : All (λ c. lib.digit c ≡ none) letters

module _ (lib : Library) (test : IsDigitTest lib) where
  scan_cons :
      (total total' : Option ℕ) (mode mode' : Mode) (c : ℕ) (s : Text)
      → advance lib total mode c s ≡ (total', mode')
      → scan lib total mode (c ∷ s) ≡ scan lib total' mode' s
  unfolding scan
  scan_cons total total' mode mode' c s e = ap (λ ((n, m) : Option ℕ × Mode). scan lib n m s) e

  advance-digit :
      (total : Option ℕ) (mode : Mode) (c : ℕ) (s : Text)
      → is_ascii_digit c ≡ true
      → advance lib total mode c s ≡ (total, digits (value_of mode * 10 + (c - 48)))
  unfolding advance
  advance-digit total mode c s h = rw (advance, test.ascii c h) refl

  scan_digits :
      (total : Option ℕ) (v : ℕ) (ds t : Text)
      → All (λ c. is_ascii_digit c ≡ true) ds
      → scan lib total (digits v) (ds ++ t) ≡ scan lib total (digits (value_from v ds)) t
  unfolding value_from
  scan_digits total v [] t h = refl
  scan_digits total v (c ∷ ds) t h =
      scan_cons total total (digits v) (digits (v * 10 + (c - 48))) c (ds ++ t)
        (advance-digit total (digits v) c (ds ++ t) h.0)
      ∙ scan_digits total (v * 10 + (c - 48)) ds t h.1

  scan_first :
      (total : Option ℕ) (c : ℕ) (ds t : Text)
      → All (λ d. is_ascii_digit d ≡ true) (c ∷ ds)
      → scan lib total idle (c ∷ ds ++ t) ≡ scan lib total (digits (value_from 0 (c ∷ ds))) t
  unfolding value_from
  scan_first total c ds t h =
      scan_cons total total idle (digits (0 * 10 + (c - 48))) c (ds ++ t)
        (advance-digit total idle c (ds ++ t) h.0)
      ∙ scan_digits total (0 * 10 + (c - 48)) ds t h.1

  -- A character that is no digit, after no number.
  scan_idle :
      (total : Option ℕ) (w t : Text)
      → All (λ c. lib.digit c ≡ none) w
      → scan lib total idle (w ++ t) ≡ scan lib total idle t
  unfolding advance letter
  scan_idle total [] t h = refl
  scan_idle total (c ∷ w) t h =
      scan_cons total total idle idle c (w ++ t) (rw (advance, h.0) refl) ∙ scan_idle total w t h.1

  -- A unit after a number.
  scan_unit :
      (total : Option ℕ) (v c unit : ℕ) (t : Text)
      → lib.digit c ≡ none
      → is_space c ≡ false
      → unit_of c t ≡ some unit
      → scan lib total (digits v) (c ∷ t) ≡ scan lib (plus total (v * unit)) idle t
  unfolding advance letter after_number
  scan_unit total v c unit t h k e =
      scan_cons total (plus total (v * unit)) (digits v) idle c t
        (rw (advance, h, letter, after_number, k, e) refl)

  -- A number and a word that begins with a unit.
  scan_part :
      (total : Option ℕ) (n c unit : ℕ) (w t : Text)
      → All (λ d. lib.digit d ≡ none) (c ∷ w)
      → is_space c ≡ false
      → unit_of c (w ++ t) ≡ some unit
      → scan lib total idle (show n ++ (c ∷ w ++ t)) ≡ scan lib (plus total (n * unit)) idle t
  scan_part total n c unit w t h k e =
      let (d, ds, same) = show-cons n in
      let first : scan lib total idle (show n ++ (c ∷ w ++ t))
          ≡ scan lib total (digits n) (c ∷ w ++ t) =
        let digs : All (λ x. is_ascii_digit x ≡ true) (d ∷ ds) =
          subst (λ s. All (λ x. is_ascii_digit x ≡ true) s) same (show-digits n) in
        let val : value_from 0 (d ∷ ds) ≡ n = subst (λ s. value_from 0 s ≡ n) same (value-show n) in
        rw same (
          scan_first total d ds (c ∷ w ++ t) digs
          ∙ ap (λ v. scan lib total (digits v) (c ∷ w ++ t)) val) in
      first ∙ scan_unit total n c unit (w ++ t) h.0 k e ∙ scan_idle (plus total (n * unit)) w t h.1

  abbrev IsUnit : Text → Type 0
  IsUnit [] = ⊥
  IsUnit (c ∷ w) =
      All (λ d. lib.digit d ≡ none) (c ∷ w)
      × (is_space c ≡ false)
      × ((t : Text) → unit_of c (w ++ t) ≡ some (weight (c ∷ w)))
      × All (λ d. lower_char d ≡ d) (c ∷ w)

  scan-joined :
      (total : Option ℕ) (parts : List (ℕ × Text))
      → All (λ (n, word). IsUnit word) parts
      → scan lib total idle (joined parts) ≡ plus_all total parts
  unfolding joined plus_all scan
  scan-joined total [] h = refl
  scan-joined total ((n, []) ∷ parts) h = absurd (h.0)
  scan-joined total ((n, c ∷ w) ∷ []) h =
      scan_part total n c (weight (c ∷ w)) w [] h.0.0 h.0.1 (h.0.2 [])
  scan-joined total ((n, c ∷ w) ∷ p ∷ parts) h =
      scan_part total n c (weight (c ∷ w)) w (32 ∷ joined (p ∷ parts)) h.0.0 h.0.1
        (h.0.2 (32 ∷ joined (p ∷ parts)))
      ∙ scan_idle (plus total (n * weight (c ∷ w))) (32 ∷ []) (joined (p ∷ parts))
          (test.no_letter.0, tt)
      ∙ scan-joined (plus total (n * weight (c ∷ w))) (p ∷ parts) h.1

  no_digit : (w : Text) → all (λ c. contains c letters) w ≡ true → All (λ c. lib.digit c ≡ none) w
  no_digit w h =
      All-map w (λ c e. found letters c test.no_letter e) (all-All (λ c. contains c letters) w h)
    where
      found :
          (ls : Text) (c : ℕ)
          → All (λ d. lib.digit d ≡ none) ls
          → contains c ls ≡ true
          → lib.digit c ≡ none
      found [] c h e = absurd (ground (arith, e))
      found (l ∷ ls) c h e = elim (Bool-cases (nat_beq l c)) [
        | inl f ↦ subst (λ x. lib.digit x ≡ none) (ground (arith, f)) h.0
        | inr f ↦ found ls c h.1 (ground (arith, e, f))
      ]

  words-IsUnit : IsUnit day_word × IsUnit hour_word × IsUnit minute_word × IsUnit second_word
  unfolding weight unit_of is_space lower_char
  words-IsUnit = (
    (no_digit day_word refl, refl, λ t. refl, (refl, (refl, (refl, tt)))),
    (no_digit hour_word refl, refl, λ t. refl, (refl, (refl, (refl, (refl, tt))))),
    (no_digit minute_word refl, refl, λ t. refl, (refl, (refl, (refl, (refl, (refl, tt)))))),
    (no_digit second_word refl, refl, λ t. refl, (refl, (refl, (refl, (refl, (refl, tt)))))),
  )

  abbrev AllUnits : List (ℕ × Text) → Type 0
  AllUnits parts = All (λ (n, word). IsUnit word) parts

  part-AllUnits :
      (n : ℕ) (word : Text) (parts : List (ℕ × Text))
      → IsUnit word
      → AllUnits parts
      → AllUnits (part n word parts)
  part-AllUnits n word parts u h = elim (Bool-cases (ltb 0 n)) [
    | inl e ↦ rw e (u, h)
    | inr e ↦ rw e h
  ]

  parts_of-AllUnits : (sec : ℕ) → AllUnits (parts_of sec)
  unfolding parts_of seconds_left
  parts_of-AllUnits sec =
      let (day, hour, minute, second) = words-IsUnit in
      let rest : AllUnits (seconds_left sec) = elim (Bool-cases (ltb 0 (sec / 86400))) [
        | inl e ↦ rw e tt
        | inr e ↦ rw e (part-AllUnits (sec % 86400 % 3600 % 60) second_word [] second tt)
      ] in
      part-AllUnits (sec / 86400) day_word _ day (
        part-AllUnits (sec % 86400 / 3600) hour_word _ hour
          (part-AllUnits (sec % 86400 % 3600 / 60) minute_word (seconds_left sec) minute rest))

  joined-IsLow : (parts : List (ℕ × Text)) → AllUnits parts → IsLow (joined parts)
  unfolding joined lower_char
  joined-IsLow [] h = tt
  joined-IsLow ((n, []) ∷ parts) h = absurd h.0
  joined-IsLow ((n, c ∷ w) ∷ parts) h =
      All-append (λ d. lower_char d ≡ d) (show n) (c ∷ w ++ spaced parts (joined parts))
        (show-IsLow n)
        (All-append (λ d. lower_char d ≡ d) (c ∷ w) (spaced parts (joined parts)) h.0.3
          (later parts (joined-IsLow parts h.1)))
    where
      later : (ps : List (ℕ × Text)) → IsLow (joined parts) → IsLow (spaced ps (joined parts))
      later [] k = tt
      later (p ∷ ps) k = (refl, k)

  -- A text that is not empty, and whose numbers with units have a sum above 0.
  parse_duration-scan :
      (c : ℕ) (s : Text) (total : ℕ)
      → scan lib none idle (lower (c ∷ s)) ≡ some total
      → 0 < total
      → parse_duration lib (c ∷ s) ≡ some total
  unfolding parse_duration
  parse_duration-scan c s total e h = rw (parse_duration, e) (ground (arith, h))

  parse_duration-joined :
      (p : ℕ × Text) (parts : List (ℕ × Text))
      → AllUnits (p ∷ parts)
      → 0 < sum (p ∷ parts)
      → parse_duration lib (joined (p ∷ parts)) ≡ some (sum (p ∷ parts))
  unfolding joined
  parse_duration-joined (n, word) parts h k =
      let text = joined ((n, word) ∷ parts) in
      let read : scan lib none idle (lower text) ≡ some (sum ((n, word) ∷ parts)) =
        rw (lower-IsLow text (joined-IsLow ((n, word) ∷ parts) h))
          (scan-joined none ((n, word) ∷ parts) h ∙ plus_all-none (n, word) parts) in
      let (c, ds, same) = show-cons n in
      let full : text ≡ c ∷ ds ++ (word ++ spaced parts (joined parts)) =
        ap (λ s. s ++ (word ++ spaced parts (joined parts))) same in
      subst (λ s. parse_duration lib s ≡ some (sum ((n, word) ∷ parts))) (sym full)
        (parse_duration-scan c (ds ++ (word ++ spaced parts (joined parts)))
          (sum ((n, word) ∷ parts))
          (subst (λ s. scan lib none idle (lower s) ≡ some (sum ((n, word) ∷ parts))) full read) k)

  -- A printed duration is read back. For every number of seconds above 0 that is below a day or has
  -- whole minutes (a text of a day or more leaves the seconds out), the text of `fmt_duration` is
  -- read by `parse_duration` as that number.
  pub parse_duration-fmt_duration :
      (sec : ℕ)
      → 0 < sec
      → (sec < 86400) ⊎ (sec % 60 ≡ 0)
      → parse_duration lib (fmt_duration sec) ≡ some sec
  unfolding fmt_duration sum
  parse_duration-fmt_duration sec h k =
      from_parts (parts_of sec) (parts_of-AllUnits sec) (sum-parts_of sec k)
    where
      from_parts :
          (parts : List (ℕ × Text))
          → AllUnits parts
          → sum parts ≡ sec
          → parse_duration lib
              (elim parts as (λ _. Text) [ [] ↦ always | p ∷ ps ↦ joined (p ∷ ps) ])
            ≡ some sec
      from_parts [] u e = absurd (omega (arith, e, h))
      from_parts (p ∷ ps) u e = parse_duration-joined p ps u (rw e h) ∙ ap some e
