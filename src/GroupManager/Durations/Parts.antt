-- ===== src/GroupManager/Durations/Parts.antt =====
-- group_manager.py, `fmt_duration`: the parts of a printed duration and their sum.
use add_members.Base.{
  ℕ, ◌+◌, ◌*◌, ◌/◌, ◌%◌, ◌≡◌, ◌<◌, ◌⊎◌, refl, ap, ◌∙◌, Option, none, some, List, [], ◌∷◌, ◌++◌,
  Text, ltb, lower, nat_eq, lower_char, show, show_fuel, show-digits, is_ascii_digit, All, All-map,
  if◌then◌else◌, Bool-cases, inl, inr, arith,
}
use add_members.GroupManager.Durations.{
  unit_of, plus, day_word, hour_word, minute_word, second_word, part, parts_of,
}

append-cons : (s : Text) (c : ℕ) → (d : ℕ) × (ds : Text) × (s ++ (c ∷ []) ≡ d ∷ ds)
append-cons [] c = (c, [], refl)
append-cons (d ∷ s) c = (d, s ++ (c ∷ []), refl)

pub show-cons : (n : ℕ) → (c : ℕ) × (ds : Text) × (show n ≡ c ∷ ds)
unfolding show show_fuel
show-cons n = elim (Bool-cases (ltb n 10)) [
  | inl e ↦ rw e (48 + n, [], refl)
  | inr e ↦ rw e (append-cons (show_fuel n (n / 10)) (48 + n % 10))
]

-- The unit of a word.
unfoldable pub weight : Text → ℕ
weight [] = 0
weight (c ∷ w) = elim (unit_of c w) [ none ↦ 0 | some unit ↦ unit ]

unfoldable pub plus_all : Option ℕ → List (ℕ × Text) → Option ℕ
plus_all total [] = total
plus_all total ((n, word) ∷ parts) = plus_all (plus total (n * weight word)) parts

unfoldable pub sum : List (ℕ × Text) → ℕ
sum [] = 0
sum ((n, word) ∷ parts) = n * weight word + sum parts

plus_all-some : (a : ℕ) (parts : List (ℕ × Text)) → plus_all (some a) parts ≡ some (a + sum parts)
unfolding plus_all sum
plus_all-some a [] = ground arith
plus_all-some a ((n, word) ∷ parts) =
    plus_all-some (a + n * weight word) parts ∙ ap some (ground arith)

pub plus_all-none :
    (p : ℕ × Text) (parts : List (ℕ × Text)) → plus_all none (p ∷ parts) ≡ some (sum (p ∷ parts))
unfolding plus_all sum
plus_all-none (n, word) parts = plus_all-some (n * weight word) parts

sum-part :
    (n : ℕ) (word : Text) (parts : List (ℕ × Text))
    → sum (part n word parts) ≡ n * weight word + sum parts
unfolding sum
sum-part n word parts = elim (Bool-cases (ltb 0 n)) [
  | inl e ↦ rw e refl
  | inr e ↦ let zero_n : n ≡ 0 = ground (arith, e) in rw (e, zero_n) (ground arith)
]

weights :
    (weight day_word ≡ 86400)
    × (weight hour_word ≡ 3600)
    × (weight minute_word ≡ 60)
    × (weight second_word ≡ 1)
unfolding weight unit_of
weights = (refl, refl, refl, refl)

sum-parts :
    (d h m : ℕ) (rest : List (ℕ × Text))
    → sum (part d day_word (part h hour_word (part m minute_word rest)))
      ≡ d * 86400 + (h * 3600 + (m * 60 + sum rest))
sum-parts d h m rest =
    rw
      (
        sum-part d day_word (part h hour_word (part m minute_word rest)),
        sum-part h hour_word (part m minute_word rest),
        sum-part m minute_word rest,
        weights.0,
        weights.1,
        weights.2,
      )
      refl

unfoldable pub seconds_left : ℕ → List (ℕ × Text)
seconds_left sec = if ltb 0 (sec / 86400) then [] else part (sec % 86400 % 3600 % 60) second_word []

sum-seconds_left :
    (sec : ℕ) → (sec < 86400) ⊎ (sec % 60 ≡ 0) → sum (seconds_left sec) ≡ sec % 86400 % 3600 % 60
unfolding seconds_left sum
sum-seconds_left sec h = elim (Bool-cases (ltb 0 (sec / 86400))) [
  | inl e ↦ rw e (no_seconds h (ground (arith, e)))
  | inr e ↦ rw (e, sum-part (sec % 86400 % 3600 % 60) second_word [], weights.3) (omega arith)
]
  where
    no_seconds : (sec < 86400) ⊎ (sec % 60 ≡ 0) → 0 < sec / 86400 → 0 ≡ sec % 86400 % 3600 % 60
    no_seconds (inl small) k = absurd (omega (arith, small, k))
    no_seconds (inr even) k = omega (arith, even)

pub sum-parts_of : (sec : ℕ) → (sec < 86400) ⊎ (sec % 60 ≡ 0) → sum (parts_of sec) ≡ sec
unfolding parts_of seconds_left
sum-parts_of sec h =
    sum-parts (sec / 86400) (sec % 86400 / 3600) (sec % 86400 % 3600 / 60) (seconds_left sec)
    ∙ omega (arith, sum-seconds_left sec h)

abbrev pub IsLow : Text → Type 0
IsLow s = All (λ c. lower_char c ≡ c) s

pub lower-IsLow : (s : Text) → IsLow s → lower s ≡ s
unfolding lower
lower-IsLow [] h = refl
lower-IsLow (c ∷ s) h = rw (h.0, lower-IsLow s h.1) refl

pub show-IsLow : (n : ℕ) → IsLow (show n)
unfolding lower_char is_ascii_digit
show-IsLow n = All-map (show n) (λ c h. ground (arith, h)) (show-digits n)
