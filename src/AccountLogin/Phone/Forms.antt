-- ===== src/AccountLogin/Phone/Forms.antt =====
-- What `normalize_phone` returns, and which spellings it makes equal.
use add_members.Base.{
  ℕ, ◌≡◌, ◌≤◌, refl, ap, ◌∙◌, Bool, true, false, not, ◌&&◌, Option, none, some, [], ◌∷◌, ◌++◌, map,
  Text, codes, leb, nat_beq, length, starts_with, keep_if, strip, is_space, arith, All, All-map,
  keep_if-All, keep_if_same, keep_if-All_of, drop-All, All-both, Bool-cases, inl, inr, strip_same,
}
use add_members.AccountLogin.Phone.{
  to_latin, is_separator, with_plus, international, local, normalize_stripped, normalize_phone,
  cleaned, normalize_cleaned,
}

map_same : (f : ℕ → ℕ) (s : Text) → All (λ c. f c ≡ c) s → map f s ≡ s
map_same f [] h = refl
map_same f (c ∷ s) h = rw (h.0, map_same f s h.1) refl

to_latin_twice : (c : ℕ) → to_latin (to_latin c) ≡ to_latin c
to_latin_twice c = ground arith

map-to_latin-All : (s : Text) → All (λ c. to_latin c ≡ c) (map to_latin s)
map-to_latin-All [] = tt
map-to_latin-All (c ∷ s) = (to_latin_twice c, map-to_latin-All s)

-- What is relied on of the class `\d`: it has the ASCII digits, and no white space, no plus and no
-- separator.
pub record IsDigitTest (is_digit : ℕ → Bool) : Type 0 where
  pub ascii : (c : ℕ) → 48 ≤ c → c ≤ 57 → is_digit c ≡ true
  pub no_plus : is_digit 43 ≡ false
  pub no_separator : (c : ℕ) → is_digit c ≡ true → is_separator c ≡ false

module _ (is_digit : ℕ → Bool) (test : IsDigitTest is_digit) where
  -- A digit that the translation leaves as it is.
  abbrev pub IsLatinDigit : ℕ → Type 0
  IsLatinDigit c = (is_digit c ≡ true) × (to_latin c ≡ c)

  not_space : (c : ℕ) → IsLatinDigit c → is_space c ≡ false
  not_space c h = ground (arith, test.no_separator c h.0)

  not_plus : (c : ℕ) → is_digit c ≡ true → nat_beq c 43 ≡ false
  not_plus c h = elim (Bool-cases (nat_beq c 43)) [
    | inl e ↦ absurd (ground (arith, test.no_plus, h, e))
    | inr e ↦ e
  ]

  cleaned_same : (s : Text) → All IsLatinDigit s → cleaned s ≡ s
  unfolding cleaned
  cleaned_same s h =
      ap (keep_if (λ d. not (is_separator d))) (map_same to_latin s (All-map s (λ d g. g.1) h))
      ∙ keep_if_same (λ d. not (is_separator d)) s
          (All-map s (λ d g. ap not (test.no_separator d g.0)) h)

  cleaned_plus : (s : Text) → All IsLatinDigit s → cleaned (43 ∷ s) ≡ 43 ∷ s
  unfolding is_space cleaned
  cleaned_plus s h = ap (λ t. 43 ∷ t) (cleaned_same s h)

  cleaned_digits :
      (c : ℕ) (s : Text)
      → All IsLatinDigit (c ∷ s)
      → normalize_cleaned is_digit (c ∷ s) ≡ local (c ∷ s)
  unfolding normalize_cleaned
  cleaned_digits c s h =
      rw (not_plus c h.0.0, keep_if_same is_digit (c ∷ s) (All-map (c ∷ s) (λ d g. g.0) h)) refl

  digits_plus : (s : Text) → All IsLatinDigit s → normalize_cleaned is_digit (43 ∷ s) ≡ with_plus s
  unfolding normalize_cleaned
  digits_plus s h = rw (test.no_plus, keep_if_same is_digit s (All-map s (λ d g. g.0) h)) refl

  -- A number in digits is normalized by `local`.
  pub normalize_digits :
      (c : ℕ) (s : Text)
      → All IsLatinDigit (c ∷ s)
      → normalize_phone is_digit (some (c ∷ s)) ≡ local (c ∷ s)
  unfolding normalize_phone normalize_stripped
  normalize_digits c s h =
      ap (normalize_stripped is_digit) (strip_same c s (All-map (c ∷ s) (λ d g. not_space d g) h))
      ∙ ap (normalize_cleaned is_digit) (cleaned_same (c ∷ s) h)
      ∙ cleaned_digits c s h

  pub normalize_plus :
      (s : Text) → All IsLatinDigit s → normalize_phone is_digit (some (43 ∷ s)) ≡ with_plus s
  unfolding normalize_phone normalize_stripped is_space
  normalize_plus s h =
      ap (normalize_stripped is_digit) (strip_same 43 s (refl, All-map s (λ d g. not_space d g) h))
      ∙ ap (normalize_cleaned is_digit) (cleaned_plus s h)
      ∙ digits_plus s h

  -- What `normalize_phone` returns: a plus and at least ten digits, in Latin script.
  abbrev pub IsNormal : Text → Type 0
  IsNormal phone =
      (digits : Text) × (phone ≡ 43 ∷ digits) × All IsLatinDigit digits × (10 ≤ length digits)

  latin_two : All IsLatinDigit (57 ∷ 56 ∷ [])
  latin_two = (
    (test.ascii 57 (omega arith) (omega arith), refl),
    ((test.ascii 56 (omega arith) (omega arith), refl), tt),
  )

  international-All :
      (digits : Text) → All IsLatinDigit digits → All IsLatinDigit (international digits)
  unfolding international
  international-All digits h = elim (Bool-cases (starts_with digits (48 ∷ 48 ∷ []))) [
    | inl e ↦ rw e (drop-All IsLatinDigit 2 digits h)
    | inr e ↦
        rw e (elim (Bool-cases (starts_with digits (57 ∷ 56 ∷ []) && leb 12 (length digits))) [
          | inl f ↦ rw f h
          | inr f ↦ rw f (elim (Bool-cases (starts_with digits (48 ∷ []))) [
            | inl g ↦ rw g (latin_two.0, (latin_two.1.0, drop-All IsLatinDigit 1 digits h))
            | inr g ↦
                rw g
                  (elim (Bool-cases (nat_beq (length digits) 10 && starts_with digits (57 ∷ []))) [
                    | inl k ↦ rw k (latin_two.0, (latin_two.1.0, h))
                    | inr k ↦ rw k h
                  ])
          ])
        ])
  ]

  with_plus-IsNormal :
      (digits phone : Text)
      → All IsLatinDigit digits
      → with_plus digits ≡ some phone
      → IsNormal phone
  with_plus-IsNormal digits phone h e = elim (Bool-cases (leb 10 (length digits))) [
    | inl f ↦ (digits, ground (arith, e, f), h, ground arith)
    | inr f ↦ absurd (ground (arith, e, f))
  ]

  local-IsNormal :
      (digits phone : Text) → All IsLatinDigit digits → local digits ≡ some phone → IsNormal phone
  local-IsNormal [] phone h e = absurd cc
  local-IsNormal (c ∷ digits) phone h e =
      with_plus-IsNormal (international (c ∷ digits)) phone (international-All (c ∷ digits) h) e

  normalize_cleaned-IsNormal :
      (s phone : Text)
      → All (λ c. to_latin c ≡ c) s
      → normalize_cleaned is_digit s ≡ some phone
      → IsNormal phone
  unfolding normalize_cleaned
  normalize_cleaned-IsNormal s phone h e =
      let digits : All IsLatinDigit (keep_if is_digit s) =
        All-both (λ c. is_digit c ≡ true) (λ c. to_latin c ≡ c) (keep_if is_digit s)
          (keep_if-All is_digit s) (keep_if-All_of (λ c. to_latin c ≡ c) is_digit s h) in
      elim (Bool-cases (starts_with s (43 ∷ []))) [
        | inl f ↦ with_plus-IsNormal (keep_if is_digit s) phone digits (rw f at e)
        | inr f ↦ local-IsNormal (keep_if is_digit s) phone digits (rw f at e)
      ]

  normalize_stripped-IsNormal :
      (s phone : Text) → normalize_stripped is_digit s ≡ some phone → IsNormal phone
  unfolding normalize_stripped cleaned
  normalize_stripped-IsNormal [] phone e = absurd cc
  normalize_stripped-IsNormal (c ∷ s) phone e =
      normalize_cleaned-IsNormal (cleaned (c ∷ s)) phone
        (keep_if-All_of (λ d. to_latin d ≡ d) (λ d. not (is_separator d)) (map to_latin (c ∷ s))
          (map-to_latin-All (c ∷ s)))
        e

  normalize_phone-IsNormal :
      (raw : Option Text) (phone : Text)
      → normalize_phone is_digit raw ≡ some phone
      → IsNormal phone
  unfolding normalize_phone
  normalize_phone-IsNormal none phone e = absurd cc
  normalize_phone-IsNormal (some raw) phone e = normalize_stripped-IsNormal (strip raw) phone e

  -- A number that is accepted becomes a plus and at least ten digits in Latin script, and to
  -- normalize it again changes nothing.
  pub normalize_phone_twice :
      (raw : Option Text) (phone : Text)
      → normalize_phone is_digit raw ≡ some phone
      → IsNormal phone × (normalize_phone is_digit (some phone) ≡ some phone)
  normalize_phone_twice raw phone e =
      let (digits, same, h, long) = normalize_phone-IsNormal raw phone e in
      ((digits, same, h, long), rw same (normalize_plus digits h ∙ ground (arith, long)))

  -- The spellings of one Iranian mobile number: with plus, with 00, with the country code alone,
  -- with a leading zero, and with none, all become the same text.
  pub normalize_phone_forms :
      (body : Text)
      → All IsLatinDigit body
      → length body ≡ 9
      → All
          (λ prefix. normalize_phone is_digit (some (prefix ++ body)) ≡ some (codes "+989" ++ body))
          (codes "+989" ∷ codes "00989" ∷ codes "989" ∷ codes "09" ∷ codes "9" ∷ [])
  unfolding international
  normalize_phone_forms body h long =
      let zero_digit : IsLatinDigit 48 = (test.ascii 48 (omega arith) (omega arith), refl) in
      let nine = latin_two.0 in
      let eight = latin_two.1.0 in
      (
        normalize_plus (codes "989" ++ body) (nine, (eight, (nine, h))) ∙ ground (arith, long),
        (
          normalize_digits 48 (codes "0989" ++ body)
                (zero_digit, (zero_digit, (nine, (eight, (nine, h)))))
              ∙ ground (arith, long),
          (
            normalize_digits 57 (codes "89" ++ body) (nine, (eight, (nine, h)))
                ∙ ground (arith, long),
            (
              normalize_digits 48 (codes "9" ++ body) (zero_digit, (nine, h))
                  ∙ ground (arith, long),
              (normalize_digits 57 body (nine, h) ∙ ground (arith, long), tt),
            ),
          ),
        ),
      )
