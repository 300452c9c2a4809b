-- ===== src/AddEngine/Target/Usernames.antt =====
-- add_engine.py, `normalize_chat_ref`: the spellings of a group with a public name.
use add_members.Base.{
  ℕ, ◌≡◌, refl, true, false, not, some, [], ◌∷◌, ◌++◌, Text, codes, all, all-All, has_part, strip,
  lstrip, is_space, All, All-map, All-append, All-both, strip_same, arith,
}
use add_members.Db.Config.{is_empty}
use add_members.AddEngine.Target.{
  Library, name, me, is_at, is_letter, is_username, is_number, tail_of, normalize_tail,
  normalize_stripped, normalize_chat_ref,
}
use add_members.AddEngine.Target.Links.{
  is_username-IsWord, has_part_me, is_number_first, IsWord-space, schemes, endings, link,
  tail_of-link, starts_with-IsWord, lstrip_first, has_part_at,
}

-- What is relied on of `str.isdigit`: a letter of ASCII and the sign @ are no digits.
pub record IsDigitTest (lib : Library) : Type 0 where
  pub no_letter : (c : ℕ) → is_letter c ≡ true → lib.is_digit c ≡ false
  pub no_at : lib.is_digit 64 ≡ false

abbrev pub IsClean : Text → Type 0
IsClean s = All (λ c. is_space c ≡ false) s

pub strip-IsClean : (s : Text) → IsClean s → strip s ≡ s
unfolding strip lstrip
strip-IsClean [] h = refl
strip-IsClean (c ∷ s) h = strip_same c s h

clean : (s : Text) → all (λ c. not (is_space c)) s ≡ true → IsClean s
clean s h = All-map s (λ c e. ground (arith, e)) (all-All (λ c. not (is_space c)) s h)

schemes-IsClean : All IsClean schemes
unfolding is_space
schemes-IsClean = (tt, (clean (codes "http://") refl, (clean (codes "https://") refl, tt)))

endings-IsClean : (q : Text) → IsClean q → All IsClean (endings q)
unfolding is_space
endings-IsClean q h = (tt, ((refl, tt), ((refl, h), tt)))

me-IsClean : IsClean me
unfolding is_space
me-IsClean = clean me refl

link-IsClean :
    (scheme u ending : Text)
    → IsClean scheme
    → IsClean u
    → IsClean ending
    → IsClean (link scheme u ending)
link-IsClean scheme u ending a b c =
    All-append (λ d. is_space d ≡ false) scheme (me ++ (u ++ ending)) a
      (All-append (λ d. is_space d ≡ false) me (u ++ ending) me-IsClean
        (All-append (λ d. is_space d ≡ false) u ending b c))

-- The links of a scheme to a name have the name as their tail.
abbrev Tails : ℕ → Text → Text → Text → Type 0
Tails c s q scheme = All (λ ending. tail_of (link scheme (c ∷ s) ending) ≡ c ∷ s) (endings q)

module _ (lib : Library) (test : IsDigitTest lib) where
  -- What begins with a scheme and `t.me/` is read as a link.
  abbrev IsLink : Text → Type 0
  IsLink scheme =
      (t : Text)
      → (is_empty (scheme ++ (me ++ t)) ≡ false)
        × (is_number lib (scheme ++ (me ++ t)) ≡ false)
        × (has_part me (scheme ++ (me ++ t)) ≡ true)

  schemes-IsLink : All IsLink schemes
  unfolding has_part
  schemes-IsLink = (
    λ t. (ground arith, is_number_first lib 116 _ refl (test.no_letter 116 refl), refl),
    (
      λ t. (ground arith, is_number_first lib 104 _ refl (test.no_letter 104 refl), refl),
      (λ t. (ground arith, is_number_first lib 104 _ refl (test.no_letter 104 refl), refl), tt),
    ),
  )

  letter_first : (c : ℕ) (s : Text) → is_letter c ≡ true → is_number lib (c ∷ s) ≡ false
  letter_first c s h = is_number_first lib c s (ground (arith, h)) (test.no_letter c h)

  normalize_tail-name :
      (raw : Text) (c : ℕ) (s : Text)
      → is_username (c ∷ s) ≡ true
      → normalize_tail lib raw (c ∷ s) ≡ some (name (64 ∷ c ∷ s))
  unfolding normalize_tail lstrip
  normalize_tail-name raw c s h =
      let word = is_username-IsWord (c ∷ s) h in
      rw
        (
          normalize_tail,
          starts_with-IsWord (c ∷ s) (codes "+") word refl,
          starts_with-IsWord (c ∷ s) (codes "joinchat/") word refl,
          letter_first c s (ground (arith, h)),
          lstrip_first is_at c s (ground (arith, h)),
        )
        (ground arith)

  normalize_link :
      (c : ℕ) (s scheme ending : Text)
      → is_username (c ∷ s) ≡ true
      → IsLink scheme
      → IsClean (link scheme (c ∷ s) ending)
      → tail_of (link scheme (c ∷ s) ending) ≡ c ∷ s
      → normalize_chat_ref lib (link scheme (c ∷ s) ending) ≡ some (name (64 ∷ c ∷ s))
  unfolding normalize_chat_ref
  normalize_link c s scheme ending h is_link cl tail =
      let raw = link scheme (c ∷ s) ending in
      let (full, no_number, part) = is_link (c ∷ s ++ ending) in
      rw (strip-IsClean raw cl, normalize_stripped, full, no_number, part, tail)
        (normalize_tail-name raw c s h)

  normalize_links :
      (c : ℕ) (s q : Text)
      → is_username (c ∷ s) ≡ true
      → IsClean q
      → All
          (λ scheme.
            All
              (λ ending.
                normalize_chat_ref lib (link scheme (c ∷ s) ending) ≡ some (name (64 ∷ c ∷ s)))
              (endings q))
          schemes
  normalize_links c s q h k =
      let word = is_username-IsWord (c ∷ s) h in
      All-map schemes
        (λ scheme (facts : IsClean scheme × (IsLink scheme × Tails c s q scheme)).
          All-map (endings q)
            (λ ending (ends : IsClean ending × (tail_of (link scheme (c ∷ s) ending) ≡ c ∷ s)).
              normalize_link c s scheme ending h facts.1.0
                (link-IsClean scheme (c ∷ s) ending facts.0 (IsWord-space (c ∷ s) word) ends.0)
                ends.1)
            (All-both IsClean (λ ending. tail_of (link scheme (c ∷ s) ending) ≡ c ∷ s) (endings q)
              (endings-IsClean q k) facts.1.1))
        (All-both IsClean (λ scheme. IsLink scheme × Tails c s q scheme) schemes schemes-IsClean
          (All-both IsLink (Tails c s q) schemes schemes-IsLink (tail_of-link c s q word)))

  normalize_name :
      (c : ℕ) (s : Text)
      → is_username (c ∷ s) ≡ true
      → normalize_chat_ref lib (c ∷ s) ≡ some (name (64 ∷ c ∷ s))
  unfolding normalize_chat_ref
  normalize_name c s h =
      let word = is_username-IsWord (c ∷ s) h in
      rw
        (
          strip-IsClean (c ∷ s) (IsWord-space (c ∷ s) word),
          normalize_stripped,
          letter_first c s (ground (arith, h)),
          has_part_me (c ∷ s) word,
          starts_with-IsWord (c ∷ s) (64 ∷ []) word refl,
          h,
        )
        (ground arith)

  pub normalize_at :
      (u : Text) → is_username u ≡ true → normalize_chat_ref lib (64 ∷ u) ≡ some (name (64 ∷ u))
  unfolding normalize_chat_ref is_space
  normalize_at u h =
      let word = is_username-IsWord u h in
      rw
        (
          strip-IsClean (64 ∷ u) (refl, IsWord-space u word),
          normalize_stripped,
          is_number_first lib 64 u refl test.no_at,
          has_part_at u word,
        )
        (ground arith)

  -- All spellings of a group with a public name are one reference: the name, the name after @, and
  -- the links to it, with http, https or no scheme, and with nothing, a slash or a query behind.
  pub normalize_chat_ref-name :
      (u q : Text)
      → is_username u ≡ true
      → All (λ c. is_space c ≡ false) q
      → (normalize_chat_ref lib u ≡ some (name (64 ∷ u)))
        × (normalize_chat_ref lib (64 ∷ u) ≡ some (name (64 ∷ u)))
        × All
            (λ scheme.
              All
                (λ ending. normalize_chat_ref lib (link scheme u ending) ≡ some (name (64 ∷ u)))
                (endings q))
            schemes
  normalize_chat_ref-name [] q h k = absurd (ground (arith, h))
  normalize_chat_ref-name (c ∷ s) q h k =
      (normalize_name c s h, normalize_at (c ∷ s) h, normalize_links c s q h k)
