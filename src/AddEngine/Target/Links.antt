-- ===== src/AddEngine/Target/Links.antt =====
-- add_engine.py: what `normalize_chat_ref` cuts out of a link to a group with a public name.
use add_members.Base.{
  ℕ, ◌≡◌, refl, Bool, true, false, List, [], ◌∷◌, ◌++◌, Text, codes, all, all-All, starts_with,
  has_part, lstrip, rstrip, is_space, All, All-map, rstrip_same, arith,
}
use add_members.AddEngine.Target.{
  Library, is_minus, is_slash, me, is_word, is_username, is_number, after_part, before, tail_of,
}

-- The characters of a public name.
abbrev pub IsWord : Text → Type 0
IsWord s = All (λ c. is_word c ≡ true) s

pub is_username-IsWord : (u : Text) → is_username u ≡ true → IsWord u
is_username-IsWord [] h = absurd (ground arith)
is_username-IsWord (c ∷ s) h = (ground arith, all-All is_word s (ground arith))

-- A public name has no prefix with another character.
pub starts_with-IsWord : (s p : Text) → IsWord s → all is_word p ≡ false → starts_with s p ≡ false
starts_with-IsWord s [] h k = absurd (ground (arith, k))
starts_with-IsWord [] (d ∷ p) h k = refl
starts_with-IsWord (c ∷ s) (d ∷ p) h k = ground (arith, h.0, starts_with-IsWord s p h.1, k)

starts_with_me : (s : Text) → IsWord s → starts_with s me ≡ false
starts_with_me s h = starts_with-IsWord s me h refl

pub has_part_me : (s : Text) → IsWord s → has_part me s ≡ false
unfolding has_part
has_part_me [] h = refl
has_part_me (c ∷ s) h = rw (starts_with_me (c ∷ s) h) (has_part_me s h.1)

pub has_part_at : (s : Text) → IsWord s → has_part me (64 ∷ s) ≡ false
unfolding has_part
has_part_at s h = has_part_me s h

before_same : (s : Text) → IsWord s → before 63 s ≡ s
unfolding before
before_same [] h = refl
before_same (c ∷ s) h = ground (arith, h.0, before_same s h.1)

before_query : (s q : Text) → IsWord s → before 63 (s ++ (63 ∷ q)) ≡ s
unfolding before
before_query [] q h = refl
before_query (c ∷ s) q h = ground (arith, h.0, before_query s q h.1)

before_slash : (s : Text) → IsWord s → before 63 (s ++ (47 ∷ [])) ≡ s ++ (47 ∷ [])
unfolding before
before_slash [] h = refl
before_slash (c ∷ s) h = ground (arith, h.0, before_slash s h.1)

not_slash : (s : Text) → IsWord s → All (λ c. is_slash c ≡ false) s
not_slash s h = All-map s (λ c w. ground (arith, w)) h

rstrip_slash : (s : Text) → IsWord s → rstrip is_slash (s ++ (47 ∷ [])) ≡ s
unfolding rstrip
rstrip_slash [] h = refl
rstrip_slash (c ∷ []) h = ground (arith, h.0)
rstrip_slash (c ∷ d ∷ s) h = rw (rstrip_slash (d ∷ s) h.1) refl

pub lstrip_first :
    (test : ℕ → Bool) (c : ℕ) (s : Text) → test c ≡ false → lstrip test (c ∷ s) ≡ c ∷ s
unfolding lstrip
lstrip_first test c s h = rw h refl

-- A text whose first character is no minus and no digit is no number.
pub is_number_first :
    (lib : Library) (c : ℕ) (s : Text)
    → is_minus c ≡ false
    → lib.is_digit c ≡ false
    → is_number lib (c ∷ s) ≡ false
unfolding is_number
is_number_first lib c s h k = rw (lstrip_first is_minus c s h, k) (ground arith)

pub IsWord-space : (s : Text) → IsWord s → All (λ c. is_space c ≡ false) s
unfolding is_space
IsWord-space s h = All-map s (λ c w. ground (arith, w)) h

-- The three endings of a link.
cut_same :
    (c : ℕ) (s : Text)
    → IsWord (c ∷ s)
    → rstrip is_slash (lstrip is_slash (before 63 (c ∷ s))) ≡ c ∷ s
cut_same c s h =
    rw (before_same (c ∷ s) h, lstrip_first is_slash c s (not_slash (c ∷ s) h).0)
      (rstrip_same is_slash (c ∷ s) (not_slash (c ∷ s) h))

cut_slash :
    (c : ℕ) (s : Text)
    → IsWord (c ∷ s)
    → rstrip is_slash (lstrip is_slash (before 63 (c ∷ s ++ (47 ∷ [])))) ≡ c ∷ s
cut_slash c s h =
    rw (before_slash (c ∷ s) h, lstrip_first is_slash c (s ++ (47 ∷ [])) (not_slash (c ∷ s) h).0)
      (rstrip_slash (c ∷ s) h)

cut_query :
    (c : ℕ) (s q : Text)
    → IsWord (c ∷ s)
    → rstrip is_slash (lstrip is_slash (before 63 (c ∷ s ++ (63 ∷ q)))) ≡ c ∷ s
cut_query c s q h =
    rw (before_query (c ∷ s) q h, lstrip_first is_slash c s (not_slash (c ∷ s) h).0)
      (rstrip_same is_slash (c ∷ s) (not_slash (c ∷ s) h))

-- A scheme, or none.
abbrev pub schemes : List Text
schemes = [] ∷ codes "http://" ∷ codes "https://" ∷ []

-- The three endings of a link to the name.
abbrev pub endings : Text → List Text
endings q = [] ∷ (47 ∷ []) ∷ (63 ∷ q) ∷ []

abbrev pub link : Text → Text → Text → Text
link scheme u ending = scheme ++ (me ++ (u ++ ending))

append_nil : (s : Text) → s ++ [] ≡ s
append_nil [] = refl
append_nil (c ∷ s) = rw (append_nil s) refl

-- A scheme is cut off with what follows it.
abbrev IsCut : Text → Type 0
IsCut scheme = (t : Text) → after_part me (scheme ++ (me ++ t)) ≡ t

schemes-IsCut : All IsCut schemes
unfolding after_part
schemes-IsCut = (λ t. refl, (λ t. refl, (λ t. refl, tt)))

tail_of-IsCut :
    (c : ℕ) (s q scheme : Text)
    → IsWord (c ∷ s)
    → IsCut scheme
    → All (λ ending. tail_of (link scheme (c ∷ s) ending) ≡ c ∷ s) (endings q)
unfolding tail_of
tail_of-IsCut c s q scheme h after = (
  rw (after (c ∷ s ++ []), append_nil s) (cut_same c s h),
  (
    rw (after (c ∷ s ++ (47 ∷ []))) (cut_slash c s h),
    (rw (after (c ∷ s ++ (63 ∷ q))) (cut_query c s q h), tt),
  ),
)

-- The tail of a link to a public name is the name.
pub tail_of-link :
    (c : ℕ) (s q : Text)
    → IsWord (c ∷ s)
    → All
        (λ scheme. All (λ ending. tail_of (link scheme (c ∷ s) ending) ≡ c ∷ s) (endings q))
        schemes
tail_of-link c s q h =
    All-map schemes (λ scheme after. tail_of-IsCut c s q scheme h after) schemes-IsCut
