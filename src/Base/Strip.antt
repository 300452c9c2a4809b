-- ===== src/Base/Strip.antt =====
-- `str.strip`, and the order of texts by code points.
use Prim.Native.Nat.{ℕ}
use mathlib.Core.Path.{◌≡◌, refl}
use mathlib.Core.Bool.{Bool, true, false, ◌||◌, ◌&&◌}
use mathlib.Core.List.{[], ◌∷◌}
use native.Mathlib.Omega.{arith}
use add_members.Base.Tests.{ltb, leb, nat_beq, if◌then◌else◌}
use add_members.Base.Texts.{Text}
use add_members.Base.Pred.{All}

-- `str.isspace` of one character.
unfoldable pub is_space : ℕ → Bool
is_space c =
    (leb 9 c && leb c 13)
    || (leb 28 c && leb c 32)
    || nat_beq c 133
    || nat_beq c 160
    || nat_beq c 5760
    || (leb 8192 c && leb c 8202)
    || nat_beq c 8232
    || nat_beq c 8233
    || nat_beq c 8239
    || nat_beq c 8287
    || nat_beq c 12288

unfoldable pub lstrip : (ℕ → Bool) → Text → Text
lstrip test [] = []
lstrip test (c ∷ s) = let rest = lstrip test s in if test c then rest else c ∷ s

abbrev pub cons_unless : (ℕ → Bool) → ℕ → Text → Text
cons_unless test c [] = if test c then [] else c ∷ []
cons_unless test c (d ∷ s) = c ∷ d ∷ s

unfoldable pub rstrip : (ℕ → Bool) → Text → Text
rstrip test [] = []
rstrip test (c ∷ s) = cons_unless test c (rstrip test s)

-- `s.strip()`
unfoldable pub strip : Text → Text
unfolding lstrip rstrip is_space
strip s = rstrip is_space (lstrip is_space s)

pub rstrip_same : (test : ℕ → Bool) (s : Text) → All (λ c. test c ≡ false) s → rstrip test s ≡ s
unfolding rstrip
rstrip_same test [] h = refl
rstrip_same test (c ∷ []) h = rw h.0 refl
rstrip_same test (c ∷ d ∷ s) h = rw (rstrip_same test (d ∷ s) h.1) refl

pub strip_same : (c : ℕ) (s : Text) → All (λ d. is_space d ≡ false) (c ∷ s) → strip (c ∷ s) ≡ c ∷ s
unfolding strip lstrip
strip_same c s h = rw h.0 (rstrip_same is_space (c ∷ s) h)

-- `s <= t`
abbrev pub text_leb : Text → Text → Bool
text_leb [] t = true
text_leb (x ∷ s) [] = false
text_leb (x ∷ s) (y ∷ t) =
    let rest = text_leb s t in if ltb x y then true else if nat_beq x y then rest else false

pub text_leb_total : (s t : Text) → text_leb s t ≡ false → text_leb t s ≡ true
text_leb_total [] t h = ground arith
text_leb_total (x ∷ s) [] h = refl
text_leb_total (x ∷ s) (y ∷ t) h = ground (arith, text_leb_total s t)

pub text_leb_trans :
    (s t u : Text) → text_leb s t ≡ true → text_leb t u ≡ true → text_leb s u ≡ true
text_leb_trans [] t u h k = refl
text_leb_trans (x ∷ s) [] u h k = ground arith
text_leb_trans (x ∷ s) (y ∷ t) [] h k = k
text_leb_trans (x ∷ s) (y ∷ t) (z ∷ u) h k = ground (arith, text_leb_trans s t u)
