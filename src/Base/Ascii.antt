-- ===== src/Base/Ascii.antt =====
-- Letter case and search, over ASCII letters. A text that the source compares after `lower()` is
-- compared with ASCII words only.
use Prim.Native.Nat.{ℕ, ◌+◌}
use mathlib.Core.Bool.{Bool, true, ◌&&◌}
use mathlib.Core.List.{[], ◌∷◌, map}
use add_members.Base.Tests.{leb, nat_beq, if◌then◌else◌}
use add_members.Base.Texts.{Text, starts_with}

unfoldable pub lower_char : ℕ → ℕ
lower_char c = if leb 65 c && leb c 90 then c + 32 else c

unfoldable pub lower : Text → Text
unfolding lower_char
lower s = map lower_char s

-- `word in s`
unfoldable pub has_part : Text → Text → Bool
has_part word [] = starts_with [] word
has_part word (c ∷ s) =
    let rest = has_part word s in if starts_with (c ∷ s) word then true else rest

-- `raw.rsplit(".", 1)[-1]` if there is a dot, and the text itself if there is none.
unfoldable pub after_last_dot : Text → Text
after_last_dot [] = []
after_last_dot (c ∷ s) =
    let rest = after_last_dot s in
    if has_part (46 ∷ []) s then rest else if nat_beq c 46 then s else c ∷ s
