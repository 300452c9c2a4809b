-- ===== src/AddQueue.antt =====
-- add_queue.py: the order in which members are added.
-- `prefer_addable` is the argument of that name. `shuffle` stands for `random.shuffle`, on the
-- state `R` of the generator; it is known only to permute.
pub mod Order
mod Examples
use add_members.Base.{
  ℕ, Bool, true, false, not, Option, none, some, List, [], ◌∷◌, ◌++◌, Text, codes, text_eq, ltb,
  take, drop, length, if◌then◌else◌,
}

-- `MAX_MODE_HEAD_SIZE`
abbrev pub max_mode_head_size : ℕ
max_mode_head_size = 800

abbrev pub max_mode : Text
max_mode = codes "max"

module _ {A R : Type 0} (shuffle : R → List A → List A × R) where
  -- `shuffle(tail)` after `shuffle(head)`, and `head + tail`.
  abbrev pub split_shuffle : List A × R → List A → List A × R
  split_shuffle (head, rng) rest = let (tail, rng') = shuffle rng rest in (head ++ tail, rng')

  unfoldable pub order_members_for_add : List A → Text → (List A → List A) → R → List A × R
  order_members_for_add members add_mode prefer_addable rng =
      let ordered = prefer_addable members in
      if not (text_eq.same add_mode max_mode)
      then (ordered, rng)
      else if ltb max_mode_head_size (length ordered)
      then split_shuffle (shuffle rng (take max_mode_head_size ordered))
          (drop max_mode_head_size ordered)
      else shuffle rng ordered
