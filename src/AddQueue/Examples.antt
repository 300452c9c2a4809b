-- ===== src/AddQueue/Examples.antt =====
-- Tests and instances of the theorems. The shuffle reverses the list and counts its calls.
use add_members.Base.{ℕ, ◌+◌, ◌≡◌, refl, List, [], ◌∷◌, text_eq, take}
use mathlib.Core.List.{Perm, reverse, reverse_perm}
use add_members.AddQueue.{order_members_for_add, max_mode, max_mode_head_size}
use add_members.AddQueue.Order

abbrev flip : ℕ → List ℕ → List ℕ × ℕ
flip rng xs = (reverse xs, rng + 1)

flip-perm : (rng : ℕ) (xs : List ℕ) → Perm (flip rng xs).0 xs
flip-perm rng xs = reverse_perm xs

abbrev three : List ℕ
three = 5 ∷ 6 ∷ 7 ∷ []

order_max : order_members_for_add flip three max_mode (λ l. l) 0 ≡ (7 ∷ 6 ∷ 5 ∷ [], 1)
unfolding order_members_for_add
order_max = refl

take-order_members_for_add-perm_example :
    Perm
      (take max_mode_head_size (order_members_for_add flip three max_mode (λ l. l) 0).0)
      (take max_mode_head_size three)
take-order_members_for_add-perm_example =
    Order.take-order_members_for_add-perm flip flip-perm three max_mode (λ l. l) 0
