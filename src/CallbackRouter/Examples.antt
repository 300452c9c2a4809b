-- ===== src/CallbackRouter/Examples.antt =====
-- Tests and instances of the theorems. Handlers are numbers.
use add_members.Base.{
  ℕ, ◌≡◌, refl, inl, inr, true, false, none, some, [], ◌∷◌, Text, codes, In, text_eq,
}
use add_members.CallbackRouter.{
  Router, new, exact, prefix, resolve, first_match, append_prefixes, size,
}
use add_members.CallbackRouter.Registration.{Built, start, add_exact, add_prefix}
use add_members.CallbackRouter.Choice

abbrev target_ : Text
target_ = codes "atk_target_"

abbrev manual : Text
manual = codes "atk_target_manual"

-- `atk_target_` is registered before `atk_target_manual`.
abbrev short_first : Router ℕ
short_first = record {
  exact = (codes "menu", 0) ∷ [];
  prefix = (target_, 1) ∷ (manual, 2) ∷ [];
  prefix_sorted = false;
}

abbrev long_first : Router ℕ
long_first = record {
  exact = (codes "menu", 0) ∷ [];
  prefix = (manual, 2) ∷ (target_, 1) ∷ [];
  prefix_sorted = false;
}

abbrev with_menu : Router ℕ
with_menu = record { exact = (codes "menu", 0) ∷ []; prefix = []; prefix_sorted = true }

with_menu-Built : Built with_menu
unfolding new exact
with_menu-Built = add_exact with_menu (codes "menu" ∷ []) 0 (start new refl) refl

short_first-Built : Built short_first
unfolding prefix append_prefixes
short_first-Built =
    add_prefix short_first (manual ∷ []) 2
      (add_prefix (record with_menu { prefix = (target_, 1) ∷ []; prefix_sorted = false })
        (target_ ∷ []) 1 with_menu-Built refl)
      refl

long_first-Built : Built long_first
unfolding prefix append_prefixes
long_first-Built =
    add_prefix long_first (target_ ∷ []) 1
      (add_prefix (record with_menu { prefix = (manual, 2) ∷ []; prefix_sorted = false })
        (manual ∷ []) 2 with_menu-Built refl)
      refl

resolve_manual : (resolve (some (codes "atk_target_manual_3")) short_first).1 ≡ some 2
unfolding resolve
resolve_manual = refl

resolve_no_data : (resolve none short_first).1 ≡ none
unfolding resolve
resolve_no_data = refl

exact_twice : (exact (codes "a" ∷ codes "menu" ∷ []) 5 with_menu).1 ≡ some (codes "menu")
unfolding exact
exact_twice = refl

size-short_first : size short_first ≡ 3
unfolding size
size-short_first = refl

resolve-Chosen_example : Choice.Chosen short_first manual (resolve (some manual) short_first).1
resolve-Chosen_example = Choice.resolve-Chosen short_first manual short_first-Built

swapped :
    (x : Text × ℕ)
    → (In x short_first.prefix → In x long_first.prefix)
      × (In x long_first.prefix → In x short_first.prefix)
swapped x = (
  λ h. elim h [ inl e ↦ inr (inl e) | inr k ↦ elim k [ inl e ↦ inl e | inr n ↦ absurd n ] ],
  λ h. elim h [ inl e ↦ inr (inl e) | inr k ↦ elim k [ inl e ↦ inl e | inr n ↦ absurd n ] ],
)

resolve_order_example : (resolve (some manual) short_first).1 ≡ (resolve (some manual) long_first).1
resolve_order_example =
    Choice.resolve_order short_first long_first manual short_first-Built long_first-Built
      (λ key. refl) swapped

-- `prefix("atk_target_manual", "atk_target_")` on a table that was used with `atk_target_` alone.
abbrev used : Router ℕ
used = record with_menu { prefix = (target_, 1) ∷ []; prefix_sorted = true }

resolve-prefix_raised_example :
    ((prefix (manual ∷ target_ ∷ []) 2 used).1 ≡ some target_)
    × In (manual, 2) (prefix (manual ∷ target_ ∷ []) 2 used).0.prefix
    × ((resolve (some manual) (prefix (manual ∷ target_ ∷ []) 2 used).0).1 ≡ some 1)
unfolding first_match
resolve-prefix_raised_example =
    Choice.resolve-prefix_raised used manual manual target_ 2 1 refl refl refl refl refl
