-- ===== src/CallbackRouter.antt =====
-- callback_router.py: the dispatch table of inline callbacks.
-- A `Router` has the dictionary of exact keys, the list of prefixes and the flag which says that
-- the list is sorted. `H` is the type of handlers.
mod Table
pub mod Choice
pub mod Registration
mod Examples
use add_members.Base.{
  ℕ, ◌+◌, Bool, true, false, Option, none, some, List, [], ◌∷◌, ◌++◌, Text, Dict, get, put, any,
  leb, text_eq, ◌==◌, starts_with, length, sort_by, if◌then◌else◌,
}

pub record Router (H : Type 0) : Type 0 where
  pub exact : Dict Text H
  pub prefix : List (Text × H)
  pub prefix_sorted : Bool

module _ {H : Type 0} where
  -- `__init__`
  unfoldable pub new : Router H
  new = record { exact = []; prefix = []; prefix_sorted = true }

  -- `exact(*keys)(fn)`. The second part is the key of the ValueError, if one is raised; the keys
  -- before it stay registered.
  unfoldable pub exact : List Text → H → Router H → Router H × Option Text
  exact [] fn r = (r, none)
  exact (key ∷ keys) fn r = elim (get key r.exact) [
    | some _ ↦ (r, some key)
    | none ↦ exact keys fn (record r { exact = put key fn r.exact })
  ]

  -- The loop of `prefix`, on the list alone.
  unfoldable pub append_prefixes : List Text → H → List (Text × H) → List (Text × H) × Option Text
  append_prefixes [] fn table = (table, none)
  append_prefixes (pre ∷ prefixes) fn table = elim (any (λ (existing, _). existing == pre) table) [
    | true ↦ (table, some pre)
    | false ↦ append_prefixes prefixes fn (table ++ ((pre, fn) ∷ []))
  ]

  -- `prefix(*prefixes)(fn)`. The flag is cleared only if no ValueError is raised.
  unfoldable pub prefix : List Text → H → Router H → Router H × Option Text
  prefix prefixes fn r =
      let (table, error) = append_prefixes prefixes fn r.prefix in
      elim error [
        | some pre ↦ (record r { prefix = table }, some pre)
        | none ↦ (record r { prefix = table; prefix_sorted = false }, none)
      ]

  -- `key=lambda item: len(item[0]), reverse=True`
  abbrev pub longer : Text × H → Text × H → Bool
  longer (p, _) (q, _) = leb (length q) (length p)

  unfoldable pub sort_prefixes : Router H → Router H
  sort_prefixes r =
      if r.prefix_sorted
      then r
      else record r { prefix = sort_by longer r.prefix; prefix_sorted = true }

  unfoldable pub first_match : Text → List (Text × H) → Option H
  first_match d [] = none
  first_match d ((pre, fn) ∷ table) =
      let rest = first_match d table in if starts_with d pre then some fn else rest

  -- `resolve(data)`, with the sorted router.
  unfoldable pub resolve : Option Text → Router H → Router H × Option H
  unfolding sort_prefixes first_match
  resolve none r = (r, none)
  resolve (some d) r = elim (get d r.exact) [
    | some handler ↦ (r, some handler)
    | none ↦ let sorted = sort_prefixes r in (sorted, first_match d sorted.prefix)
  ]

  -- `__len__`
  unfoldable pub size : Router H → ℕ
  size r = length r.exact + length r.prefix
