-- ===== src/CallbackRouter/Registration.antt =====
-- What registration keeps: no key twice, and a table that is sorted when the flag says so.
use add_members.Base.{
  ◌≡◌, inl, inr, true, Option, none, some, List, [], ◌∷◌, ◌++◌, Text, put, any, text_eq, IsUnique,
  put-IsUnique, sort_by, IsSorted, sort_by-IsSorted, leb_total, leb_trans, length, arith,
  Bool-cases, subst, ap,
}
use add_members.CallbackRouter.{
  Router, new, exact, append_prefixes, prefix, longer, sort_prefixes, resolve,
}
use add_members.CallbackRouter.Table.{append-IsUnique, any-existing, sort_by-IsUnique}

module _ {H : Type 0} where
  pub record IsValid (r : Router H) : Type 0 where
    pub exact_once : IsUnique r.exact
    pub prefix_once : IsUnique r.prefix
    pub in_order : r.prefix_sorted ≡ true → IsSorted longer r.prefix

  pub sort_by-longer-IsSorted : (table : List (Text × H)) → IsSorted longer (sort_by longer table)
  sort_by-longer-IsSorted table =
      sort_by-IsSorted longer (λ (p, _) (q, _). leb_total (length q) (length p))
        (λ (p, _) (q, _) (s, _) h k. leb_trans (length s) (length q) (length p) k h) table

  -- After the lazy sort the table is in order, and is still valid.
  pub sort_prefixes-IsValid :
      (r : Router H)
      → IsValid r
      → IsValid (sort_prefixes r) × IsSorted longer (sort_prefixes r).prefix
  unfolding sort_prefixes
  sort_prefixes-IsValid r v = elim (Bool-cases r.prefix_sorted) [
    | inl e ↦ simp e (v, v.in_order e)
    | inr e ↦ rw e (
      record {
        exact_once = v.exact_once;
        prefix_once = sort_by-IsUnique longer r.prefix v.prefix_once;
        in_order = λ _. sort_by-longer-IsSorted r.prefix;
      },
      sort_by-longer-IsSorted r.prefix,
    )
  ]

  exact-IsValid :
      (keys : List Text) (fn : H) (r : Router H) → IsValid r → IsValid (exact keys fn r).0
  unfolding exact
  exact-IsValid [] fn r v = v
  exact-IsValid (key ∷ keys) fn r v = ground (
    arith,
    exact-IsValid keys fn (record r { exact = put key fn r.exact })
        (record {
          exact_once = put-IsUnique key fn r.exact v.exact_once;
          prefix_once = v.prefix_once;
          in_order = v.in_order;
        }),
  )

  append_prefixes-IsUnique :
      (prefixes : List Text) (fn : H) (table : List (Text × H))
      → IsUnique table
      → IsUnique (append_prefixes prefixes fn table).0
  unfolding append_prefixes
  append_prefixes-IsUnique [] fn table u = u
  append_prefixes-IsUnique (pre ∷ prefixes) fn table u =
      elim (Bool-cases (any (λ (existing, _). text_eq.same existing pre) table)) [
        | inl e ↦ rw (e, append_prefixes) u
        | inr e ↦
            rw (e, append_prefixes)
              (append_prefixes-IsUnique prefixes fn (table ++ ((pre, fn) ∷ []))
                (append-IsUnique pre fn table (any-existing pre table e) u))
      ]

  -- A registration of prefixes that raises no ValueError.
  prefix-IsValid :
      (prefixes : List Text) (fn : H) (r : Router H)
      → IsValid r
      → (prefix prefixes fn r).1 ≡ none
      → IsValid (prefix prefixes fn r).0
  unfolding prefix
  prefix-IsValid prefixes fn r v ok =
      ground (arith, v.exact_once, append_prefixes-IsUnique prefixes fn r.prefix v.prefix_once)

  resolve-IsValid : (d : Option Text) (r : Router H) → IsValid r → IsValid (resolve d r).0
  unfolding resolve
  resolve-IsValid none r v = v
  resolve-IsValid (some d) r v = ground (arith, (sort_prefixes-IsValid r v).0)

-- A router as the bot makes it: from an empty one, by registrations that raise nothing, and by
-- lookups in between.
pub data Built {H : Type 0} : Router H → Type 0 where
  start : (r : Router H) → r ≡ new → Built r
  add_exact :
      {r : Router H} (s : Router H) (keys : List Text) (fn : H)
      → Built r
      → exact keys fn r ≡ (s, none)
      → Built s
  add_prefix :
      {r : Router H} (s : Router H) (prefixes : List Text) (fn : H)
      → Built r
      → prefix prefixes fn r ≡ (s, none)
      → Built s
  look_up :
      {r : Router H} (s : Router H) (d : Option Text) → Built r → (resolve d r).0 ≡ s → Built s

-- Such a router has no key twice, and its table is in order whenever the flag says so.
pub Built-IsValid : {H : Type 0} {r : Router H} → Built r → IsValid r
unfolding new
Built-IsValid (start r e) = rw e (record { exact_once = tt; prefix_once = tt; in_order = λ _. tt })
Built-IsValid (add_exact {r} s keys fn b e) =
    subst IsValid (ap (λ x. x.0) e) (exact-IsValid keys fn r (Built-IsValid b))
Built-IsValid (add_prefix {r} s prefixes fn b e) =
    subst IsValid (ap (λ x. x.0) e)
      (prefix-IsValid prefixes fn r (Built-IsValid b) (ap (λ x. x.1) e))
Built-IsValid (look_up {r} s d b e) = subst IsValid e (resolve-IsValid d r (Built-IsValid b))
