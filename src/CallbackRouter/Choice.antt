-- ===== src/CallbackRouter/Choice.antt =====
-- Which handler `resolve` chooses, and that the order of registration does not matter.
use add_members.Base.{
  ◌≡◌, ◌≤◌, refl, ap, ◌⊎◌, inl, inr, true, false, Option, none, some, List, [], ◌∷◌, ◌++◌, Text,
  get, any, text_eq, starts_with, starts_with_unique, length, leb→le, arith, Bool-cases,
  Option-cases, In, All, All-map, All-sort_by, Any-sort_by, IsSorted, sort_by, Any-append_right,
  IsUnique, subst,
}
use add_members.CallbackRouter.{
  Router, append_prefixes, prefix, longer, sort_prefixes, first_match, resolve,
}
use add_members.CallbackRouter.Registration.{IsValid, sort_prefixes-IsValid, Built, Built-IsValid}
use add_members.CallbackRouter.Table.{get_of_In, All_of_In}

module _ {H : Type 0} where
  -- What a scan of a table in order finds: the longest prefix of the data.
  abbrev Longest : Text → List (Text × H) → Option H → Type 0
  Longest d table none = All (λ (q, _). starts_with d q ≡ false) table
  Longest d table (some fn) =
      (p : Text) × In (p, fn) table
      × (starts_with d p ≡ true)
      × All (λ (q, _). starts_with d q ≡ true → length q ≤ length p) table

  first_match-Longest :
      (d : Text) (table : List (Text × H))
      → IsSorted longer table
      → Longest d table (first_match d table)
  unfolding first_match
  first_match-Longest d [] s = tt
  first_match-Longest d ((p, fn) ∷ table) s = elim (Bool-cases (starts_with d p)) [
    | inl e ↦ rw e (
      p,
      inl refl,
      e,
      (λ _. omega arith, All-map table (λ (q, _) h _. leb→le (length q) (length p) h) s.0),
    )
    | inr e ↦ rw e (later (first_match d table) (first_match-Longest d table s.1) e)
  ]
    where
      later :
          (found : Option H)
          → Longest d table found
          → starts_with d p ≡ false
          → Longest d ((p, fn) ∷ table) found
      later none h e = (e, h)
      later (some k) (q, m, t, all) e = (q, inr m, t, (λ h. cc, all))

  -- What `resolve(data)` may return: the handler of the exact key; else a handler that is
  -- registered for a prefix of the data, with no longer registered prefix of the data; else None,
  -- and then neither a key nor a prefix fits.
  abbrev pub Chosen : Router H → Text → Option H → Type 0
  Chosen r d found =
      ((fn : H) × (get d r.exact ≡ some fn) × (found ≡ some fn))
      ⊎ ((get d r.exact ≡ none) × Longest d r.prefix found)

  Longest-sorted :
      (r : Router H) (d : Text) (found : Option H)
      → Longest d (sort_prefixes r).prefix found
      → Longest d r.prefix found
  unfolding sort_prefixes
  Longest-sorted r d found h = elim (Bool-cases r.prefix_sorted) [
    | inl e ↦ simp e at h
    | inr e ↦ unsorted found (rw e at h)
  ]
    where
      unsorted : (o : Option H) → Longest d (sort_by longer r.prefix) o → Longest d r.prefix o
      unsorted none k = All-sort_by longer (λ (q, _). starts_with d q ≡ false) r.prefix k
      unsorted (some fn) (p, m, t, all) = (
        p,
        Any-sort_by longer (λ x. x ≡ (p, fn)) r.prefix m,
        t,
        All-sort_by longer (λ (q, _). starts_with d q ≡ true → length q ≤ length p) r.prefix all,
      )

  resolve-Chosen_valid : (r : Router H) (d : Text) → IsValid r → Chosen r d (resolve (some d) r).1
  unfolding resolve
  resolve-Chosen_valid r d v = elim (Option-cases (get d r.exact)) [
    | inl absent ↦ subst (Chosen r d) {x = first_match d (sort_prefixes r).prefix} (ground arith) (
        inr (
          absent,
          Longest-sorted r d (first_match d (sort_prefixes r).prefix)
              (first_match-Longest d (sort_prefixes r).prefix (sort_prefixes-IsValid r v).1),
        ))
    | inr (fn, found) ↦ subst (Chosen r d) {x = some fn} (ground arith) (inl (fn, found, refl))
  ]

  -- On a router made by registrations that raise nothing, the exact key wins over every prefix,
  -- then the longest prefix wins, and None is returned only if nothing fits (as `Chosen` says).
  pub resolve-Chosen : (r : Router H) (d : Text) → Built r → Chosen r d (resolve (some d) r).1
  resolve-Chosen r d b = resolve-Chosen_valid r d (Built-IsValid b)

  -- The two tables hold the same entries.
  abbrev pub SameEntries : List (Text × H) → List (Text × H) → Type 0
  SameEntries xs ys = (x : Text × H) → (In x xs → In x ys) × (In x ys → In x xs)

  Longest-eq :
      (d : Text) (xs ys : List (Text × H)) (a b : Option H)
      → SameEntries xs ys
      → IsUnique ys
      → Longest d xs a
      → Longest d ys b
      → a ≡ b
  Longest-eq d xs ys none none same u h k = refl
  Longest-eq d xs ys none (some g) same u h (q, m, t, all) =
      let fails : starts_with d q ≡ false =
        All_of_In (λ (q, _). starts_with d q ≡ false) (q, g) xs h ((same (q, g)).1 m) in
      cc
  Longest-eq d xs ys (some f) none same u (p, m, t, all) k =
      let fails : starts_with d p ≡ false =
        All_of_In (λ (q, _). starts_with d q ≡ false) (p, f) ys k ((same (p, f)).0 m) in
      cc
  Longest-eq d xs ys (some f) (some g) same u (p, m, t, all) (q, n, w, every) =
      let one : length q ≤ length p =
        All_of_In (λ (s, _). starts_with d s ≡ true → length s ≤ length p) (q, g) xs all
          ((same (q, g)).1 n) w in
      let two : length p ≤ length q =
        All_of_In (λ (s, _). starts_with d s ≡ true → length s ≤ length q) (p, f) ys every
          ((same (p, f)).0 m) t in
      let e : p ≡ q = starts_with_unique d p q t w (omega arith) in
      cc (get_of_In p f ys u ((same (p, f)).0 m), get_of_In q g ys u n, ap (λ k. get k ys) e)

  -- The order of registration does not matter: two routers that bind the same keys and hold the
  -- same prefix entries, in whatever order, return the same handler for every callback.
  pub resolve_order :
      (r s : Router H) (d : Text)
      → Built r
      → Built s
      → ((key : Text) → get key r.exact ≡ get key s.exact)
      → SameEntries r.prefix s.prefix
      → (resolve (some d) r).1 ≡ (resolve (some d) s).1
  resolve_order r s d b c keys same = join (resolve-Chosen r d b) (resolve-Chosen s d c)
    where
      join : {x y : Option H} → Chosen r d x → Chosen s d y → x ≡ y
      join (inl (f, h, e)) (inl (g, k, e')) = cc (keys d)
      join (inl (f, h, e)) (inr (k, l)) = cc (keys d)
      join (inr (h, l)) (inl (g, k, e')) = cc (keys d)
      join {x} {y} (inr (h, l)) (inr (k, m)) =
          Longest-eq d r.prefix s.prefix x y same (Built-IsValid c).prefix_once l m

  first_match-append :
      (d : Text) (table : List (Text × H)) (x : Text × H) (fn : H)
      → first_match d table ≡ some fn
      → first_match d (table ++ (x ∷ [])) ≡ some fn
  unfolding first_match
  first_match-append d [] x fn h = cc
  first_match-append d ((p, k) ∷ table) x fn h = ground (arith, first_match-append d table x fn)

  prefix_raised :
      (r : Router H) (longest old : Text) (fn : H)
      → any (λ (existing, _). text_eq.same existing longest) r.prefix ≡ false
      → any (λ (existing, _). text_eq.same existing old) (r.prefix ++ ((longest, fn) ∷ [])) ≡ true
      → prefix (longest ∷ old ∷ []) fn r
        ≡ (record r { prefix = r.prefix ++ ((longest, fn) ∷ []) }, some old)
  unfolding prefix append_prefixes
  prefix_raised r longest old fn fresh taken = ground (arith, fresh, taken)

  resolve_flagged :
      (d : Text) (r : Router H) (handler : H)
      → r.prefix_sorted ≡ true
      → get d r.exact ≡ none
      → first_match d r.prefix ≡ some handler
      → (resolve (some d) r).1 ≡ some handler
  unfolding resolve sort_prefixes
  resolve_flagged d r handler flag absent match = ground arith

  -- A registration that raises leaves the flag as it was. So when the table is flagged as sorted
  -- and `prefix(new, old)` raises because `old` is taken, `new` is in the table for good, and yet
  -- data that an older prefix fits is still routed to that one, however long `new` is.
  pub resolve-prefix_raised :
      (r : Router H) (d longest old : Text) (fn handler : H)
      → r.prefix_sorted ≡ true
      → get d r.exact ≡ none
      → first_match d r.prefix ≡ some handler
      → any (λ (existing, _). text_eq.same existing longest) r.prefix ≡ false
      → any (λ (existing, _). text_eq.same existing old) (r.prefix ++ ((longest, fn) ∷ [])) ≡ true
      → ((prefix (longest ∷ old ∷ []) fn r).1 ≡ some old)
        × In (longest, fn) (prefix (longest ∷ old ∷ []) fn r).0.prefix
        × ((resolve (some d) (prefix (longest ∷ old ∷ []) fn r).0).1 ≡ some handler)
  resolve-prefix_raised r d longest old fn handler flag absent match fresh taken =
      rw (prefix_raised r longest old fn fresh taken) (
        refl,
        Any-append_right (λ x. x ≡ (longest, fn)) r.prefix ((longest, fn) ∷ []) (inl refl),
        resolve_flagged d _ handler flag absent
            (first_match-append d r.prefix (longest, fn) handler match),
      )
