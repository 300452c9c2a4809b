-- ===== src/CallbackRouter/Table.antt =====
-- The prefix table as a dictionary: sorting does not change what is bound to a prefix.
use add_members.Base.{
  ◌≡◌, refl, ◌∙◌, inl, inr, Bool, false, none, some, List, [], ◌∷◌, ◌++◌, Text, Dict, get, any,
  text_eq, text_beq_iff, IsUnique, insert_by, sort_by, arith, Bool-cases, In, if◌then◌else◌, All,
  ap, subst,
}

module _ {H : Type 0} where
  get-insert_by :
      (le : Text × H → Text × H → Bool) (j k : Text) (v : H) (d : Dict Text H)
      → get j d ≡ none
      → get k (insert_by le (j, v) d) ≡ (if text_eq.same j k then some v else get k d)
  get-insert_by le j k v [] h = refl
  get-insert_by le j k v ((i, w) ∷ d) h =
      ground (arith, text_beq_iff i j, text_beq_iff i k, text_beq_iff j k, get-insert_by le j k v d)

  insert_by-IsUnique :
      (le : Text × H → Text × H → Bool) (j : Text) (v : H) (d : Dict Text H)
      → get j d ≡ none
      → IsUnique d
      → IsUnique (insert_by le (j, v) d)
  insert_by-IsUnique le j v [] h u = (refl, tt)
  insert_by-IsUnique le j v ((i, w) ∷ d) h u = elim (Bool-cases (le (j, v) (i, w))) [
    | inl e ↦ rw e (h, u)
    | inr e ↦ rw e (
      ground (arith, get-insert_by le j i v d, text_beq_iff i j, text_beq_iff j i),
      insert_by-IsUnique le j v d (ground (arith, text_beq_iff i j)) u.1,
    )
  ]

  pub get-sort_by :
      (le : Text × H → Text × H → Bool) (k : Text) (d : Dict Text H)
      → IsUnique d
      → get k (sort_by le d) ≡ get k d
  get-sort_by le k [] u = refl
  get-sort_by le k ((j, v) ∷ d) u =
      ground (
        arith,
        get-insert_by le j k v (sort_by le d),
        get-sort_by le j d u.1,
        get-sort_by le k d u.1,
      )

  pub sort_by-IsUnique :
      (le : Text × H → Text × H → Bool) (d : Dict Text H) → IsUnique d → IsUnique (sort_by le d)
  sort_by-IsUnique le [] u = tt
  sort_by-IsUnique le ((j, v) ∷ d) u =
      insert_by-IsUnique le j v (sort_by le d) (get-sort_by le j d u.1 ∙ u.0)
        (sort_by-IsUnique le d u.1)

  -- In a table with no prefix twice, an entry is what is bound to its prefix.
  pub get_of_In : (p : Text) (h : H) (d : Dict Text H) → IsUnique d → In (p, h) d → get p d ≡ some h
  get_of_In p h [] u m = absurd m
  get_of_In p h ((q, k) ∷ d) u (inl e) =
      ground (arith, text_beq_iff q p, ap (λ (x : Text × H). x.0) e, ap (λ (x : Text × H). x.1) e)
  get_of_In p h ((q, k) ∷ d) u (inr m) = ground (arith, text_beq_iff q p, get_of_In p h d u.1 m)

  pub get-append_absent :
      (p q : Text) (h : H) (d : Dict Text H)
      → get q (d ++ ((p, h) ∷ []))
        ≡ elim (get q d) [ some k ↦ some k | none ↦ if text_eq.same p q then some h else none ]
  get-append_absent p q h [] = refl
  get-append_absent p q h ((i, k) ∷ d) = ground (arith, get-append_absent p q h d)

  pub append-IsUnique :
      (p : Text) (h : H) (d : Dict Text H)
      → get p d ≡ none
      → IsUnique d
      → IsUnique (d ++ ((p, h) ∷ []))
  append-IsUnique p h [] a u = (refl, tt)
  append-IsUnique p h ((q, k) ∷ d) a u = (
    ground (arith, get-append_absent p q h d, text_beq_iff p q, text_beq_iff q p),
    append-IsUnique p h d (ground (arith, text_beq_iff q p)) u.1,
  )

  -- The test of `prefix` for a registered prefix.
  pub any-existing :
      (p : Text) (d : Dict Text H)
      → any (λ (existing, _). text_eq.same existing p) d ≡ false
      → get p d ≡ none
  any-existing p [] h = refl
  any-existing p ((q, k) ∷ d) h = ground (arith, any-existing p d)

  pub All_of_In :
      (P : Text × H → Type 0) (x : Text × H) (xs : List (Text × H)) → All P xs → In x xs → P x
  All_of_In P x [] h m = absurd m
  All_of_In P x (y ∷ ys) h (inl e) = subst P e h.0
  All_of_In P x (y ∷ ys) h (inr m) = All_of_In P x ys h.1 m
