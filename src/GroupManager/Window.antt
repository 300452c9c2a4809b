-- ===== src/GroupManager/Window.antt =====
-- group_manager.py: a deque of dated entries, of which the old ones are dropped at the left end.
-- The raid detection and the flood detection both keep such a deque.
use add_members.Base.{
  ℕ, ◌+◌, ◌≡◌, ◌≤◌, refl, Bool, List, [], ◌∷◌, ◌++◌, ltb, leb, if◌then◌else◌, All, keep_if, arith,
  Bool-cases, inl, inr,
}

module _ {A : Type 0} (time_of : A → ℕ) where
  -- `while dq and now - dq[0] > window: dq.popleft()`
  unfoldable pub drop_old : ℕ → ℕ → List A → List A
  drop_old now window [] = []
  drop_old now window (x ∷ dq) =
      let rest = drop_old now window dq in if ltb (time_of x + window) now then rest else x ∷ dq

  -- The entry is in the window that ends now.
  abbrev pub is_recent : ℕ → ℕ → A → Bool
  is_recent now window x = leb now (time_of x + window)

  -- The dates do not fall.
  abbrev pub IsDated : List A → Type 0
  IsDated [] = Unit
  IsDated (x ∷ dq) = All (λ y. time_of x ≤ time_of y) dq × IsDated dq

  keep_if-All_recent :
      (now window t : ℕ) (dq : List A)
      → now ≤ t + window
      → All (λ y. t ≤ time_of y) dq
      → keep_if (is_recent now window) dq ≡ dq
  keep_if-All_recent now window t [] h all = refl
  keep_if-All_recent now window t (y ∷ dq) h all =
      ground (arith, keep_if-All_recent now window t dq h all.1, all.0)

  -- On a deque in the order of its dates, dropping at the left end leaves exactly what is recent.
  pub drop_old-keep_if :
      (now window : ℕ) (dq : List A)
      → IsDated dq
      → drop_old now window dq ≡ keep_if (is_recent now window) dq
  unfolding drop_old
  drop_old-keep_if now window [] d = refl
  drop_old-keep_if now window (x ∷ dq) d = elim (Bool-cases (ltb (time_of x + window) now)) [
    | inl e ↦ ground (arith, drop_old-keep_if now window dq d.1)
    | inr e ↦ ground (arith, keep_if-All_recent now window (time_of x) dq (ground arith) d.0)
  ]

  pub drop_old-IsDated :
      (now window : ℕ) (dq : List A) → IsDated dq → IsDated (drop_old now window dq)
  unfolding drop_old
  drop_old-IsDated now window [] d = tt
  drop_old-IsDated now window (x ∷ dq) d = elim (Bool-cases (ltb (time_of x + window) now)) [
    | inl e ↦ rw e (drop_old-IsDated now window dq d.1)
    | inr e ↦ rw e d
  ]

  pub append-IsDated :
      (x : A) (dq : List A)
      → IsDated dq
      → All (λ y. time_of y ≤ time_of x) dq
      → IsDated (dq ++ (x ∷ []))
  append-IsDated x [] d h = (tt, tt)
  append-IsDated x (y ∷ dq) d h = (at dq d.0, append-IsDated x dq d.1 h.1)
    where
      at :
          (ys : List A)
          → All (λ z. time_of y ≤ time_of z) ys
          → All (λ z. time_of y ≤ time_of z) (ys ++ (x ∷ []))
      at [] all = (h.0, tt)
      at (z ∷ ys) all = (all.0, at ys all.1)
