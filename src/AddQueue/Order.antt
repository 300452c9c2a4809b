-- ===== src/AddQueue/Order.antt =====
-- The queue is a rearrangement, and the head of the queue keeps its members.
use add_members.Base.{
  ℕ, ◌≡◌, true, false, List, ◌++◌, Text, text_eq, ltb, take, drop, length, length-take, length-perm,
  take-append, text_beq_iff, ◌≢◌, take-append-drop, take_of_length-le, arith, subst,
}
use mathlib.Core.List.{Perm}
use mathlib.Core.List.Perm
use add_members.AddQueue.{max_mode_head_size, max_mode, split_shuffle, order_members_for_add}

module _ {A R : Type 0} (shuffle : R → List A → List A × R)
    (permutes : (rng : R) (xs : List A) → Perm (shuffle rng xs).0 xs) where
  -- The queue holds the members that `prefer_addable` returns, each as often, in every mode.
  pub order_members_for_add-perm :
      (members : List A) (add_mode : Text) (prefer_addable : List A → List A) (rng : R)
      → Perm
          (order_members_for_add shuffle members add_mode prefer_addable rng).0
          (prefer_addable members)
  unfolding order_members_for_add
  order_members_for_add-perm members add_mode prefer_addable rng =
      ground (
        arith,
        Perm.refl (prefer_addable members),
        permutes rng (prefer_addable members),
        split-perm,
      )
    where
      head : List A
      head = take max_mode_head_size (prefer_addable members)

      tail : List A
      tail = drop max_mode_head_size (prefer_addable members)

      split-perm :
          Perm
            ((shuffle rng head).0 ++ (shuffle (shuffle rng head).1 tail).0)
            (prefer_addable members)
      split-perm =
          subst (Perm _) (take-append-drop max_mode_head_size (prefer_addable members))
            (Perm.append (permutes rng head) (permutes (shuffle rng head).1 tail))

  take-shuffle-perm :
      (n : ℕ) (rng : R) (xs : List A)
      → ltb n (length xs) ≡ false
      → Perm (take n (shuffle rng xs).0) (take n xs)
  take-shuffle-perm n rng xs short =
      rw
        (
          take_of_length-le n xs (ground arith),
          take_of_length-le n (shuffle rng xs).0 (ground (arith, length-perm (permutes rng xs))),
        )
        (permutes rng xs)

  take-split_shuffle-perm :
      (n : ℕ) (rng : R) (xs : List A)
      → ltb n (length xs) ≡ true
      → Perm (take n (split_shuffle shuffle (shuffle rng (take n xs)) (drop n xs)).0) (take n xs)
  take-split_shuffle-perm n rng xs long =
      rw
        (take-append n (shuffle rng (take n xs)).0 _
          (ground (arith, length-perm (permutes rng (take n xs)), length-take n xs)))
        (permutes rng (take n xs))

  -- In every mode the first 800 of the queue are the first 800 that `prefer_addable` returns, in
  -- some order: the shuffle of mode `max` moves nobody over that border.
  pub take-order_members_for_add-perm :
      (members : List A) (add_mode : Text) (prefer_addable : List A → List A) (rng : R)
      → Perm
          (take max_mode_head_size
            (order_members_for_add shuffle members add_mode prefer_addable rng).0)
          (take max_mode_head_size (prefer_addable members))
  unfolding order_members_for_add
  take-order_members_for_add-perm members add_mode prefer_addable rng = ground (
    arith,
    Perm.refl (take max_mode_head_size (prefer_addable members)),
    take-shuffle-perm max_mode_head_size rng (prefer_addable members),
    take-split_shuffle-perm max_mode_head_size rng (prefer_addable members),
  )

  -- In every mode but `max` the queue is exactly what `prefer_addable` returns, and the generator
  -- is not used.
  pub order_members_for_add-ne_max :
      (members : List A) (add_mode : Text) (prefer_addable : List A → List A) (rng : R)
      → add_mode ≢ max_mode
      → order_members_for_add shuffle members add_mode prefer_addable rng
        ≡ (prefer_addable members, rng)
  unfolding order_members_for_add
  order_members_for_add-ne_max members add_mode prefer_addable rng other =
      ground (arith, text_beq_iff add_mode max_mode)
