-- ===== src/AddEngine/Joined/Confirmation.antt =====
-- When `confirm_joined` says yes.
use add_members.Base.{
  ℕ, zero, suc, ◌+◌, ◌≤◌, ◌<◌, ◌≡◌, refl, max, ◌↔◌, Text, codes, contains, text_eq, text_beq_iff,
  inl, inr, Bool, All, true, false, Option, none, some, List, [], ◌∷◌, Any, Option-cases, arith,
  Bool-cases, sym, subst, ◌∙◌, if◌then◌else◌,
}
use native.Mathlib.Decide.{ℕ_discrete}
use add_members.AddEngine.Joined.{
  Status, normalize_member_status, joined_statuses, not_joined_statuses, settles, ask_from,
  confirm_joined,
}

-- Some reply among the next `rounds` settles that the user is in, and those before it settle nothing.
abbrev Settled : (ℕ → Option Status) → ℕ → ℕ → Type 0
Settled reply rounds i =
    (k : ℕ) × (i ≤ k)
    × (k < i + rounds)
    × (settles (reply k) ≡ some true)
    × ((j : ℕ) → i ≤ j → j < k → settles (reply j) ≡ none)

ask_from-Settled :
    (reply : ℕ → Option Status) (rounds i : ℕ)
    → (ask_from reply rounds i ≡ true) ↔ Settled reply rounds i
unfolding ask_from
ask_from-Settled reply zero i = (λ h. cc, λ (k, a, b, c, d). absurd (omega arith))
ask_from-Settled reply (suc rounds) i = elim (Option-cases (settles (reply i))) [
  | inl e ↦ (
    λ h.
        let (k, a, b, c, d) = (ask_from-Settled reply rounds (i + 1)).0 (rw (e, ask_from) at h) in
        (
          k,
          omega arith,
          omega arith,
          c,
          λ j l u. elim (ℕ_discrete i j) [
            | yes p ↦ subst (λ n. settles (reply n) ≡ none) p e
            | no p ↦ d j (omega arith) u
          ],
        ),
    λ (k, a, b, c, d). elim (ℕ_discrete i k) [
      | yes p ↦
          let c' : settles (reply i) ≡ some true =
            subst (λ n. settles (reply n) ≡ some true) (sym p) c in
          cc
      | no p ↦
          rw (e, ask_from)
            ((ask_from-Settled reply rounds (i + 1)).1
              (k, omega arith, omega arith, c, λ j l u. d j (omega arith) u))
    ],
  )
  | inr (true, e) ↦
      (λ h. (i, omega arith, omega arith, e, λ j l u. absurd (omega arith)), λ c. ground (arith, e))
  | inr (false, e) ↦ (
    λ h. let h' : false ≡ true = rw (e, ask_from) at h in cc,
    λ (k, a, b, c, d). elim (ℕ_discrete i k) [
      | yes p ↦
          let c' : settles (reply i) ≡ some true =
            subst (λ n. settles (reply n) ≡ some true) (sym p) c in
          cc
      | no p ↦ let c' : settles (reply i) ≡ none = d i (omega arith) (omega arith) in cc
    ],
  )
]

contains-Any : (t : Text) (words : List Text) → (contains t words ≡ true) ↔ Any (λ w. w ≡ t) words
contains-Any t [] = (λ h. cc, λ h. absurd h)
contains-Any t (w ∷ words) = elim (Bool-cases (text_eq.same w t)) [
  | inl e ↦ (λ h. inl ((text_beq_iff w t).0 e), λ h. ground (arith, e))
  | inr e ↦ (
    λ h. inr ((contains-Any t words).0 (rw e at h)),
    λ h. elim h [
      | inl f ↦ ground (arith, text_beq_iff w t)
      | inr k ↦ rw e ((contains-Any t words).1 k)
    ],
  )
]

-- The reply says that the user is in the group.
abbrev pub Inside : Option Status → Type 0
Inside none = false ≡ true
Inside (some status) =
    Any (λ word. word ≡ normalize_member_status status)
      (codes "member"
        ∷ codes "administrator"
        ∷ codes "creator"
        ∷ codes "owner"
        ∷ codes "admin"
        ∷ codes "restricted"
        ∷ [])

-- The reply says that the user has left the group, or was banned or kicked.
abbrev pub Outside : Option Status → Type 0
Outside none = false ≡ true
Outside (some status) =
    Any (λ word. word ≡ normalize_member_status status)
      (codes "left" ∷ codes "banned" ∷ codes "kicked" ∷ codes "restricted_banned" ∷ [])

-- A status inside the group, after replies that were exceptions or said nothing of both.
abbrev pub Confirms : (ℕ → Option Status) → ℕ → Type 0
Confirms reply rounds =
    (k : ℕ) × (k < rounds)
    × Inside (reply k)
    × ((j : ℕ) → j < k → ¬ Inside (reply j) × ¬ Outside (reply j))

not_true : {P : Type 0} {b : Bool} → ¬ P → (b ≡ true) ↔ P → b ≡ false
not_true {b = true} h e = absurd (h (e.0 refl))
not_true {b = false} h e = refl

Any-contains :
    (t : Text) (words others : List Text)
    → All (λ w. contains w others ≡ false) words
    → Any (λ w. w ≡ t) words
    → contains t others ≡ false
Any-contains t [] others a h = absurd h
Any-contains t (w ∷ words) others a (inl e) = subst (λ u. contains u others ≡ false) e a.0
Any-contains t (w ∷ words) others a (inr h) = Any-contains t words others a.1 h

joined_only :
    (t : Text) → contains t joined_statuses ≡ true → contains t not_joined_statuses ≡ false
joined_only t h =
    Any-contains t joined_statuses not_joined_statuses
      (refl, (refl, (refl, (refl, (refl, (refl, tt)))))) ((contains-Any t joined_statuses).0 h)

not_both : (r : Option Status) → Inside r → ¬ Outside r
not_both none h k = cc
not_both (some status) h k =
    let t : Text = normalize_member_status status in
    let j : contains t joined_statuses ≡ true = (contains-Any t joined_statuses).1 h in
    let n : contains t not_joined_statuses ≡ true = (contains-Any t not_joined_statuses).1 k in
    let o : contains t not_joined_statuses ≡ false = joined_only t j in cc

answer : Bool → Bool → Option Bool
answer out inside = if out then some false else if inside then some true else none

answer-true :
    (out inside : Bool)
    → (inside ≡ true → out ≡ false)
    → (answer out inside ≡ some true) ↔ (inside ≡ true)
unfolding answer
answer-true out inside h = elim (Bool-cases inside) [
  | inl e ↦ rw (e, h e, answer) (λ x. refl, λ x. refl)
  | inr e ↦ (λ x. ground (arith, x), λ x. ground arith)
]

answer-none : (out inside : Bool) → (answer out inside ≡ none) ↔ ((inside ≡ false) × (out ≡ false))
unfolding answer
answer-none out inside = (λ x. ground (arith, x), λ x. ground (arith, x))

settles-answer :
    (status : Status)
    → settles (some status)
      ≡ answer
          (contains (normalize_member_status status) not_joined_statuses)
          (contains (normalize_member_status status) joined_statuses)
unfolding settles answer
settles-answer status = refl

settles-true : (r : Option Status) → (settles r ≡ some true) ↔ Inside r
unfolding settles
settles-true none = (λ h. cc, λ h. cc)
settles-true (some status) =
    let t : Text = normalize_member_status status in
    let a : _ =
      answer-true (contains t not_joined_statuses) (contains t joined_statuses) (joined_only t) in
    (
      λ h. (contains-Any t joined_statuses).0 (a.0 (sym (settles-answer status) ∙ h)),
      λ h. settles-answer status ∙ a.1 ((contains-Any t joined_statuses).1 h),
    )

settles-none : (r : Option Status) → (settles r ≡ none) ↔ (¬ Inside r × ¬ Outside r)
unfolding settles
settles-none none = (λ h. (λ k. cc, λ k. cc), λ h. refl)
settles-none (some status) =
    let t : Text = normalize_member_status status in
    let a : _ = answer-none (contains t not_joined_statuses) (contains t joined_statuses) in
    (
      λ h.
          let (i, o) = a.0 (sym (settles-answer status) ∙ h) in
          (
            λ k. let j : _ = (contains-Any t joined_statuses).1 k in cc,
            λ k. let j : _ = (contains-Any t not_joined_statuses).1 k in cc,
          ),
      λ (i, o).
          settles-answer status
          ∙ a.1 (
            not_true i (contains-Any t joined_statuses),
            not_true o (contains-Any t not_joined_statuses),
          ),
    )

-- An addition is confirmed exactly when one of the first `max(1, retries)` replies gives a status
-- inside the group (member, administrator, creator, owner, admin, restricted) and every reply before
-- it is an exception or has a status that is neither inside nor outside the group (left, banned,
-- kicked, restricted_banned). A reply never has a status that is both.
pub confirm_joined-Confirms :
    (reply : ℕ → Option Status) (retries : ℕ)
    → ((confirm_joined reply retries ≡ true) ↔ Confirms reply (max 1 retries))
      × ((i : ℕ) → Inside (reply i) → ¬ Outside (reply i))
unfolding confirm_joined
confirm_joined-Confirms reply retries =
    let s : (ask_from reply (max 1 retries) 0 ≡ true) ↔ Settled reply (max 1 retries) 0 =
      ask_from-Settled reply (max 1 retries) 0 in
    (
      (
        λ h.
            let (k, a, b, c, d) = s.0 h in
            (
              k,
              omega arith,
              (settles-true (reply k)).0 c,
              λ j u. (settles-none (reply j)).0 (d j (omega arith) u),
            ),
        λ (k, b, c, d). s.1 (
          k,
          omega arith,
          omega arith,
          (settles-true (reply k)).1 c,
          λ j l u. (settles-none (reply j)).1 (d j u),
        ),
      ),
      λ i. not_both (reply i),
    )
