-- ===== src/ScrapeOptimize/Oracle/Answers.antt =====
-- The answers are stable and right.
use add_members.Base.{
  ℕ, ◌+◌, ◌≡◌, ◌≢◌, refl, Bool, true, false, List, contains, nat_eq, nat_beq, nat_beq_iff, arith,
  if◌then◌else◌,
}
use add_members.ScrapeOptimize.Oracle.{
  Oracle, Reply, member, nobody, flood_wait, failed, add, is_member,
}

pub contains-add :
    (uid other : ℕ) (ids : List ℕ)
    → contains other (add uid ids) ≡ (if nat_beq uid other then true else contains other ids)
contains-add uid other ids = ground (arith, nat_beq_iff uid other)

-- Asking again costs no request and gives the same answer, whatever Telegram would say by then;
-- only the counter of saved requests changes. This needs that the first question was not cut off
-- by a FloodWait: such an answer is not remembered.
pub is_member_twice :
    (uid : ℕ) (reply later : Reply) (o : Oracle)
    → reply ≢ flood_wait
    → is_member uid later (is_member uid reply o).0 ≡ (
      record (is_member uid reply o).0 {
        requests_saved = (is_member uid reply o).0.requests_saved + 1;
      },
      (is_member uid reply o).1,
    )
unfolding is_member
is_member_twice uid member later o h = ground (arith, nat_beq_iff uid uid)
is_member_twice uid nobody later o h = ground (arith, nat_beq_iff uid uid)
is_member_twice uid flood_wait later o h = absurd (h refl)
is_member_twice uid failed later o h = ground (arith, nat_beq_iff uid uid)

-- What the two sets say is true of the group.
abbrev pub IsTrue : (ℕ → Bool) → Oracle → Type 0
IsTrue group o =
    (uid : ℕ)
    → (contains uid o.known_members ≡ true → group uid ≡ true)
      × (contains uid o.known_outsiders ≡ true → group uid ≡ false)

-- The reply tells the truth about the user, or is a FloodWait.
abbrev pub Honest : (ℕ → Bool) → ℕ → Reply → Type 0
Honest group uid member = group uid ≡ true
Honest group uid nobody = group uid ≡ false
Honest group uid flood_wait = Unit
Honest group uid failed = group uid ≡ false

-- If what is known is true and the reply is honest, what is known stays true; the answer yes is
-- always true, and the answer no is true unless the reply was a FloodWait.
pub is_member-IsTrue :
    (group : ℕ → Bool) (uid : ℕ) (reply : Reply) (o : Oracle)
    → IsTrue group o
    → Honest group uid reply
    → IsTrue group (is_member uid reply o).0
      × ((is_member uid reply o).1 ≡ true → group uid ≡ true)
      × ((is_member uid reply o).1 ≡ false → reply ≢ flood_wait → group uid ≡ false)
unfolding is_member
is_member-IsTrue group uid member o t h = (
  λ v. (
    λ k. ground (arith, t v, contains-add uid v o.known_members, nat_beq_iff uid v),
    λ k. ground (arith, t v),
  ),
  λ k. ground (arith, t uid),
  λ k n. ground (arith, t uid),
)
is_member-IsTrue group uid nobody o t h = (
  λ v. (
    λ k. ground (arith, t v),
    λ k. ground (arith, t v, contains-add uid v o.known_outsiders, nat_beq_iff uid v),
  ),
  λ k. ground (arith, t uid),
  λ k n. ground (arith, t uid),
)
is_member-IsTrue group uid flood_wait o t h = (
  λ v. (λ k. ground (arith, t v), λ k. ground (arith, t v)),
  λ k. ground (arith, t uid),
  λ k n. absurd (n refl),
)
is_member-IsTrue group uid failed o t h = (
  λ v. (
    λ k. ground (arith, t v),
    λ k. ground (arith, t v, contains-add uid v o.known_outsiders, nat_beq_iff uid v),
  ),
  λ k. ground (arith, t uid),
  λ k n. ground (arith, t uid),
)
