-- ===== src/ScrapeOptimize/Oracle/Requests.antt =====
-- No user is asked for twice.
use add_members.Base.{
  ℕ, ◌+◌, ◌≡◌, ◌≢◌, refl, inl, inr, true, false, List, [], ◌∷◌, contains, nat_eq, nat_beq_iff,
  arith, if◌then◌else◌, All, length, Bool-cases, Distinct,
}
use add_members.ScrapeOptimize.Oracle.{
  Oracle, Reply, member, nobody, flood_wait, failed, mark_member, is_settled, is_member,
}
use add_members.ScrapeOptimize.Oracle.Answers.{contains-add}

-- What a caller does with the oracle.
pub data Call : Type 0 where
  mark : (uid : ℕ) → Call
  ask : (uid : ℕ) (reply : Reply) → Call

unfoldable pub step : Call → Oracle → Oracle
unfolding mark_member is_member
step (mark uid) o = mark_member uid o
step (ask uid reply) o = (is_member uid reply o).0

-- The users for whom a run of calls sends a request, in the order of the requests.
unfoldable pub requested : List Call → Oracle → List ℕ
unfolding step is_settled
requested [] o = []
requested (mark uid ∷ calls) o = requested calls (step (mark uid) o)
requested (ask uid reply ∷ calls) o =
    let rest = requested calls (step (ask uid reply) o) in
    if is_settled uid o then rest else uid ∷ rest

unfoldable pub run : List Call → Oracle → Oracle
unfolding step
run [] o = o
run (call ∷ calls) o = run calls (step call o)

abbrev pub asks : List Call → ℕ
asks [] = 0
asks (mark uid ∷ calls) = asks calls
asks (ask uid reply ∷ calls) = asks calls + 1

abbrev pub NoFlood : Call → Type 0
NoFlood (mark uid) = Unit
NoFlood (ask uid reply) = reply ≢ flood_wait

step_settled :
    (call : Call) (uid : ℕ) (o : Oracle)
    → is_settled uid o ≡ true
    → is_settled uid (step call o) ≡ true
unfolding step is_settled
step_settled (mark v) uid o h = ground (arith, contains-add v uid o.known_members)
step_settled (ask v member) uid o h = ground (arith, contains-add v uid o.known_members)
step_settled (ask v nobody) uid o h = ground (arith, contains-add v uid o.known_outsiders)
step_settled (ask v flood_wait) uid o h = ground arith
step_settled (ask v failed) uid o h = ground (arith, contains-add v uid o.known_outsiders)

ask_settles :
    (uid : ℕ) (reply : Reply) (o : Oracle)
    → reply ≢ flood_wait
    → is_settled uid (step (ask uid reply) o) ≡ true
unfolding step is_settled
ask_settles uid member o h =
    ground (arith, contains-add uid uid o.known_members, nat_beq_iff uid uid)
ask_settles uid nobody o h =
    ground (arith, contains-add uid uid o.known_outsiders, nat_beq_iff uid uid)
ask_settles uid flood_wait o h = absurd (h refl)
ask_settles uid failed o h =
    ground (arith, contains-add uid uid o.known_outsiders, nat_beq_iff uid uid)

-- A user who is settled is not asked for.
not_requested :
    (calls : List Call) (uid : ℕ) (o : Oracle)
    → is_settled uid o ≡ true
    → contains uid (requested calls o) ≡ false
unfolding requested
not_requested [] uid o h = refl
not_requested (mark v ∷ calls) uid o h =
    not_requested calls uid (step (mark v) o) (step_settled (mark v) uid o h)
not_requested (ask v reply ∷ calls) uid o h = ground (
  arith,
  not_requested calls uid (step (ask v reply) o) (step_settled (ask v reply) uid o h),
  nat_beq_iff v uid,
)

requested-Distinct_any :
    (calls : List Call) (o : Oracle) → All NoFlood calls → Distinct (requested calls o)
unfolding requested
requested-Distinct_any [] o h = tt
requested-Distinct_any (mark v ∷ calls) o h = requested-Distinct_any calls (step (mark v) o) h.1
requested-Distinct_any (ask v reply ∷ calls) o h = elim (Bool-cases (is_settled v o)) [
  | inl e ↦ rw e (requested-Distinct_any calls (step (ask v reply) o) h.1)
  | inr e ↦ rw e (
    not_requested calls v (step (ask v reply) o) (ask_settles v reply o h.0),
    requested-Distinct_any calls (step (ask v reply) o) h.1,
  )
]

step_counts :
    (uid : ℕ) (reply : Reply) (o : Oracle)
    → ((step (ask uid reply) o).requests_made
        ≡ (if is_settled uid o then o.requests_made else o.requests_made + 1))
      × ((step (ask uid reply) o).requests_made + (step (ask uid reply) o).requests_saved
          ≡ o.requests_made + o.requests_saved + 1)
unfolding step is_member is_settled
step_counts uid member o = ground arith
step_counts uid nobody o = ground arith
step_counts uid flood_wait o = ground arith
step_counts uid failed o = ground arith

requests_counted :
    (calls : List Call) (o : Oracle)
    → ((run calls o).requests_made ≡ o.requests_made + length (requested calls o))
      × ((run calls o).requests_made + (run calls o).requests_saved
          ≡ o.requests_made + o.requests_saved + asks calls)
unfolding run requested
requests_counted [] o = (omega arith, omega arith)
requests_counted (mark v ∷ calls) o = requests_counted calls (step (mark v) o)
requests_counted (ask v reply ∷ calls) o =
    ground (arith, requests_counted calls (step (ask v reply) o), step_counts v reply o)

-- In a run without FloodWait no user is asked for twice, however often and from however many
-- methods the question comes. The counters are right: `requests_made` grows by the number of
-- requests sent, and it grows together with `requests_saved` by the number of questions.
pub requested-Distinct :
    (calls : List Call) (o : Oracle)
    → All NoFlood calls
    → Distinct (requested calls o)
      × ((run calls o).requests_made ≡ o.requests_made + length (requested calls o))
      × ((run calls o).requests_made + (run calls o).requests_saved
          ≡ o.requests_made + o.requests_saved + asks calls)
requested-Distinct calls o h =
    let (made, both) = requests_counted calls o in (requested-Distinct_any calls o h, made, both)
