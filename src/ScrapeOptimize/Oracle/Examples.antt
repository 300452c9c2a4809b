-- ===== src/ScrapeOptimize/Oracle/Examples.antt =====
-- Tests and instances of the theorems.
use add_members.Base.{
  ℕ, ◌+◌, ◌≡◌, ◌≢◌, refl, Bool, true, List, [], ◌∷◌, length, All, nat_beq, Distinct, nat_eq,
}
use add_members.ScrapeOptimize.Oracle.{
  member, nobody, flood_wait, failed, new, mark_members, is_settled,
}
use add_members.ScrapeOptimize.Oracle.Requests
use add_members.ScrapeOptimize.Oracle.Requests.{Call, mark, ask}

marked : is_settled 8 (mark_members (7 ∷ 8 ∷ []) new) ≡ true
unfolding mark_members is_settled
marked = refl

failed_ne_flood : failed ≢ flood_wait
failed_ne_flood = λ e. cc

abbrev only_seven : ℕ → Bool
only_seven n = nat_beq n 7

abbrev questions : List Call
questions = ask 7 member ∷ ask 8 nobody ∷ mark 9 ∷ ask 7 failed ∷ ask 9 failed ∷ ask 8 member ∷ []

questions-NoFlood : All Requests.NoFlood questions
questions-NoFlood = ((λ e. cc), ((λ e. cc), (tt, ((λ e. cc), ((λ e. cc), ((λ e. cc), tt))))))

requested-Distinct_example :
    Distinct (Requests.requested questions new)
    × ((Requests.run questions new).requests_made
        ≡ new.requests_made + length (Requests.requested questions new))
    × ((Requests.run questions new).requests_made + (Requests.run questions new).requests_saved
        ≡ new.requests_made + new.requests_saved + Requests.asks questions)
requested-Distinct_example = Requests.requested-Distinct questions new questions-NoFlood
