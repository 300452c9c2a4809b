-- ===== src/ScrapeApi/Examples.antt =====
-- Tests and instances of the theorems.
use add_members.Base.{ℕ, ◌≡◌, refl, true, none, some, Option, List, [], ◌∷◌, codes, arith}
use add_members.ScrapeApi.{
  Reply, page, flood, iter_message_reactors, Answer, users, iter_participants_search,
}
use add_members.ScrapeApi.Paging

-- A flood, a page with a channel among the peers, and a last page.
abbrev replies : List (Reply (Option ℕ))
replies =
    flood
    ∷ page (some 7 ∷ none ∷ some 8 ∷ []) ((7, codes "Ali") ∷ []) (some (codes "next"))
    ∷ page (some 9 ∷ []) [] none
    ∷ []

all_three :
    (iter_message_reactors 10 replies).yielded
    ≡ (7, some (codes "Ali")) ∷ (8, none) ∷ (9, none) ∷ []
unfolding iter_message_reactors
all_three = refl

only_two : (iter_message_reactors 2 replies).requests ≡ none ∷ none ∷ []
unfolding iter_message_reactors
only_two = refl

abbrev answers : List Answer
answers = users (1 ∷ 2 ∷ []) ∷ users (3 ∷ 4 ∷ []) ∷ users (5 ∷ []) ∷ []

found_five : (iter_participants_search 2 100 answers 0).found ≡ 1 ∷ 2 ∷ 3 ∷ 4 ∷ 5 ∷ []
unfolding iter_participants_search
found_five = refl

iter_participants_search_ends_example : (iter_participants_search 2 3 answers 0).ended ≡ true
iter_participants_search_ends_example =
    Paging.iter_participants_search_ends 2 3 answers (omega arith) (tt, (tt, (tt, tt)))
      (omega arith)
