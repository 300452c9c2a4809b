-- ===== src/ScrapeApi/Paging.antt =====
-- How much the generators yield, and that the search ends.
use add_members.Base.{
  ℕ, ◌+◌, ◌≡◌, ◌≤◌, ◌<◌, refl, true, false, Option, none, some, List, [], ◌∷◌, Text, Dict, nat_eq,
  leb, length, length-append, All, arith, Bool-cases, inl, inr, Option-cases,
}
use add_members.ScrapeApi.{
  Reply, page, flood, failed, yield_page, iter_pages, iter_message_reactors, iter_poll_voters,
  peer_user_id, vote_user_id, Answer, users, busy, refused, iter_participants_search,
}

module _ {E : Type 0} (uid_of : E → Option ℕ) (max_total : ℕ) where
  yield_page_bound :
      (us : Dict ℕ Text) (entries : List E) (seen : ℕ)
      → seen < max_total
      → (length (yield_page uid_of max_total us entries seen).0 + seen
          ≡ (yield_page uid_of max_total us entries seen).1)
        × ((yield_page uid_of max_total us entries seen).1 ≤ max_total)
        × ((yield_page uid_of max_total us entries seen).2 ≡ false
            → (yield_page uid_of max_total us entries seen).1 < max_total)
  unfolding yield_page
  yield_page_bound us [] seen h = (omega arith, omega arith, λ e. h)
  yield_page_bound us (entry ∷ entries) seen h = elim (Option-cases (uid_of entry)) [
    | inl e ↦
        let (same, bound, below) = yield_page_bound us entries seen h in
        (ground (arith, same), ground (arith, bound), λ k. ground (arith, below (ground arith)))
    | inr (uid, e) ↦ elim (Bool-cases (leb max_total (seen + 1))) [
      | inl f ↦ (ground arith, ground arith, λ k. ground arith)
      | inr f ↦
          let (same, bound, below) = yield_page_bound us entries (seen + 1) (ground arith) in
          (ground (arith, same), ground (arith, bound), λ k. ground (arith, below (ground arith)))
    ]
  ]

  iter_pages_bound :
      (replies : List (Reply E)) (offset : Option Text) (seen : ℕ)
      → seen < max_total
      → length (iter_pages uid_of max_total replies offset seen).yielded + seen ≤ max_total
  unfolding iter_pages
  iter_pages_bound [] offset seen h = omega arith
  iter_pages_bound (flood ∷ replies) offset seen h = iter_pages_bound replies offset seen h
  iter_pages_bound (failed ∷ replies) offset seen h = omega arith
  iter_pages_bound (page [] us next_offset ∷ replies) offset seen h = omega arith
  iter_pages_bound (page (entry ∷ entries) us none ∷ replies) offset seen h =
      let (same, bound, below) = yield_page_bound us (entry ∷ entries) seen h in
      omega (arith, same, bound)
  iter_pages_bound (page (entry ∷ entries) us (some next) ∷ replies) offset seen h =
      let here = yield_page uid_of max_total us (entry ∷ entries) seen in
      let (same, bound, below) = yield_page_bound us (entry ∷ entries) seen h in
      elim (Bool-cases here.2) [
        | inl e ↦ rw e (omega (arith, same, bound))
        | inr e ↦
            let rest = iter_pages_bound replies (some next) here.1 (below e) in
            rw e (
              omega (
                arith,
                length-append here.0
                    (iter_pages uid_of max_total replies (some next) here.1).yielded,
                same,
                rest,
              ))
      ]

-- The readers of reactions and of votes yield at most `max_total` users, whatever Telegram replies.
pub iter_pages_max :
    (max_total : ℕ) (replies : List (Reply (Option ℕ))) (votes : List (Reply (Option ℕ × Option ℕ)))
    → 1 ≤ max_total
    → (length (iter_message_reactors max_total replies).yielded ≤ max_total)
      × (length (iter_poll_voters max_total votes).yielded ≤ max_total)
unfolding iter_message_reactors iter_poll_voters
iter_pages_max max_total replies votes h = (
  omega (arith, iter_pages_bound peer_user_id max_total replies none 0 (omega arith)),
  omega (arith, iter_pages_bound vote_user_id max_total votes none 0 (omega arith)),
)

-- An answer that is no flood.
abbrev pub IsAnswer : Answer → Type 0
IsAnswer busy = ⊥
IsAnswer _ = Unit

search_ends :
    (limit max_total offset : ℕ) (answers : List Answer)
    → 1 ≤ limit
    → All IsAnswer answers
    → max_total ≤ offset + length answers
    → (iter_participants_search limit max_total answers offset).ended ≡ true
unfolding iter_participants_search
search_ends limit max_total offset [] h all long = ground arith
search_ends limit max_total offset (busy ∷ answers) h all long = absurd all.0
search_ends limit max_total offset (refused ∷ answers) h all long = refl
search_ends limit max_total offset (users [] ∷ answers) h all long = refl
search_ends limit max_total offset (users (u ∷ us) ∷ answers) h all long = ground (
  arith,
  search_ends limit max_total (offset + length (u ∷ us)) answers h all.1 (omega (arith, long)),
)

-- The search for members ends: `max_total` answers that are no floods are enough, for a page size
-- that is not 0.
pub iter_participants_search_ends :
    (limit max_total : ℕ) (answers : List Answer)
    → 1 ≤ limit
    → All IsAnswer answers
    → max_total ≤ length answers
    → (iter_participants_search limit max_total answers 0).ended ≡ true
iter_participants_search_ends limit max_total answers h all long =
    search_ends limit max_total 0 answers h all (omega (arith, long))
