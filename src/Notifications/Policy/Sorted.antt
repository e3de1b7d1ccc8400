-- ===== src/Notifications/Policy/Sorted.antt =====
-- Sorting the candidates makes up none.
use opatchy.Base.{Bool-cases, In, List, [], here, inl, inr, there, ◌∷◌}
use opatchy.Base.Members.{In-cons}
use opatchy.Notifications.Policy.{candidate_leb, insert_candidate, sort_candidates}
use opatchy.Notifications.Types.{NotificationCandidate}

In-insert_candidate :
    (c a : NotificationCandidate) (xs : List NotificationCandidate)
    → In c (insert_candidate a xs)
    → In c (a ∷ xs)
unfolding insert_candidate
In-insert_candidate c a [] m = m
In-insert_candidate c a (b ∷ bs) m = elim (Bool-cases (candidate_leb a b)) [
  | inl first ↦ rw (first, insert_candidate) at m
  | inr later ↦ elim (In-cons (rw (later, insert_candidate) at m)) [
    | inl same ↦ rw same (there here)
    | inr n ↦ elim (In-cons (In-insert_candidate c a bs n)) [
      | inl same ↦ rw same here
      | inr k ↦ there (there k)
    ]
  ]
]

pub In-sort_candidates :
    (c : NotificationCandidate) (xs : List NotificationCandidate)
    → In c (sort_candidates xs)
    → In c xs
unfolding sort_candidates
In-sort_candidates c [] m = m
In-sort_candidates c (x ∷ xs) m = elim (In-cons (In-insert_candidate c x (sort_candidates xs) m)) [
  | inl same ↦ rw same here
  | inr n ↦ there (In-sort_candidates c xs n)
]
