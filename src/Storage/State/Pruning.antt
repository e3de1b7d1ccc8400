-- ===== src/Storage/State/Pruning.antt =====
-- What a write prunes from the ledger.
use opatchy.Base.{
  Bool-cases, In, List, [], arith, filter, here, inl, inr, length, suc, take, there, true, zero, ℕ,
  ◌++◌, ◌+◌, ◌∷◌, ◌≡◌, ◌≤◌, ◌⊎◌,
}
use opatchy.Base.Members.{In-append, In-append_left, In-cons, In-filter, test_of_In-filter}
use opatchy.Models.{Datetime, LedgerEntry, PersistentState, is_active}
use opatchy.Storage.State.{
  insert_entry, is_recent, max_inactive_ledger_age, max_inactive_ledger_entries, newest_first,
  not_older, prune_ledger,
}

In-insert_entry :
    (e a : LedgerEntry) (xs : List LedgerEntry) → In e (insert_entry a xs) → In e (a ∷ xs)
unfolding insert_entry
In-insert_entry e a [] m = m
In-insert_entry e a (b ∷ bs) m = elim (Bool-cases (not_older a b)) [
  | inl first ↦ rw (first, insert_entry) at m
  | inr later ↦ elim (In-cons (rw (later, insert_entry) at m)) [
    | inl same ↦ rw same (there here)
    | inr n ↦ elim (In-cons (In-insert_entry e a bs n)) [
      | inl same ↦ rw same here
      | inr k ↦ there (there k)
    ]
  ]
]

pub In-newest_first : (e : LedgerEntry) (xs : List LedgerEntry) → In e (newest_first xs) → In e xs
unfolding newest_first
In-newest_first e [] m = m
In-newest_first e (x ∷ xs) m = elim (In-cons (In-insert_entry e x (newest_first xs) m)) [
  | inl same ↦ rw same here
  | inr n ↦ there (In-newest_first e xs n)
]

pub In-take {ℓ} : {A : Type ℓ} {a : A} (n : ℕ) (xs : List A) → In a (take n xs) → In a xs
In-take zero xs m = elim m [ ]
In-take (suc n) [] m = m
In-take (suc n) (x ∷ xs) m = elim (In-cons m) [
  | inl same ↦ rw same here
  | inr k ↦ there (In-take n xs k)
]

length-take {ℓ} : {A : Type ℓ} (n : ℕ) (xs : List A) → length (take n xs) ≤ n
length-take zero xs = omega arith
length-take (suc n) [] = omega arith
length-take (suc n) (x ∷ xs) = omega (arith, length-take n xs)

length-append {ℓ} : {A : Type ℓ} (xs ys : List A) → length (xs ++ ys) ≡ length xs + length ys
length-append [] ys = omega arith
length-append (x ∷ xs) ys = omega (arith, length-append xs ys)

recent_age :
    (now : Datetime) (e : LedgerEntry)
    → is_recent now e ≡ true
    → now ≤ e.recorded_at + max_inactive_ledger_age
recent_age now e h = ground arith

-- Pruning keeps every active entry. What else it keeps stood in the ledger, is at most 180 days old,
-- and numbers at most 5000.
pub prune_ledger_lem :
    (state : PersistentState) (now : Datetime)
    → ((e : LedgerEntry)
        → In e state.ledger
        → is_active e ≡ true
        → In e (prune_ledger state now).ledger)
      × ((e : LedgerEntry)
          → In e (prune_ledger state now).ledger
          → In e state.ledger
            × ((is_active e ≡ true) ⊎ (now ≤ e.recorded_at + max_inactive_ledger_age)))
      × (length (prune_ledger state now).ledger
          ≤ length (filter is_active state.ledger) + max_inactive_ledger_entries)
unfolding prune_ledger
prune_ledger_lem state now =
    let active = filter is_active state.ledger in
    let sorted = newest_first (filter (is_recent now) state.ledger) in
    (
      λ e m h. In-append_left _ (In-filter is_active m h),
      λ e m. elim (In-append active (take max_inactive_ledger_entries sorted) m) [
        | inl kept ↦ let (h, i) = test_of_In-filter is_active e state.ledger kept in (i, inl h)
        | inr old ↦
            let (h, i) =
              test_of_In-filter (is_recent now) e state.ledger
                (In-newest_first e _ (In-take max_inactive_ledger_entries sorted old)) in
            (i, inr (recent_age now e h))
      ],
      omega (
        arith,
        length-append active (take max_inactive_ledger_entries sorted),
        length-take max_inactive_ledger_entries sorted,
      ),
    )
