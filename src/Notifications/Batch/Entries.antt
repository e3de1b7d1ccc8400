-- ===== src/Notifications/Batch/Entries.antt =====
-- What a look-up of a fingerprint finds after each step on the ledger.
use mathlib.Core.Option
use opatchy.Base.{
  Bool-cases, List, String, [], any, ap, arith, contains, eq_iff, false, if◌then◌else◌, inl, inr,
  map, refl, some, string_eq, true, ◌++◌, ◌==◌, ◌∙◌, ◌∷◌, ◌≡◌,
}
use opatchy.Models.{Datetime, LedgerEntry, PersistentState}
use opatchy.Notifications.Batch.{
  candidate_fingerprints, find_entry, is_superseded, lease_all, leased, owner_fingerprint,
  replace_entry, reserve_claimed, suppress, suppress_superseded, upsert,
}
use opatchy.Notifications.Types.{NotificationCandidate, NotificationKind}

-- A step on the entries that keeps their fingerprints.
pub find-map :
    (f : LedgerEntry → LedgerEntry)
    → ((e : LedgerEntry) → (f e).fingerprint ≡ e.fingerprint)
    → (k : String) (ledger : List LedgerEntry)
    → find_entry k (map f ledger) ≡ Option.map f (find_entry k ledger)
find-map f same k [] = refl
find-map f same k (e ∷ es) = ground (
  arith,
  ap (λ s. s == k) (same e),
  eq_iff e.fingerprint k,
  eq_iff (f e).fingerprint k,
  find-map f same k es,
)

replace_entry_ne :
    (k : String) (u : LedgerEntry) (ledger : List LedgerEntry)
    → (u.fingerprint == k) ≡ false
    → find_entry k (map (replace_entry u) ledger) ≡ find_entry k ledger
replace_entry_ne k u [] h = refl
replace_entry_ne k u (e ∷ es) h = ground (
  arith,
  eq_iff e.fingerprint u.fingerprint,
  eq_iff e.fingerprint k,
  eq_iff u.fingerprint k,
  replace_entry_ne k u es h,
)

replace_entry_self :
    (u : LedgerEntry) (ledger : List LedgerEntry)
    → any (λ e. e.fingerprint == u.fingerprint) ledger ≡ true
    → find_entry u.fingerprint (map (replace_entry u) ledger) ≡ some u
replace_entry_self u [] h = cc
replace_entry_self u (e ∷ es) h = ground (
  arith,
  eq_iff e.fingerprint u.fingerprint,
  eq_iff u.fingerprint u.fingerprint,
  replace_entry_self u es,
)

find-append_entry :
    (k : String) (u : LedgerEntry) (ledger : List LedgerEntry)
    → any (λ e. e.fingerprint == u.fingerprint) ledger ≡ false
    → find_entry k (ledger ++ u ∷ []) ≡ (if u.fingerprint == k then some u else find_entry k ledger)
find-append_entry k u [] h = refl
find-append_entry k u (e ∷ es) h = ground (
  arith,
  eq_iff e.fingerprint u.fingerprint,
  eq_iff e.fingerprint k,
  eq_iff u.fingerprint k,
  find-append_entry k u es,
)

-- After an upsert the look-up of its fingerprint finds the entry, and any other is as before.
pub find-upsert :
    (k : String) (u : LedgerEntry) (ledger : List LedgerEntry)
    → find_entry k (upsert ledger u) ≡ (if u.fingerprint == k then some u else find_entry k ledger)
unfolding upsert
find-upsert k u ledger = elim (Bool-cases (any (λ e. e.fingerprint == u.fingerprint) ledger)) [
  | inl present ↦ rw present (elim (Bool-cases (u.fingerprint == k)) [
    | inl same ↦
        rw (same) (rw (← (eq_iff u.fingerprint k).0 same) (replace_entry_self u ledger present))
    | inr other ↦ rw other (replace_entry_ne k u ledger other)
  ])
  | inr absent ↦ rw absent (find-append_entry k u ledger absent)
]

pub find-lease_all :
    (k : String) (ledger : List LedgerEntry) (cs : List NotificationCandidate) (now : Datetime)
    (token : String)
    → find_entry k (lease_all ledger cs now token) ≡ (
        if contains k (candidate_fingerprints cs)
        then some (leased k now token)
        else find_entry k ledger)
unfolding lease_all
find-lease_all k ledger [] now token = refl
find-lease_all k ledger (c ∷ cs) now token = ground (
  arith,
  find-lease_all k (upsert ledger (leased c.fingerprint now token)) cs now token,
  find-upsert k (leased c.fingerprint now token) ledger,
  eq_iff c.fingerprint k,
  eq_iff k c.fingerprint,
)

pub find-suppress_superseded :
    (k : String) (ledger : List LedgerEntry) (cs : List NotificationCandidate)
    → find_entry k (suppress_superseded ledger cs) ≡ Option.map (suppress cs) (find_entry k ledger)
unfolding suppress_superseded
find-suppress_superseded k ledger cs = find-map (suppress cs) (λ e. keeps e) k ledger
  where
    keeps : (e : LedgerEntry) → (suppress cs e).fingerprint ≡ e.fingerprint
    keeps e = elim (Bool-cases (is_superseded cs e)) [ inl h ↦ rw h | inr h ↦ rw h ]

-- After a reservation: the owner entry, the claimed entries, and the others, superseded or not.
pub find-reserve_claimed :
    (k : String) (state : PersistentState) (kind : NotificationKind) (c : NotificationCandidate)
    (cs : List NotificationCandidate) (now : Datetime) (token : String)
    → find_entry k (reserve_claimed state kind (c ∷ cs) now token).ledger ≡ (
        if owner_fingerprint kind == k
        then some (leased (owner_fingerprint kind) now token)
        else if contains k (candidate_fingerprints (c ∷ cs))
        then some (leased k now token)
        else Option.map (suppress (c ∷ cs)) (find_entry k state.ledger))
unfolding reserve_claimed
find-reserve_claimed k state kind c cs now token =
    let base = suppress_superseded state.ledger (c ∷ cs) in
    find-upsert k (leased (owner_fingerprint kind) now token) (lease_all base (c ∷ cs) now token)
    ∙ ap
        (λ found.
          if owner_fingerprint kind == k
          then some (leased (owner_fingerprint kind) now token)
          else found)
        (find-lease_all k base (c ∷ cs) now token
          ∙ ap
              (λ found.
                if contains k (candidate_fingerprints (c ∷ cs))
                then some (leased k now token)
                else found)
              (find-suppress_superseded k state.ledger (c ∷ cs)))
