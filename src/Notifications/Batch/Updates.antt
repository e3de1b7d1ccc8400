-- ===== src/Notifications/Batch/Updates.antt =====
-- The steps of a completion: what leaves the ledger, and what an entry of the batch becomes.
use opatchy.Base.{
  Bool, Bool-cases, In, List, Option, String, [], ap, arith, contains, eq_iff, false, filter,
  find_last, here, inl, inr, is_some, map, none, not, refl, some, string_eq, there, true, ◌==◌, ◌∷◌,
  ◌≡◌,
}
use opatchy.Models.{LedgerEntry, NotificationStatus}
use opatchy.Notifications.Batch.{
  NotificationBatch, delivery_status, find_entry, is_settled, settle, update_at, with_status,
}
use opatchy.Notifications.Types.{NotificationCandidate, NotificationChange}
use opatchy.Runner.{CommandResult}

pub find-filter_other :
    (o k : String) (ledger : List LedgerEntry)
    → (k == o) ≡ false
    → find_entry k (filter (λ e. not (e.fingerprint == o)) ledger) ≡ find_entry k ledger
find-filter_other o k [] h = refl
find-filter_other o k (e ∷ es) h =
    ground (
      arith,
      eq_iff e.fingerprint o,
      eq_iff e.fingerprint k,
      eq_iff k o,
      find-filter_other o k es h,
    )

pub find-filter_self :
    (o : String) (ledger : List LedgerEntry)
    → find_entry o (filter (λ e. not (e.fingerprint == o)) ledger) ≡ none
find-filter_self o [] = refl
find-filter_self o (e ∷ es) = ground (arith, find-filter_self o es)

with_status-fingerprint :
    (e : LedgerEntry) (o : Option NotificationStatus)
    → (with_status e o).fingerprint ≡ e.fingerprint
with_status-fingerprint e none = refl
with_status-fingerprint e (some status) = refl

pub settle-fingerprint :
    (batch : NotificationBatch) (result : CommandResult) (e : LedgerEntry)
    → (settle batch result e).fingerprint ≡ e.fingerprint
settle-fingerprint batch result e = elim (Bool-cases (is_settled batch result e)) [
  | inl h ↦ rw h (with_status-fingerprint e (update_at batch result e.fingerprint))
  | inr h ↦ rw h
]

find_last_of_In :
    {c : NotificationCandidate} {cs : List NotificationCandidate}
    → In c cs
    → is_some (find_last (λ d. d.fingerprint == c.fingerprint) cs) ≡ true
find_last_of_In {c} (here {xs}) = ground (arith, eq_iff c.fingerprint c.fingerprint)
find_last_of_In {c} (there m) = ground (arith, find_last_of_In m)

pub contains-completed :
    (p : LedgerEntry → Bool) (k : String) (e : LedgerEntry) (ledger : List LedgerEntry)
    → find_entry k ledger ≡ some e
    → p e ≡ true
    → contains k (map (λ x. x.fingerprint) (filter p ledger)) ≡ true
contains-completed p k e [] found h = cc
contains-completed p k e (x ∷ xs) found h = ground (
  arith,
  eq_iff x.fingerprint k,
  eq_iff k x.fingerprint,
  contains-completed p k e xs,
  λ (q : x ≡ e). ap p q,
)

-- The status that a delivery leaves does not depend on the change that was announced.
delivery_status_any :
    (result : CommandResult) (a b : NotificationChange)
    → delivery_status result a ≡ delivery_status result b
unfolding delivery_status
delivery_status_any (CommandResult.succeeded _) a b = refl
delivery_status_any _ a b = refl

pub update_at_status :
    (batch : NotificationBatch) (result : CommandResult) (c : NotificationCandidate)
    → In c batch.candidates
    → update_at batch result c.fingerprint ≡ some (delivery_status result c.change)
unfolding update_at
update_at_status batch result c m =
    go (find_last (λ d. d.fingerprint == c.fingerprint) batch.candidates) refl (find_last_of_In m)
  where
    go :
        (o : Option NotificationCandidate)
        → find_last (λ d. d.fingerprint == c.fingerprint) batch.candidates ≡ o
        → is_some (find_last (λ d. d.fingerprint == c.fingerprint) batch.candidates) ≡ true
        → update_at batch result c.fingerprint ≡ some (delivery_status result c.change)
    go none e h = absurd (cc (ap is_some e))
    go (some d) e h = rw (e, update_at) (ap some (delivery_status_any result d.change c.change))
