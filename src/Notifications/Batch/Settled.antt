-- ===== src/Notifications/Batch/Settled.antt =====
-- An entry that is no longer pending is neither claimed again nor changed by a claim.
use opatchy.Base.{
  Bool, Bool-cases, List, String, [], ap, arith, contains, eq_iff, false, filter, inl, inr, refl,
  some, string_eq, sym, ◌∙◌, ◌∷◌, ◌≡◌, ◌≢◌,
}
use opatchy.Base.Unique.{eq_false}
use opatchy.Models.{Datetime, LedgerEntry, PersistentState}
use opatchy.Notifications.Batch.{
  NotificationBatch, batch_of, candidate_fingerprints, claim_batch, claimable, claimed_candidates,
  find_entry, owned_by, owned_candidates, owner_fingerprint, pending, reserve_batch, suppress,
}
use opatchy.Notifications.Batch.Entries.{find-reserve_claimed}
use opatchy.Notifications.Batch.Leases.{IsFresh, owned_by-fresh, reserve_batch-cases}
use opatchy.Notifications.Types.{NotificationCandidate, NotificationKind}

-- A filter on the fingerprint leaves out every candidate with a fingerprint that it rejects.
pub filtered_out :
    (p : String → Bool) (k : String) (cs : List NotificationCandidate)
    → p k ≡ false
    → contains k (candidate_fingerprints (filter (λ c. p c.fingerprint) cs)) ≡ false
filtered_out p k [] h = refl
filtered_out p k (c ∷ cs) h = elim (Bool-cases (p c.fingerprint)) [
  | inl kept ↦ rw kept (
      ground (
        arith,
        eq_iff k c.fingerprint,
        filtered_out p k cs h,
        λ (same : k ≡ c.fingerprint). sym (rw same at h) ∙ kept,
      ))
  | inr dropped ↦ rw dropped (filtered_out p k cs h)
]

suppress_settled :
    (cs : List NotificationCandidate) (e : LedgerEntry)
    → pending e.status ≡ false
    → suppress cs e ≡ e
unfolding pending
suppress_settled cs e h = ground arith

claimable_settled :
    (e : LedgerEntry) (now : Datetime) → pending e.status ≡ false → claimable (some e) now ≡ false
unfolding claimable
claimable_settled e now h = rw h

module _ (state : PersistentState) (kind : NotificationKind) (cs : List NotificationCandidate)
    (now : Datetime) (token k : String) (e : LedgerEntry)
    (found : find_entry k state.ledger ≡ some e) (settled : pending e.status ≡ false)
    (ordinary : k ≢ owner_fingerprint kind) where
  not_claimed : contains k (candidate_fingerprints (claimed_candidates state cs now)) ≡ false
  unfolding claimed_candidates
  not_claimed =
      filtered_out (λ f. claimable (find_entry f state.ledger) now) k cs
        (rw found (claimable_settled e now settled))

  find-reserve_settled : find_entry k (reserve_batch state kind cs now token).ledger ≡ some e
  find-reserve_settled = elim (reserve_batch-cases state kind cs now token) [
    | inl same ↦ rw same found
    | inr (c, rest, claimed, same) ↦
        let absent : contains k (candidate_fingerprints (c ∷ rest)) ≡ false =
          rw claimed at not_claimed in
        rw same (
          find-reserve_claimed k state kind c rest now token
          ∙ rw (eq_false (owner_fingerprint kind) k (λ p. ordinary (sym p)))
              (rw absent (rw found (ap some (suppress_settled (c ∷ rest) e settled)))))
  ]

  not_owned :
      IsFresh token state.ledger
      → contains k (
          candidate_fingerprints
            (owned_candidates (reserve_batch state kind cs now token) cs token))
        ≡ false
  unfolding owned_candidates
  not_owned fresh =
      filtered_out
        (λ f. owned_by (find_entry f (reserve_batch state kind cs now token).ledger) token) k cs
        (rw find-reserve_settled (rw found at (owned_by-fresh k token state.ledger fresh)))

pub batch_candidates :
    (s : PersistentState) (kind : NotificationKind) (claimed : List NotificationCandidate)
    (token : String) (batch : NotificationBatch)
    → batch_of s kind claimed token ≡ some batch
    → (batch.candidates ≡ claimed) × (batch.kind ≡ kind) × (batch.lease_token ≡ token)
unfolding batch_of
batch_candidates s kind claimed token batch h = ground arith

-- A claim under a new token leaves an entry that is delivered, failed or suppressed as it was, and
-- its batch holds no candidate with the fingerprint of the entry. (The entry is not the owner entry.)
pub settled_stays_settled :
    (state : PersistentState) (kind : NotificationKind) (cs : List NotificationCandidate)
    (now : Datetime) (token k : String) (e : LedgerEntry) (batch : NotificationBatch)
    → find_entry k state.ledger ≡ some e
    → pending e.status ≡ false
    → k ≢ owner_fingerprint kind
    → IsFresh token state.ledger
    → (claim_batch state kind cs now token).1 ≡ some batch
    → (find_entry k (claim_batch state kind cs now token).0.ledger ≡ some e)
      × (contains k (candidate_fingerprints batch.candidates) ≡ false)
unfolding claim_batch
settled_stays_settled state kind cs now token k e batch found settled ordinary fresh h =
    let (same, _, _) = batch_candidates _ kind _ token batch h in
    (
      find-reserve_settled state kind cs now token k e found settled ordinary,
      rw same (not_owned state kind cs now token k e found settled ordinary fresh),
    )
