-- ===== src/Notifications/Batch/Completion.antt =====
-- Completing a batch: every candidate is settled and reported, and the lease is released.
use mathlib.Core.Option
use opatchy.Base.{
  In, List, Option, String, ap, contains, false, filter, map, none, refl, some, string_eq, true,
  ◌==◌, ◌∙◌, ◌≡◌, ◌≢◌,
}
use opatchy.Base.Members.{filter_all, test_of_In-filter}
use opatchy.Base.Unique.{eq_false, key_of_find}
use opatchy.Models.{Datetime, LedgerEntry, NotificationOutcome, PersistentState}
use opatchy.Notifications.Batch.{
  NotificationBatch, claim_batch, complete_batch, complete_state, completed_fingerprints,
  delivery_status, find_entry, is_settled, owned_by, owned_candidates, owner_fingerprint,
  owns_owner, reserve_batch, settle, settled_ledger, update_at,
}
use opatchy.Notifications.Batch.Entries.{find-map}
use opatchy.Notifications.Batch.Leases.{claim_batch-owns}
use opatchy.Notifications.Batch.Settled.{batch_candidates}
use opatchy.Notifications.Batch.Updates.{
  contains-completed, find-filter_other, find-filter_self, settle-fingerprint, update_at_status,
}
use opatchy.Notifications.Types.{NotificationCandidate, NotificationKind}
use opatchy.Runner.{CommandResult}

module _ (s : PersistentState) (batch : NotificationBatch) (result : CommandResult)
    (owns : owns_owner s batch.kind batch.lease_token ≡ true) where
  complete_state-owner : complete_state s batch result ≡ (
    record s { ledger = settled_ledger s.ledger batch result },
    completed_fingerprints s.ledger batch result,
  )
  unfolding complete_state
  complete_state-owner = rw owns

  find-settled_ledger :
      (k : String)
      → (k == owner_fingerprint batch.kind) ≡ false
      → find_entry k (settled_ledger s.ledger batch result)
        ≡ Option.map (settle batch result) (find_entry k s.ledger)
  unfolding settled_ledger
  find-settled_ledger k ordinary =
      find-map (settle batch result) (settle-fingerprint batch result) k _
      ∙ ap (Option.map (settle batch result))
          (find-filter_other (owner_fingerprint batch.kind) k s.ledger ordinary)

  owner_released :
      find_entry (owner_fingerprint batch.kind) (settled_ledger s.ledger batch result) ≡ none
  unfolding settled_ledger
  owner_released =
      find-map (settle batch result) (settle-fingerprint batch result)
        (owner_fingerprint batch.kind) _
      ∙ ap (Option.map (settle batch result))
          (find-filter_self (owner_fingerprint batch.kind) s.ledger)

  module _ (c : NotificationCandidate) (listed : In c batch.candidates) (e : LedgerEntry)
      (found : find_entry c.fingerprint s.ledger ≡ some e)
      (owned : owned_by (some e) batch.lease_token ≡ true) where
    update_at_entry : update_at batch result e.fingerprint ≡ some (delivery_status result c.change)
    update_at_entry =
        rw (key_of_find (λ x. x.fingerprint) c.fingerprint s.ledger e found)
          (update_at_status batch result c listed)

    entry_is_settled : is_settled batch result e ≡ true
    entry_is_settled = rw update_at_entry owned

    settle_entry : settle batch result e ≡ record e {
      status = delivery_status result c.change;
      lease_token = none;
      lease_expires_at = none;
    }
    settle_entry = rw entry_is_settled (rw update_at_entry refl)

abbrev pub outcome_of : CommandResult → NotificationCandidate → NotificationOutcome
outcome_of result candidate = record {
  fingerprint = candidate.fingerprint;
  status = delivery_status result candidate.change;
}

-- The batch is the one whose token holds the leases in the state.
pub record IsHeld (s : PersistentState) (batch : NotificationBatch) : Type 0 where
  pub owner : owns_owner s batch.kind batch.lease_token ≡ true
  pub entries :
      (c : NotificationCandidate)
      → In c batch.candidates
      → owned_by (find_entry c.fingerprint s.ledger) batch.lease_token ≡ true

owned_entry :
    (o : Option LedgerEntry) (token : String)
    → owned_by o token ≡ true
    → (e : LedgerEntry) × (o ≡ some e) × (owned_by (some e) token ≡ true)
unfolding owned_by
owned_entry none token h = cc
owned_entry (some e) token h = (e, refl, h)

pub claim_batch-IsHeld :
    (state : PersistentState) (kind : NotificationKind) (cs : List NotificationCandidate)
    (now : Datetime) (token : String) (batch : NotificationBatch)
    → (claim_batch state kind cs now token).1 ≡ some batch
    → IsHeld (claim_batch state kind cs now token).0 batch
unfolding claim_batch
claim_batch-IsHeld state kind cs now token batch h =
    let s = reserve_batch state kind cs now token in
    let (listed, same_kind, same_token) = batch_candidates s kind _ token batch h in
    record {
      owner = rw (same_kind, same_token) (claim_batch-owns state kind cs now token batch h);
      entries = λ c m.
          rw same_token
            (test_of_In-filter (λ d. owned_by (find_entry d.fingerprint s.ledger) token) c cs
              (unfold owned_candidates in rw listed at m)).0;
    }

module _ (s : PersistentState) (batch : NotificationBatch) (result : CommandResult)
    (held : IsHeld s batch) where
  reported_candidates :
      filter
        (λ c. contains c.fingerprint (completed_fingerprints s.ledger batch result))
        batch.candidates
      ≡ batch.candidates
  unfolding completed_fingerprints
  reported_candidates = filter_all _ batch.candidates λ c m.
      let (e, found, owned) = owned_entry _ batch.lease_token (held.entries c m) in
      contains-completed (is_settled batch result) c.fingerprint e s.ledger found
        (entry_is_settled s batch result held.owner c m e found owned)

  settled_entry :
      (c : NotificationCandidate)
      → In c batch.candidates
      → c.fingerprint ≢ owner_fingerprint batch.kind
      → (e : LedgerEntry) × (find_entry c.fingerprint s.ledger ≡ some e)
        × (find_entry c.fingerprint (complete_batch s batch result).0.ledger
            ≡ some (record e {
              status = delivery_status result c.change;
              lease_token = none;
              lease_expires_at = none;
            }))
  unfolding complete_batch
  settled_entry c m ordinary =
      let (e, found, owned) = owned_entry _ batch.lease_token (held.entries c m) in
      (
        e,
        found,
        rw (complete_state-owner s batch result held.owner) (
            find-settled_ledger s batch result held.owner c.fingerprint
              (eq_false c.fingerprint _ ordinary)
            ∙ rw found (ap some (settle_entry s batch result held.owner c m e found owned))),
      )

-- Completing a claimed batch reports every candidate of the batch, in order, with the status that
-- the command's result means, and removes the owner entry.
pub complete_batch_reports :
    (state : PersistentState) (kind : NotificationKind) (cs : List NotificationCandidate)
    (now : Datetime) (token : String) (batch : NotificationBatch) (result : CommandResult)
    → (claim_batch state kind cs now token).1 ≡ some batch
    → let s = (claim_batch state kind cs now token).0 in
      ((complete_batch s batch result).1 ≡ map (outcome_of result) batch.candidates)
      × (find_entry (owner_fingerprint batch.kind) (complete_batch s batch result).0.ledger ≡ none)
unfolding complete_batch
complete_batch_reports state kind cs now token batch result h =
    let s = (claim_batch state kind cs now token).0 in
    let held = claim_batch-IsHeld state kind cs now token batch h in
    rw (complete_state-owner s batch result held.owner) (
      ap (map (outcome_of result)) (reported_candidates s batch result held),
      owner_released s batch result held.owner,
    )

-- Completing a claimed batch gives the entry of each candidate the status that the command's result
-- means, clears its lease, and leaves its time as the claim recorded it. (The candidate's
-- fingerprint is not that of the owner entry.)
pub complete_batch_settles :
    (state : PersistentState) (kind : NotificationKind) (cs : List NotificationCandidate)
    (now : Datetime) (token : String) (batch : NotificationBatch) (result : CommandResult)
    (c : NotificationCandidate)
    → (claim_batch state kind cs now token).1 ≡ some batch
    → In c batch.candidates
    → c.fingerprint ≢ owner_fingerprint batch.kind
    → let s = (claim_batch state kind cs now token).0 in
      (e : LedgerEntry) × (find_entry c.fingerprint s.ledger ≡ some e)
      × (find_entry c.fingerprint (complete_batch s batch result).0.ledger
          ≡ some (record e {
            status = delivery_status result c.change;
            lease_token = none;
            lease_expires_at = none;
          }))
complete_batch_settles state kind cs now token batch result c h m ordinary =
    settled_entry (claim_batch state kind cs now token).0 batch result
      (claim_batch-IsHeld state kind cs now token batch h) c m ordinary
