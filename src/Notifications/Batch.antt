-- ===== src/Notifications/Batch.antt =====
-- helper/opatchy_helper/notification_batch.py: claiming a batch of notifications under a lease, and
-- recording its delivery. A lease is held in the ledger: by each claimed entry, and by one owner
-- entry for each kind. The token is that of `uuid4().hex`, and a state is the one that
-- `Storage.update_state` hands to its mutation.
pub mod Entries
pub mod Leases
pub mod Settled
pub mod Updates
pub mod Completion
pub mod Durable
use opatchy.Base.{
  Bool, List, Option, String, [], any, contains, false, filter, find, find_last, if◌then◌else◌,
  is_some, length, ltb, map, nat_eq, none, not, option_eq, some, starts_with, string_eq, true, ℕ,
  ◌&&◌, ◌+++◌, ◌++◌, ◌+◌, ◌==◌, ◌||◌, ◌∷◌,
}
use opatchy.Models.{
  Datetime, LedgerEntry, NotificationOutcome, NotificationStatus, PersistentState, is_active,
}
use opatchy.Notifications.Types.{
  NotificationCandidate, NotificationChange, NotificationKind, notification_kind_value,
}
use opatchy.Runner.{CommandResult}
use opatchy.Stars.{fingerprint}

pub record NotificationBatch : Type 0 where
  pub kind : NotificationKind
  pub candidates : List NotificationCandidate
  pub lease_token : String

-- 30 seconds, in microseconds
abbrev pub lease_duration : ℕ
lease_duration = 30000000

unfoldable pub pending : NotificationStatus → Bool
pending NotificationStatus.pending = true
pending _ = false

unfoldable pub owner_fingerprint : NotificationKind → String
owner_fingerprint kind = "notification-owner-v1:" +++ notification_kind_value kind

-- `_entry`
abbrev pub find_entry : String → List LedgerEntry → Option LedgerEntry
find_entry fingerprint ledger = find (λ entry. entry.fingerprint == fingerprint) ledger

expires_after : Option Datetime → Datetime → Bool
expires_after none now = false
expires_after (some expires) now = ltb now expires

unfoldable pub live_lease : LedgerEntry → Datetime → Bool
unfolding expires_after
live_lease entry now = is_some entry.lease_token && expires_after entry.lease_expires_at now

unfoldable pub owned_by : Option LedgerEntry → String → Bool
owned_by none token = false
owned_by (some entry) token = entry.lease_token == some token

unfoldable pub owns_owner : PersistentState → NotificationKind → String → Bool
unfolding owned_by
owns_owner state kind token = owned_by (find_entry (owner_fingerprint kind) state.ledger) token

unfoldable pub claimable : Option LedgerEntry → Datetime → Bool
unfolding pending live_lease
claimable none now = true
claimable (some entry) now = pending entry.status && not (live_lease entry now)

unfoldable pub is_dispatchable : Option LedgerEntry → Bool
unfolding pending
is_dispatchable none = true
is_dispatchable (some entry) = pending entry.status

unfoldable pub failure_status : NotificationChange → NotificationStatus
failure_status change = NotificationStatus.pending

unfoldable pub delivery_status : CommandResult → NotificationChange → NotificationStatus
unfolding failure_status
delivery_status (CommandResult.succeeded _) change = NotificationStatus.delivered
delivery_status (CommandResult.exited _) change = failure_status change
delivery_status (CommandResult.missing _) change = failure_status change
delivery_status (CommandResult.output_exceeded _) change = failure_status change
delivery_status (CommandResult.timed_out _) change = failure_status change
delivery_status (CommandResult.rejected _) change = NotificationStatus.failed

abbrev pub candidate_fingerprints : List NotificationCandidate → List String
candidate_fingerprints candidates = map (λ candidate. candidate.fingerprint) candidates

-- the test of `_suppress_superseded`
abbrev pub is_superseded : List NotificationCandidate → LedgerEntry → Bool
is_superseded candidates entry =
    not (contains entry.fingerprint (candidate_fingerprints candidates))
    && (is_active entry
        && any (λ candidate. starts_with entry.fingerprint candidate.reference) candidates)

abbrev pub suppress : List NotificationCandidate → LedgerEntry → LedgerEntry
suppress candidates entry =
    if is_superseded candidates entry
    then record entry { status = NotificationStatus.suppressed }
    else entry

unfoldable pub suppress_superseded :
    List LedgerEntry → List NotificationCandidate → List LedgerEntry
suppress_superseded ledger candidates = map (suppress candidates) ledger

abbrev pub replace_entry : LedgerEntry → LedgerEntry → LedgerEntry
replace_entry updated entry = if entry.fingerprint == updated.fingerprint then updated else entry

unfoldable pub upsert : List LedgerEntry → LedgerEntry → List LedgerEntry
upsert ledger updated =
    if any (λ entry. entry.fingerprint == updated.fingerprint) ledger
    then map (replace_entry updated) ledger
    else ledger ++ updated ∷ []

-- the entry that holds a lease from `now` on
abbrev pub leased : String → Datetime → String → LedgerEntry
leased fingerprint now token = record {
  fingerprint = fingerprint;
  status = NotificationStatus.pending;
  recorded_at = now;
  lease_token = some token;
  lease_expires_at = some (now + lease_duration);
}

unfoldable pub lease_all :
    List LedgerEntry → List NotificationCandidate → Datetime → String → List LedgerEntry
lease_all ledger [] now token = ledger
lease_all ledger (candidate ∷ candidates) now token =
    lease_all (upsert ledger (leased candidate.fingerprint now token)) candidates now token

-- the candidates that `_reserve_batch` claims
unfoldable pub claimed_candidates :
    PersistentState → List NotificationCandidate → Datetime → List NotificationCandidate
claimed_candidates state candidates now =
    filter (λ candidate. claimable (find_entry candidate.fingerprint state.ledger) now) candidates

-- the end of `_reserve_batch`, where no live lease stands in the way
unfoldable pub reserve_claimed :
    PersistentState
    → NotificationKind
    → List NotificationCandidate
    → Datetime
    → String
    → PersistentState
reserve_claimed state kind [] now token = state
reserve_claimed state kind (c ∷ cs) now token = record state {
  ledger =
      upsert (lease_all (suppress_superseded state.ledger (c ∷ cs)) (c ∷ cs) now token)
        (leased (owner_fingerprint kind) now token);
}

abbrev pub is_locked : Option LedgerEntry → Datetime → Bool
is_locked none now = false
is_locked (some owner) now = live_lease owner now

-- `_reserve_batch`
unfoldable pub reserve_batch :
    PersistentState
    → NotificationKind
    → List NotificationCandidate
    → Datetime
    → String
    → PersistentState
reserve_batch state kind candidates now token =
    if is_locked (find_entry (owner_fingerprint kind) state.ledger) now
    then state
    else reserve_claimed state kind (claimed_candidates state candidates now) now token

-- the candidates whose entries carry the token
unfoldable pub owned_candidates :
    PersistentState → List NotificationCandidate → String → List NotificationCandidate
owned_candidates state candidates token =
    filter (λ candidate. owned_by (find_entry candidate.fingerprint state.ledger) token) candidates

-- `claim_batch` after its update of the state
unfoldable pub batch_of :
    PersistentState
    → NotificationKind
    → List NotificationCandidate
    → String
    → Option NotificationBatch
batch_of state kind claimed token =
    if length claimed == 0 || not (owns_owner state kind token)
    then none
    else some (record { kind = kind; candidates = claimed; lease_token = token })

-- the state that is written, and the batch
unfoldable pub claim_batch :
    PersistentState
    → NotificationKind
    → List NotificationCandidate
    → Datetime
    → String
    → PersistentState × Option NotificationBatch
claim_batch state kind candidates now token =
    let reserved = reserve_batch state kind candidates now token in
    (reserved, batch_of reserved kind (owned_candidates reserved candidates token) token)

-- the `updates` dict of `_complete_batch`, at a fingerprint
unfoldable pub update_at : NotificationBatch → CommandResult → String → Option NotificationStatus
update_at batch result fingerprint =
    elim (find_last (λ candidate. candidate.fingerprint == fingerprint) batch.candidates) [
      | none ↦ none
      | some candidate ↦ some (delivery_status result candidate.change)
    ]

-- an entry that `_complete_batch` settles
abbrev pub is_settled : NotificationBatch → CommandResult → LedgerEntry → Bool
is_settled batch result entry =
    is_some (update_at batch result entry.fingerprint) && owned_by (some entry) batch.lease_token

abbrev pub with_status : LedgerEntry → Option NotificationStatus → LedgerEntry
with_status entry none = entry
with_status entry (some status) = record entry {
  status = status;
  lease_token = none;
  lease_expires_at = none;
}

abbrev pub settle : NotificationBatch → CommandResult → LedgerEntry → LedgerEntry
settle batch result entry =
    if is_settled batch result entry
    then with_status entry (update_at batch result entry.fingerprint)
    else entry

-- the ledger that `_complete_batch` builds for the owner of the lease
unfoldable pub settled_ledger :
    List LedgerEntry → NotificationBatch → CommandResult → List LedgerEntry
settled_ledger ledger batch result =
    map (settle batch result)
      (filter (λ entry. not (entry.fingerprint == owner_fingerprint batch.kind)) ledger)

unfoldable pub completed_fingerprints :
    List LedgerEntry → NotificationBatch → CommandResult → List String
completed_fingerprints ledger batch result =
    map (λ entry. entry.fingerprint) (filter (is_settled batch result) ledger)

-- `_complete_batch`
unfoldable pub complete_state :
    PersistentState → NotificationBatch → CommandResult → PersistentState × List String
complete_state state batch result =
    if not (owns_owner state batch.kind batch.lease_token) then (state, []) else (
      record state { ledger = settled_ledger state.ledger batch result },
      completed_fingerprints state.ledger batch result,
    )

-- `complete_batch`: the state that is written, and the outcomes
unfoldable pub complete_batch :
    PersistentState → NotificationBatch → CommandResult → PersistentState × List NotificationOutcome
complete_batch state batch result =
    let (state', completed) = complete_state state batch result in
    (
      state',
      map
          (λ candidate. record {
            fingerprint = candidate.fingerprint;
            status = delivery_status result candidate.change;
          })
          (filter (λ candidate. contains candidate.fingerprint completed) batch.candidates),
    )
