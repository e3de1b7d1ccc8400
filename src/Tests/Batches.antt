-- ===== src/Tests/Batches.antt =====
-- Two claims, a completion and a policy at concrete states.
use opatchy.Base.{
  String, [], arith, contains, eq_iff, false, here, map, none, ok, refl, some, string_eq, ◌==◌, ◌∷◌,
  ◌≡◌, ◌≢◌,
}
use opatchy.Models.{LedgerEntry, NotificationStatus, PersistentState}
use opatchy.Notifications.Batch.{
  NotificationBatch, batch_of, candidate_fingerprints, claim_batch, claimable, claimed_candidates,
  complete_batch, delivery_status, find_entry, lease_all, live_lease, owned_by, owned_candidates,
  owner_fingerprint, owns_owner, pending, reserve_batch, reserve_claimed, suppress_superseded,
  upsert,
}
use opatchy.Notifications.Batch.Completion.{
  complete_batch_reports, complete_batch_settles, outcome_of,
}
use opatchy.Notifications.Batch.Durable.{batch-IsDurable}
use opatchy.Notifications.Batch.Leases.{claim_batch_exclusive, late_completion_ignored}
use opatchy.Notifications.Batch.Settled.{settled_stays_settled}
use opatchy.Notifications.Types.{NotificationCandidate, NotificationChange, NotificationKind}
use opatchy.Runner.{CommandResult}
use opatchy.Storage.State.{validate_lease, validate_state}

abbrev vim_candidate : NotificationCandidate
vim_candidate = record {
  fingerprint = "watch-v1:arch:vim:a:b";
  reference = "watch-v1:arch:vim:";
  kind = NotificationKind.watch;
  change = NotificationChange.first;
  title = "Watched update available";
  body = "Watched item vim has update 2 available.";
}

abbrev pub delivered_entry : LedgerEntry
delivered_entry = record {
  fingerprint = "watch-v1:arch:git:a:b";
  status = NotificationStatus.delivered;
  recorded_at = 5;
  lease_token = none;
  lease_expires_at = none;
}

abbrev earlier_state : PersistentState
earlier_state = record { watches = []; ledger = delivered_entry ∷ []; sources = [] }

abbrev vim_batch : String → NotificationBatch
vim_batch token = record {
  kind = NotificationKind.watch;
  candidates = vim_candidate ∷ [];
  lease_token = token;
}

abbrev sent : CommandResult
sent = CommandResult.succeeded (record { stdout = []; stderr = [] })

vim_claimed :
    (claim_batch earlier_state NotificationKind.watch (vim_candidate ∷ []) 10 "t1").1
    ≡ some (vim_batch "t1")
unfolding claim_batch reserve_batch reserve_claimed claimed_candidates claimable pending live_lease
    suppress_superseded upsert lease_all owned_candidates batch_of owned_by owns_owner
    owner_fingerprint
vim_claimed = refl

other_token : (t u : String) → (t == u) ≡ false → t ≢ u
other_token t u h e = ground (arith, eq_iff t u)

claim_batch_exclusive_example :
    claim_batch
      (claim_batch earlier_state NotificationKind.watch (vim_candidate ∷ []) 10 "t1").0
      NotificationKind.watch
      (vim_candidate ∷ [])
      20
      "t2"
    ≡ ((claim_batch earlier_state NotificationKind.watch (vim_candidate ∷ []) 10 "t1").0, none)
claim_batch_exclusive_example =
    claim_batch_exclusive earlier_state NotificationKind.watch (vim_candidate ∷ [])
      (vim_candidate ∷ []) 10 20 "t1" "t2" (vim_batch "t1") refl vim_claimed
      (other_token "t2" "t1" refl) (omega arith)

-- the state after the claim of the batch
abbrev vim_state : PersistentState
vim_state = (claim_batch earlier_state NotificationKind.watch (vim_candidate ∷ []) 10 "t1").0

late_completion_ignored_example : complete_batch vim_state (vim_batch "t0") sent ≡ (vim_state, [])
late_completion_ignored_example =
    late_completion_ignored earlier_state (vim_candidate ∷ []) 10 "t1" (vim_batch "t0")
      (vim_batch "t1") sent refl vim_claimed (other_token "t0" "t1" refl)

settled_stays_settled_example :
    (find_entry "watch-v1:arch:git:a:b" vim_state.ledger ≡ some delivered_entry)
    × (contains "watch-v1:arch:git:a:b" (candidate_fingerprints (vim_candidate ∷ [])) ≡ false)
settled_stays_settled_example =
    settled_stays_settled earlier_state NotificationKind.watch (vim_candidate ∷ []) 10 "t1"
      "watch-v1:arch:git:a:b" delivered_entry (vim_batch "t1") refl (unfold pending in refl)
      (other_token _ (owner_fingerprint NotificationKind.watch) (unfold owner_fingerprint in refl))
      refl vim_claimed

complete_batch_reports_example :
    ((complete_batch vim_state (vim_batch "t1") sent).1
      ≡ map (outcome_of sent) (vim_candidate ∷ []))
    × (find_entry
          (owner_fingerprint NotificationKind.watch)
          (complete_batch vim_state (vim_batch "t1") sent).0.ledger
        ≡ none)
complete_batch_reports_example =
    complete_batch_reports earlier_state NotificationKind.watch (vim_candidate ∷ []) 10 "t1"
      (vim_batch "t1") sent vim_claimed

complete_batch_settles_example :
    (e : LedgerEntry) × (find_entry "watch-v1:arch:vim:a:b" vim_state.ledger ≡ some e)
    × (find_entry "watch-v1:arch:vim:a:b" (complete_batch vim_state (vim_batch "t1") sent).0.ledger
        ≡ some (record e {
          status = delivery_status sent NotificationChange.first;
          lease_token = none;
          lease_expires_at = none;
        }))
complete_batch_settles_example =
    complete_batch_settles earlier_state NotificationKind.watch (vim_candidate ∷ []) 10 "t1"
      (vim_batch "t1") sent vim_candidate vim_claimed here
      (other_token _ (owner_fingerprint NotificationKind.watch) (unfold owner_fingerprint in refl))

batch-IsDurable_example :
    (validate_state vim_state ≡ ok tt)
    × (validate_state (complete_batch earlier_state (vim_batch "t1") sent).0 ≡ ok tt)
batch-IsDurable_example =
    batch-IsDurable earlier_state NotificationKind.watch (vim_candidate ∷ []) 10 "t1"
      (vim_batch "t1") sent (unfold validate_state validate_lease in refl)
      (other_token "t1" "" refl)
