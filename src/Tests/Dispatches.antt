-- ===== src/Tests/Dispatches.antt =====
-- A dispatch on concrete files: an update of `arch:vim`, the lease of which ended without a report.
use opatchy.Base.{In, List, String, [], none, ok, refl, some, true, ◌∷◌, ◌≡◌}
use opatchy.Files.Disk.{Environment}
use opatchy.Files.States.{StateLoad, load_state}
use opatchy.Models.{
  LedgerEntry, NotificationOutcome, NotificationStatus, PersistentState, watch_beq,
}
use opatchy.Notifications.Batch.{
  batch_of, claimable, claimed_candidates, complete_batch, complete_state, completed_fingerprints,
  delivery_status, lease_all, live_lease, owned_by, owned_candidates, owner_fingerprint, owns_owner,
  pending, reserve_batch, reserve_claimed, settled_ledger, suppress_superseded, update_at, upsert,
}
use opatchy.Notifications.Conditional.{conditional_security_candidates}
use opatchy.Notifications.Dispatch.{dispatch}
use opatchy.Notifications.Dispatch.Reported.{IsReported, dispatch-IsReported}
use opatchy.Notifications.Freshness.{
  current_provenance, fresh_source, fresh_status, live, source_name,
}
use opatchy.Notifications.Policy.{
  fresh_item, insert_candidate, item_candidate, notification_candidates, security_candidates,
  sort_candidates, watch_candidates,
}
use opatchy.Notifications.Types.{NotificationKind}
use opatchy.Stars.{fingerprint, watch_notification_reference}
use opatchy.Storage.Documents.States.{state_value}
use opatchy.Storage.State.{validate_lease}
use opatchy.Storage.Watches.{validate_watch}
use opatchy.Tests.Commands.{saved_disk, vim}
use opatchy.Tests.Policies.{all_notified, no_command, vim_snapshot}
use opatchy.Wire.Json.{normalize_below}
use opatchy.Wire.Timestamps.{Calendar, ends_with_z}

abbrev entry : String → LedgerEntry
entry fingerprint = record {
  fingerprint = fingerprint;
  status = NotificationStatus.pending;
  recorded_at = 5;
  lease_token = some "t";
  lease_expires_at = some 5;
}

abbrev leased_state : PersistentState
leased_state = record {
  watches = vim ∷ [];
  ledger = entry "watch-v1:arch:vim:a:b" ∷ entry "notification-owner-v1:watch" ∷ [];
  sources = [];
}

-- a library that knows one moment
abbrev calendar : Calendar
calendar = record {
  isoformat = λ moment. "2026-01-01T00:00:00+00:00";
  fromisoformat = λ raw. some 5;
}

abbrev leased_env : Environment
leased_env = record {
  json = record {
    dumps = λ value. "{}";
    loads = λ on_object on_constant text. some (ok (state_value calendar leased_state));
    encode = λ text. some (b'{' ∷ b'}' ∷ []);
  };
  base64 = record { b64encode = λ raw. ""; b64decode = λ text. none };
  calendar = calendar;
  clock = λ n. n;
}

abbrev first_token : NotificationKind → String
first_token kind = "t"

abbrev reported : List NotificationOutcome
reported =
    record { fingerprint = "watch-v1:arch:vim:a:b"; status = NotificationStatus.pending } ∷ []

dispatch-IsReported_example :
    (load : StateLoad) × ((load_state leased_env true saved_disk).0 ≡ ok load)
    × ((o : NotificationOutcome)
        → In o reported
        → IsReported no_command
            (notification_candidates
              (λ text. text)
              no_command
              all_notified
              load.state
              vim_snapshot
              15)
            o)
unfolding dispatch normalize_below ends_with_z validate_watch validate_lease watch_beq reserve_batch
    owner_fingerprint live_lease reserve_claimed claimed_candidates claimable pending owned_by
    suppress_superseded upsert lease_all owned_candidates batch_of owns_owner complete_batch
    complete_state sort_candidates insert_candidate watch_candidates item_candidate
    security_candidates notification_candidates conditional_security_candidates fresh_item
    current_provenance fresh_source fresh_status source_name live watch_notification_reference
    settled_ledger update_at completed_fingerprints delivery_status
dispatch-IsReported_example =
    dispatch-IsReported (λ text. text) leased_env no_command all_notified 15 (λ kind. 15)
      first_token vim_snapshot saved_disk reported refl
