-- ===== src/Notifications/Conditional.antt =====
-- helper/opatchy_helper/conditional_security_policy.py: notifications for temporary watches that wait
-- for the fix of an advisory. `run` runs a command and `sha256` is the hex digest of a text.
use mathlib.Core.Option
use opatchy.Adapters.Versions.{ArchDegraded, VersionSign, compare_versions}
use opatchy.Base.{
  Bool, List, Option, Result, String, [], all, contains, err, false, filter, filter_map, find,
  flat_map, if◌then◌else◌, is_some, join, none, not, ok, option_eq, some, string_eq, true, ◌&&◌,
  ◌+++◌, ◌==◌, ◌||◌, ◌∷◌,
}
use opatchy.Models.{
  Datetime, ItemSource, LedgerEntry, NormalizedItem, PersistentState, SecurityFinding,
  SecurityFixCondition, SnapshotResponse, SourceName, WatchMode, WatchRecord, item_source_eq,
  watch_mode_eq,
}
use opatchy.Notifications.Freshness.{
  classify, condition_text, digest, fresh_source, is_fixed, live, notifiable_severity,
}
use opatchy.Notifications.Types.{NotificationCandidate, NotificationKind, NotificationSettings}
use opatchy.Runner.{CommandRunner}

pub record ConditionalSecurityCandidate : Type 0 where
  pub candidate : NotificationCandidate
  pub finding_id : String

-- `frozenset(xs) == frozenset(ys)`
abbrev pub same_set : List String → List String → Bool
same_set xs ys = all (λ x. contains x ys) xs && all (λ y. contains y xs) ys

abbrev pub matches_condition : WatchRecord → SecurityFixCondition → SecurityFinding → Bool
matches_condition watch condition finding =
    finding.item_id == watch.item_id
    && (finding.advisory_id == condition.advisory_id
        && (finding.fixed_version == some condition.fixed_version
            && same_set finding.cve_ids condition.cve_ids))

-- `_matching_finding`: the first finding, in the groups of the watched item
unfoldable pub matching_finding :
    SnapshotResponse → WatchRecord → SecurityFixCondition → Option SecurityFinding
matching_finding snapshot watch condition = find (matches_condition watch condition) (
    flat_map (λ group. group.findings)
      (filter (λ group. group.item_id == watch.item_id) snapshot.payload.findings))

owned_finding : SnapshotResponse → WatchRecord → Option SecurityFixCondition → Option String
owned_finding snapshot watch none = none
owned_finding snapshot watch (some condition) =
    Option.map (λ finding. finding.finding_id) (matching_finding snapshot watch condition)

-- the members of the set, in the order of the watches
unfoldable pub conditional_security_owned_findings :
    PersistentState → SnapshotResponse → List String
unfolding owned_finding
conditional_security_owned_findings state snapshot =
    filter_map (λ watch. owned_finding snapshot watch watch.condition)
      (filter (λ watch. watch.mode == WatchMode.temporary) state.watches)

-- `_notification`
unfoldable pub condition_notification :
    (String → String)
    → List LedgerEntry
    → WatchRecord
    → SecurityFixCondition
    → String
    → NotificationCandidate
condition_notification sha256 ledger watch condition candidate =
    let reference =
      "security-condition-v1:" +++ watch.item_id +++ ":" +++ condition.advisory_id +++ ":" in
    let fingerprint =
      reference +++ digest sha256 (condition.fixed_version ∷ candidate ∷ condition.cve_ids) in
    record {
      fingerprint = fingerprint;
      reference = reference;
      kind = NotificationKind.security_condition;
      change = classify ledger fingerprint reference;
      title = "Security fix update available";
      body =
          "Security condition for "
          +++ condition_text watch.item_id
          +++ ": "
          +++ condition_text condition.advisory_id
          +++ " ("
          +++ condition_text (join ", " condition.cve_ids)
          +++ "); installable candidate "
          +++ condition_text candidate
          +++ "; fixed version "
          +++ condition_text condition.fixed_version
          +++ ".";
    }

-- the item that can be installed for the watch
abbrev pub installable_item : SnapshotResponse → WatchRecord → Option NormalizedItem
installable_item snapshot watch =
    find
      (λ item.
        item.item_id == watch.item_id
        && (item.source == ItemSource.arch && (is_some item.candidate && live item.provenance)))
      snapshot.payload.items

abbrev pub candidate_version : Option NormalizedItem → Option String
candidate_version none = none
candidate_version (some item) = item.candidate

unfoldable pub eligible_finding : NotificationSettings → SecurityFinding → Bool
eligible_finding settings finding =
    is_fixed finding.status
    && (live finding.provenance
        && notifiable_severity finding.severity settings.security_minimum_severity)

unfoldable pub reaches_fix : Result ArchDegraded VersionSign → Bool
reaches_fix (ok VersionSign.older) = false
reaches_fix (ok VersionSign.same) = true
reaches_fix (ok VersionSign.newer) = true
reaches_fix (err degraded) = false

-- the end of `_candidate`, from the installable version and the matching finding on
unfoldable pub condition_candidate :
    (String → String)
    → CommandRunner
    → NotificationSettings
    → PersistentState
    → WatchRecord
    → SecurityFixCondition
    → Option String
    → Option SecurityFinding
    → Option ConditionalSecurityCandidate
unfolding reaches_fix
condition_candidate sha256 run settings state watch condition none found = none
condition_candidate sha256 run settings state watch condition (some version) none = none
condition_candidate sha256 run settings state watch condition (some version) (some finding) =
    if not (eligible_finding settings finding)
    then none
    else if reaches_fix (compare_versions run version condition.fixed_version)
    then some (record {
      candidate = condition_notification sha256 state.ledger watch condition version;
      finding_id = finding.finding_id;
    })
    else none

-- `_candidate`, with the loop's `match watch.condition`
unfoldable pub watch_candidate :
    (String → String)
    → CommandRunner
    → NotificationSettings
    → PersistentState
    → SnapshotResponse
    → WatchRecord
    → Option SecurityFixCondition
    → Option ConditionalSecurityCandidate
watch_candidate sha256 run settings state snapshot watch none = none
watch_candidate sha256 run settings state snapshot watch (some condition) =
    if not (watch.mode == WatchMode.temporary)
    then none
    else condition_candidate sha256 run settings state watch condition
        (candidate_version (installable_item snapshot watch))
        (matching_finding snapshot watch condition)

unfoldable pub conditional_security_candidates :
    (String → String)
    → CommandRunner
    → NotificationSettings
    → PersistentState
    → SnapshotResponse
    → Datetime
    → List ConditionalSecurityCandidate
conditional_security_candidates sha256 run settings state snapshot now =
    if not settings.notify_security
      || not (
          fresh_source live snapshot SourceName.arch now
          && fresh_source live snapshot SourceName.security now)
    then []
    else filter_map
        (λ watch. watch_candidate sha256 run settings state snapshot watch watch.condition)
        state.watches
