-- ===== src/Notifications/Policy.antt =====
-- helper/opatchy_helper/notification_policy.py: which updates are worth a notification, from the
-- durable state and a committed snapshot. `run` and `sha256` are those of the conditional policy.
pub mod Sorted
pub mod Sound
pub mod Complete
use opatchy.Base.{
  Bool, List, Option, String, [], contains, filter, filter_map, flat_map, if◌then◌else◌, map, none,
  not, some, sort_texts, starts_with, string_eq, text_leb, ◌&&◌, ◌+++◌, ◌++◌, ◌==◌, ◌||◌, ◌∷◌,
}
use opatchy.Models.{
  Datetime, ItemSource, NormalizedItem, PersistentState, Provenance, SecurityFinding, Severity,
  SnapshotResponse, SourceName, WatchMode, severity_value, watch_mode_eq,
}
use opatchy.Notifications.Conditional.{
  conditional_security_candidates, conditional_security_owned_findings,
}
use opatchy.Notifications.Freshness.{
  classify, current_provenance, digest, fresh_source, is_fixed, notifiable_severity, policy_text,
  source_name,
}
use opatchy.Notifications.Types.{
  NotificationCandidate, NotificationKind, NotificationSettings, notification_kind_eq,
  notification_kind_value,
}
use opatchy.Runner.{CommandRunner}
use opatchy.Stars.{watch_notification_reference}

abbrev pub permanent_ids : PersistentState → List String
permanent_ids state =
    map (λ watch. watch.item_id) (filter (λ watch. watch.mode == WatchMode.permanent) state.watches)

-- the candidate of one item, from its two fingerprints and its candidate version
watch_notification :
    PersistentState
    → NormalizedItem
    → Option String
    → Option String
    → Option String
    → Option NotificationCandidate
watch_notification state item (some version) (some installed) (some candidate) =
    let fingerprint = watch_notification_reference item.item_id candidate (some installed) in
    let reference = "watch-v1:" +++ item.item_id +++ ":" in
    some (record {
      fingerprint = fingerprint;
      reference = reference;
      kind = NotificationKind.watch;
      change = classify state.ledger fingerprint reference;
      title = "Watched update available";
      body =
          "Watched item "
          +++ policy_text item.label
          +++ " has update "
          +++ policy_text version
          +++ " available.";
    })
watch_notification state item _ _ _ = none

-- `_fresh_item`
unfoldable pub fresh_item : SnapshotResponse → ItemSource → Provenance → Datetime → Bool
fresh_item snapshot source provenance now =
    current_provenance provenance
    && fresh_source current_provenance snapshot (source_name source) now

-- the body of the loop of `_watch_candidates`
unfoldable pub item_candidate :
    PersistentState → SnapshotResponse → Datetime → NormalizedItem → Option NotificationCandidate
unfolding watch_notification
item_candidate state snapshot now item =
    if not (contains item.item_id (permanent_ids state))
      || not (fresh_item snapshot item.source item.provenance now)
    then none
    else watch_notification state item item.candidate item.installed_fingerprint
        item.candidate_fingerprint

unfoldable pub watch_candidates :
    NotificationSettings
    → PersistentState
    → SnapshotResponse
    → Datetime
    → List NotificationCandidate
watch_candidates settings state snapshot now =
    if not settings.notify_permanent
    then []
    else filter_map (item_candidate state snapshot now) snapshot.payload.items

unfoldable pub eligible_security : SecurityFinding → Severity → Bool
eligible_security finding minimum =
    starts_with finding.item_id "arch:"
    && (current_provenance finding.provenance
        && (is_fixed finding.status && notifiable_severity finding.severity minimum))

unfoldable pub security_notification :
    (String → String) → PersistentState → SecurityFinding → String → NotificationCandidate
security_notification sha256 state finding fixed =
    let reference =
      "security-v1:"
      +++ digest sha256 ("security" ∷ finding.item_id ∷ finding.advisory_id ∷ [])
      +++ ":" in
    let fingerprint =
      reference
      +++ digest sha256 (fixed ∷ severity_value finding.severity ∷ sort_texts finding.cve_ids) in
    record {
      fingerprint = fingerprint;
      reference = reference;
      kind = NotificationKind.security;
      change = classify state.ledger fingerprint reference;
      title = "Security update available";
      body =
          "Security update for "
          +++ policy_text finding.item_id
          +++ ": "
          +++ policy_text finding.advisory_id
          +++ " is fixed in "
          +++ policy_text fixed
          +++ " ("
          +++ severity_value finding.severity
          +++ ").";
    }

finding_notification :
    (String → String)
    → PersistentState
    → SecurityFinding
    → Option String
    → Option NotificationCandidate
finding_notification sha256 state finding none = none
finding_notification sha256 state finding (some fixed) =
    some (security_notification sha256 state finding fixed)

-- the body of the loop of `_security_candidates`
unfoldable pub finding_candidate :
    (String → String)
    → NotificationSettings
    → PersistentState
    → List String
    → SecurityFinding
    → Option NotificationCandidate
unfolding finding_notification
finding_candidate sha256 settings state owned finding =
    if contains finding.finding_id owned
      || not (eligible_security finding settings.security_minimum_severity)
    then none
    else finding_notification sha256 state finding finding.fixed_version

unfoldable pub security_candidates :
    (String → String)
    → NotificationSettings
    → PersistentState
    → SnapshotResponse
    → Datetime
    → List String
    → List NotificationCandidate
security_candidates sha256 settings state snapshot now owned =
    if not settings.notify_security
      || not (fresh_source current_provenance snapshot SourceName.security now)
    then []
    else filter_map (finding_candidate sha256 settings state owned)
        (flat_map (λ group. group.findings) snapshot.payload.findings)

-- the order of `sorted(..., key=lambda c: (c.kind, c.fingerprint))`
abbrev pub candidate_leb : NotificationCandidate → NotificationCandidate → Bool
candidate_leb a b =
    if a.kind == b.kind
    then text_leb a.fingerprint b.fingerprint
    else text_leb (notification_kind_value a.kind) (notification_kind_value b.kind)

unfoldable pub insert_candidate :
    NotificationCandidate → List NotificationCandidate → List NotificationCandidate
insert_candidate a [] = a ∷ []
insert_candidate a (b ∷ bs) = if candidate_leb a b then a ∷ b ∷ bs else b ∷ insert_candidate a bs

unfoldable pub sort_candidates : List NotificationCandidate → List NotificationCandidate
unfolding insert_candidate
sort_candidates [] = []
sort_candidates (a ∷ as') = insert_candidate a (sort_candidates as')

unfoldable pub notification_candidates :
    (String → String)
    → CommandRunner
    → NotificationSettings
    → PersistentState
    → SnapshotResponse
    → Datetime
    → List NotificationCandidate
notification_candidates sha256 run settings state snapshot now = sort_candidates (
    watch_candidates settings state snapshot now
    ++ (security_candidates sha256 settings state snapshot now
          (conditional_security_owned_findings state snapshot)
        ++ map (λ c. c.candidate)
            (conditional_security_candidates sha256 run settings state snapshot now)))
