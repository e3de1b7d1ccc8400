-- ===== src/Notifications/Policy/Sound.antt =====
-- Which evidence stands behind a notification.
use opatchy.Adapters.Versions.{ArchDegraded, VersionSign, compare_versions}
use opatchy.Base.{
  In, List, Option, Option-cases, Result, String, arith, contains, false, filter_map, flat_map, inl,
  inr, map, none, not, ok, refl, some, string_eq, true, ◌&&◌, ◌||◌, ◌≡◌, ◌⊎◌,
}
use opatchy.Base.Members.{In-append, In-filter_map, In-map, In-guarded}
use opatchy.Models.{
  Datetime, NormalizedItem, PersistentState, SecurityFinding, SecurityFixCondition,
  SnapshotResponse, SourceName, WatchMode, WatchRecord, watch_mode_beq_iff,
}
use opatchy.Notifications.Conditional.{
  ConditionalSecurityCandidate, candidate_version, condition_candidate, condition_notification,
  conditional_security_candidates, conditional_security_owned_findings, eligible_finding,
  installable_item, matching_finding, reaches_fix, watch_candidate,
}
use opatchy.Notifications.Freshness.{current_provenance, fresh_source, live}
use opatchy.Notifications.Policy.{
  eligible_security, finding_candidate, fresh_item, item_candidate, notification_candidates,
  permanent_ids, security_candidates, security_notification, watch_candidates,
}
use opatchy.Notifications.Policy.Sorted.{In-sort_candidates}
use opatchy.Notifications.Types.{NotificationCandidate, NotificationSettings}
use opatchy.Runner.{CommandRunner}

module _ (sha256 : String → String) (run : CommandRunner) (settings : NotificationSettings)
    (state : PersistentState) (snapshot : SnapshotResponse) (now : Datetime) where
  -- What justifies a candidate: a fresh update of a permanently watched item; a fixed advisory on
  -- fresh security evidence that no condition owns; or a condition that is met by live evidence
  -- and by a version that `vercmp` puts at or above the recorded fix.
  pub data Justified (c : NotificationCandidate) : Type 0 where
    by_watch :
        (item : NormalizedItem)
        → In item snapshot.payload.items
        → settings.notify_permanent ≡ true
        → contains item.item_id (permanent_ids state) ≡ true
        → fresh_item snapshot item.source item.provenance now ≡ true
        → item_candidate state snapshot now item ≡ some c
        → Justified c
    by_finding :
        (finding : SecurityFinding) (fixed : String)
        → In finding (flat_map (λ group. group.findings) snapshot.payload.findings)
        → settings.notify_security ≡ true
        → fresh_source current_provenance snapshot SourceName.security now ≡ true
        → contains finding.finding_id (conditional_security_owned_findings state snapshot) ≡ false
        → eligible_security finding settings.security_minimum_severity ≡ true
        → finding.fixed_version ≡ some fixed
        → security_notification sha256 state finding fixed ≡ c
        → Justified c
    by_condition :
        (watch : WatchRecord) (condition : SecurityFixCondition) (version : String)
        (finding : SecurityFinding)
        → In watch state.watches
        → settings.notify_security ≡ true
        → fresh_source live snapshot SourceName.arch now ≡ true
        → fresh_source live snapshot SourceName.security now ≡ true
        → watch.mode ≡ WatchMode.temporary
        → watch.condition ≡ some condition
        → candidate_version (installable_item snapshot watch) ≡ some version
        → matching_finding snapshot watch condition ≡ some finding
        → eligible_finding settings finding ≡ true
        → (compare_versions run version condition.fixed_version ≡ ok VersionSign.same)
          ⊎ (compare_versions run version condition.fixed_version ≡ ok VersionSign.newer)
        → condition_notification sha256 state.ledger watch condition version ≡ c
        → Justified c

  item_guard :
      (item : NormalizedItem) (c : NotificationCandidate)
      → item_candidate state snapshot now item ≡ some c
      → (contains item.item_id (permanent_ids state) ≡ true)
        × (fresh_item snapshot item.source item.provenance now ≡ true)
  unfolding item_candidate
  item_guard item c h = ground arith

  watch_sound :
      (c : NotificationCandidate)
      → In c (watch_candidates settings state snapshot now)
      → Justified c
  unfolding watch_candidates
  watch_sound c m =
      let (open', listed) =
        In-guarded (not settings.notify_permanent)
          (filter_map (item_candidate state snapshot now) snapshot.payload.items) m in
      let (item, i, made) =
        In-filter_map (item_candidate state snapshot now) snapshot.payload.items listed in
      let (watched, fresh) = item_guard item c made in
      by_watch item i (ground arith) watched fresh made

  no_fix :
      (owned : List String) (finding : SecurityFinding) (c : NotificationCandidate)
      → finding.fixed_version ≡ none
      → finding_candidate sha256 settings state owned finding ≡ some c
      → ⊥
  unfolding finding_candidate
  no_fix owned finding c missing h = ground arith

  with_fix :
      (owned : List String) (finding : SecurityFinding) (c : NotificationCandidate) (fixed : String)
      → finding.fixed_version ≡ some fixed
      → finding_candidate sha256 settings state owned finding ≡ some c
      → (contains finding.finding_id owned ≡ false)
        × (eligible_security finding settings.security_minimum_severity ≡ true)
        × (security_notification sha256 state finding fixed ≡ c)
  unfolding finding_candidate
  with_fix owned finding c fixed e h = ground arith

  security_list :
      (owned : List String) (c : NotificationCandidate)
      → In c (security_candidates sha256 settings state snapshot now owned)
      → (settings.notify_security ≡ true)
        × (fresh_source current_provenance snapshot SourceName.security now ≡ true)
        × In c (
            filter_map
              (finding_candidate sha256 settings state owned)
              (flat_map (λ group. group.findings) snapshot.payload.findings))
  unfolding security_candidates
  security_list owned c m =
      let (open', listed) =
        In-guarded
          (not settings.notify_security
            || not (fresh_source current_provenance snapshot SourceName.security now))
          (filter_map (finding_candidate sha256 settings state owned)
            (flat_map (λ group. group.findings) snapshot.payload.findings))
          m in
      (ground arith, ground arith, listed)

  condition_list :
      (x : ConditionalSecurityCandidate)
      → In x (conditional_security_candidates sha256 run settings state snapshot now)
      → (settings.notify_security ≡ true)
        × (fresh_source live snapshot SourceName.arch now ≡ true)
        × (fresh_source live snapshot SourceName.security now ≡ true)
        × In x (
            filter_map
              (λ watch. watch_candidate sha256 run settings state snapshot watch watch.condition)
              state.watches)
  unfolding conditional_security_candidates
  condition_list x m =
      let (open', listed) =
        In-guarded
          (not settings.notify_security
            || not (
                fresh_source live snapshot SourceName.arch now
                && fresh_source live snapshot SourceName.security now))
          (filter_map
            (λ watch. watch_candidate sha256 run settings state snapshot watch watch.condition)
            state.watches)
          m in
      (ground arith, ground arith, ground arith, listed)

  reaches_fix_sound :
      (r : Result ArchDegraded VersionSign)
      → reaches_fix r ≡ true
      → (r ≡ ok VersionSign.same) ⊎ (r ≡ ok VersionSign.newer)
  unfolding reaches_fix
  reaches_fix_sound r h = ground arith

  condition_candidate_sound :
      (watch : WatchRecord) (condition : SecurityFixCondition) (v : Option String)
      (f : Option SecurityFinding) (x : ConditionalSecurityCandidate)
      → condition_candidate sha256 run settings state watch condition v f ≡ some x
      → (version : String) × (finding : SecurityFinding) × (v ≡ some version)
        × (f ≡ some finding)
        × (eligible_finding settings finding ≡ true)
        × (reaches_fix (compare_versions run version condition.fixed_version) ≡ true)
        × (condition_notification sha256 state.ledger watch condition version ≡ x.candidate)
  unfolding condition_candidate
  condition_candidate_sound watch condition none f x h = cc
  condition_candidate_sound watch condition (some v) none x h = cc
  condition_candidate_sound watch condition (some v) (some f) x h =
      (v, f, refl, refl, ground arith, ground arith, ground arith)

  watch_candidate_sound :
      (watch : WatchRecord) (o : Option SecurityFixCondition) (x : ConditionalSecurityCandidate)
      → watch_candidate sha256 run settings state snapshot watch o ≡ some x
      → (condition : SecurityFixCondition) × (o ≡ some condition)
        × (watch.mode ≡ WatchMode.temporary)
        × (condition_candidate sha256 run settings state watch condition
              (candidate_version (installable_item snapshot watch))
              (matching_finding snapshot watch condition)
            ≡ some x)
  unfolding watch_candidate
  watch_candidate_sound watch none x h = cc
  watch_candidate_sound watch (some condition) x h = (
    condition,
    refl,
    ground (arith, watch_mode_beq_iff watch.mode WatchMode.temporary),
    ground arith,
  )

  watch_condition_sound :
      settings.notify_security ≡ true
      → fresh_source live snapshot SourceName.arch now ≡ true
      → fresh_source live snapshot SourceName.security now ≡ true
      → (watch : WatchRecord) → In watch state.watches
      → (x : ConditionalSecurityCandidate)
      → watch_candidate sha256 run settings state snapshot watch watch.condition ≡ some x
      → Justified x.candidate
  watch_condition_sound on arch security watch w x made =
      let (condition, held, mode, rest) = watch_candidate_sound watch watch.condition x made in
      let (version, finding, v, f, eligible, reached, same) =
        condition_candidate_sound watch condition _ _ x rest in
      by_condition watch condition version finding w on arch security mode held v f eligible
        (reaches_fix_sound _ reached) same

  finding_sound :
      (owned : List String) (finding : SecurityFinding) (c : NotificationCandidate)
      → finding_candidate sha256 settings state owned finding ≡ some c
      → (fixed : String) × (contains finding.finding_id owned ≡ false)
        × (eligible_security finding settings.security_minimum_severity ≡ true)
        × (finding.fixed_version ≡ some fixed)
        × (security_notification sha256 state finding fixed ≡ c)
  finding_sound owned finding c h = elim (Option-cases finding.fixed_version) [
    | inl missing ↦ absurd (no_fix owned finding c missing h)
    | inr (fixed, e) ↦ let (a, b, d) = with_fix owned finding c fixed e h in (fixed, a, b, e, d)
  ]

  security_sound :
      (c : NotificationCandidate)
      → In c (
          security_candidates sha256 settings state snapshot now
            (conditional_security_owned_findings state snapshot))
      → Justified c
  security_sound c m =
      let owned = conditional_security_owned_findings state snapshot in
      let (on, fresh, listed) = security_list owned c m in
      let (finding, i, made) =
        In-filter_map (finding_candidate sha256 settings state owned) _ listed in
      let (fixed, free, eligible, e, same) = finding_sound owned finding c made in
      by_finding finding fixed i on fresh free eligible e same

  condition_sound :
      (c : NotificationCandidate)
      → In c (
          map
            (λ x. x.candidate)
            (conditional_security_candidates sha256 run settings state snapshot now))
      → Justified c
  condition_sound c m =
      let (x, i, same) = In-map (λ y. y.candidate) _ m in
      let (on, arch, security, listed) = condition_list x i in
      let (watch, w, made) =
        In-filter_map (λ v. watch_candidate sha256 run settings state snapshot v v.condition) _
          listed in
      rw same (watch_condition_sound on arch security watch w x made)

-- Every notification candidate is justified: by a fresh update of a permanently watched item while
-- such notifications are on, by a fixed, severe enough, fresh security finding that no condition
-- owns while security notifications are on, or by a met condition of a temporary watch.
pub notification_candidates_sound :
    (sha256 : String → String) (run : CommandRunner) (settings : NotificationSettings)
    (state : PersistentState) (snapshot : SnapshotResponse) (now : Datetime)
    (c : NotificationCandidate)
    → In c (notification_candidates sha256 run settings state snapshot now)
    → Justified sha256 run settings state snapshot now c
unfolding notification_candidates
notification_candidates_sound sha256 run settings state snapshot now c m =
    elim (In-append _ _ (In-sort_candidates c _ m)) [
      | inl watched ↦ watch_sound sha256 run settings state snapshot now c watched
      | inr others ↦ elim (In-append _ _ others) [
        | inl found ↦ security_sound sha256 run settings state snapshot now c found
        | inr met ↦ condition_sound sha256 run settings state snapshot now c met
      ]
    ]
