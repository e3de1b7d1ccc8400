-- ===== src/Notifications/Policy/Complete.antt =====
-- No justified notification is left out.
use opatchy.Adapters.Versions.{ArchDegraded, VersionSign, compare_versions}
use opatchy.Base.{
  Bool, Bool-cases, In, List, Option, Result, String, [], arith, contains, false, flat_map, here,
  if◌then◌else◌, inl, inr, ok, some, string_eq, there, true, ◌∷◌, ◌≡◌, ◌⊎◌,
}
use opatchy.Base.Members.{In-append_left, In-append_right, In-filter_map_of, In-map_of}
use opatchy.Models.{
  Datetime, NormalizedItem, PersistentState, SecurityFinding, SecurityFixCondition,
  SnapshotResponse, SourceName, WatchMode, WatchRecord, watch_mode_beq_iff,
}
use opatchy.Notifications.Conditional.{
  ConditionalSecurityCandidate, candidate_version, condition_candidate, condition_notification,
  conditional_security_candidates, conditional_security_owned_findings, eligible_finding,
  installable_item, matching_finding, reaches_fix, watch_candidate,
}
use opatchy.Notifications.Freshness.{current_provenance, fresh_source, live}
use opatchy.Notifications.Policy.{
  candidate_leb, eligible_security, finding_candidate, insert_candidate, item_candidate,
  notification_candidates, security_candidates, security_notification, sort_candidates,
  watch_candidates,
}
use opatchy.Notifications.Policy.Sound.{Justified, by_condition, by_finding, by_watch}
use opatchy.Notifications.Types.{NotificationCandidate, NotificationSettings}
use opatchy.Runner.{CommandRunner}

In-insert_candidate-here :
    (a : NotificationCandidate) (xs : List NotificationCandidate) → In a (insert_candidate a xs)
unfolding insert_candidate
In-insert_candidate-here a [] = here
In-insert_candidate-here a (b ∷ bs) = elim (Bool-cases (candidate_leb a b)) [
  | inl first ↦ rw first here
  | inr later ↦ rw later (there (In-insert_candidate-here a bs))
]

In-insert_candidate-there :
    {c : NotificationCandidate} (a : NotificationCandidate) {xs : List NotificationCandidate}
    → In c xs
    → In c (insert_candidate a xs)
unfolding insert_candidate
In-insert_candidate-there {c} a (here {xs}) = elim (Bool-cases (candidate_leb a c)) [
  | inl first ↦ rw first (there here)
  | inr later ↦ rw later here
]
In-insert_candidate-there {c} a (there {x = b} {xs} m) = elim (Bool-cases (candidate_leb a b)) [
  | inl first ↦ rw first (there (there m))
  | inr later ↦ rw later (there (In-insert_candidate-there a m))
]

In-sort_candidates_of :
    {c : NotificationCandidate} {xs : List NotificationCandidate}
    → In c xs
    → In c (sort_candidates xs)
unfolding sort_candidates
In-sort_candidates_of {c} (here {xs}) = In-insert_candidate-here c (sort_candidates xs)
In-sort_candidates_of (there {x = b} m) = In-insert_candidate-there b (In-sort_candidates_of m)

open_guard {ℓ} :
    {A : Type ℓ} {a : A} (b : Bool) (xs : List A)
    → b ≡ false
    → In a xs
    → In a (if b then [] else xs)
open_guard b xs h m = rw h m

module _ (sha256 : String → String) (run : CommandRunner) (settings : NotificationSettings)
    (state : PersistentState) (snapshot : SnapshotResponse) (now : Datetime) where
  watch_complete :
      (c : NotificationCandidate) (item : NormalizedItem)
      → settings.notify_permanent ≡ true
      → In item snapshot.payload.items
      → item_candidate state snapshot now item ≡ some c
      → In c (watch_candidates settings state snapshot now)
  unfolding watch_candidates
  watch_complete c item on i made =
      open_guard _ _ (ground arith) (In-filter_map_of (item_candidate state snapshot now) i made)

  finding_made :
      (owned : List String) (finding : SecurityFinding) (fixed : String) (c : NotificationCandidate)
      → contains finding.finding_id owned ≡ false
      → eligible_security finding settings.security_minimum_severity ≡ true
      → finding.fixed_version ≡ some fixed
      → security_notification sha256 state finding fixed ≡ c
      → finding_candidate sha256 settings state owned finding ≡ some c
  unfolding finding_candidate
  finding_made owned finding fixed c free eligible e same = ground arith

  security_complete :
      (owned : List String) (finding : SecurityFinding) (c : NotificationCandidate)
      → settings.notify_security ≡ true
      → fresh_source current_provenance snapshot SourceName.security now ≡ true
      → In finding (flat_map (λ group. group.findings) snapshot.payload.findings)
      → finding_candidate sha256 settings state owned finding ≡ some c
      → In c (security_candidates sha256 settings state snapshot now owned)
  unfolding security_candidates
  security_complete owned finding c on fresh i made =
      open_guard _ _ (ground arith)
        (In-filter_map_of (finding_candidate sha256 settings state owned) i made)

  condition_made :
      (watch : WatchRecord) (condition : SecurityFixCondition) (version : String)
      (finding : SecurityFinding) (v : Option String) (f : Option SecurityFinding)
      → watch.mode ≡ WatchMode.temporary
      → v ≡ some version
      → f ≡ some finding
      → eligible_finding settings finding ≡ true
      → reaches_fix (compare_versions run version condition.fixed_version) ≡ true
      → condition_candidate sha256 run settings state watch condition v f
        ≡ some (record {
          candidate = condition_notification sha256 state.ledger watch condition version;
          finding_id = finding.finding_id;
        })
  unfolding condition_candidate
  condition_made watch condition version finding v f mode e g eligible reached =
      rw (e, g) (rw (eligible, reached))

  reaches_fix_of :
      (r : Result ArchDegraded VersionSign)
      → (r ≡ ok VersionSign.same) ⊎ (r ≡ ok VersionSign.newer)
      → reaches_fix r ≡ true
  unfolding reaches_fix
  reaches_fix_of r (inl e) = rw e
  reaches_fix_of r (inr e) = rw e

  watch_made :
      (watch : WatchRecord) (condition : SecurityFixCondition) (o : Option SecurityFixCondition)
      (x : ConditionalSecurityCandidate)
      → o ≡ some condition
      → watch.mode ≡ WatchMode.temporary
      → condition_candidate sha256 run settings state watch condition
          (candidate_version (installable_item snapshot watch))
          (matching_finding snapshot watch condition)
        ≡ some x
      → watch_candidate sha256 run settings state snapshot watch o ≡ some x
  unfolding watch_candidate
  watch_made watch condition o x e mode made =
      rw e (ground (arith, watch_mode_beq_iff watch.mode WatchMode.temporary))

  condition_complete :
      (watch : WatchRecord) (x : ConditionalSecurityCandidate)
      → settings.notify_security ≡ true
      → fresh_source live snapshot SourceName.arch now ≡ true
      → fresh_source live snapshot SourceName.security now ≡ true
      → In watch state.watches
      → watch_candidate sha256 run settings state snapshot watch watch.condition ≡ some x
      → In x (conditional_security_candidates sha256 run settings state snapshot now)
  unfolding conditional_security_candidates
  condition_complete watch x on arch security w made = open_guard _ _ (ground arith) (
      In-filter_map_of (λ v. watch_candidate sha256 run settings state snapshot v v.condition) w
        made)

  -- Every candidate that is justified, in the sense of the soundness of the policy, is listed.
  pub notification_candidates_complete :
      (c : NotificationCandidate)
      → Justified sha256 run settings state snapshot now c
      → In c (notification_candidates sha256 run settings state snapshot now)
  unfolding notification_candidates
  notification_candidates_complete c (by_watch item i on watched fresh made) =
      In-sort_candidates_of (In-append_left _ (watch_complete c item on i made))
  notification_candidates_complete c (by_finding finding fixed i on fresh free eligible e same) =
      let owned = conditional_security_owned_findings state snapshot in
      In-sort_candidates_of (
        In-append_right (watch_candidates settings state snapshot now) (
          In-append_left _ (
            security_complete owned finding c on fresh i
              (finding_made owned finding fixed c free eligible e same))))
  notification_candidates_complete c
        (by_condition watch condition version finding w on arch security mode held v f eligible fix
          same) =
      let made =
        condition_made watch condition version finding _ _ mode v f eligible
          (reaches_fix_of _ fix) in
      In-sort_candidates_of (
        In-append_right (watch_candidates settings state snapshot now) (
          In-append_right
            (security_candidates sha256 settings state snapshot now
              (conditional_security_owned_findings state snapshot))
            (rw (← same) (
              In-map_of (λ x. x.candidate)
                (condition_complete watch _ on arch security w
                  (watch_made watch condition _ _ held mode made))))))
