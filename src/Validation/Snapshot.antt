-- ===== src/Validation/Snapshot.antt =====
-- helper/opatchy_helper/validation.py: what a snapshot must satisfy.
use opatchy.Base.{
  Bool, List, Option, String, [], all, contains, each, false, find_last, if◌then◌else◌, is_unique,
  length, map, nat_eq, none, not, ok, some, starts_with, string_eq, ◌&&◌, ◌==◌, ◌>>◌, ◌||◌, ◌∷◌,
}
use opatchy.Models.{
  ErrorCode, ItemSource, NormalizedItem, ScopeHealth, SecurityFinding, SecurityFindingGroup,
  SnapshotPayload, SourceHealth, SourceName, SourceScope, Summary, WatchMode, item_source_eq,
  source_name_eq, source_scope_eq, watch_mode_eq,
}
use opatchy.Scan.Assembly.{summary}
use opatchy.Validation.Fields.{
  Check, fail_if, validate_avg_identifier, validate_cause, validate_identifier, validate_kev,
  validate_nonnegative, validate_optional,
}

abbrev pub all_sources : List SourceName
all_sources =
    SourceName.security ∷ SourceName.cisa_kev ∷ SourceName.omarchy ∷ SourceName.arch
    ∷ SourceName.aur ∷ SourceName.flatpak ∷ SourceName.mise ∷ []

abbrev pub all_scopes : List SourceScope
all_scopes = SourceScope.user ∷ SourceScope.system ∷ []

-- `set(xs) == set(every)`, for a list of every member of an enum
abbrev pub covers_sources : List SourceName → Bool
covers_sources xs = all (λ x. contains x xs) all_sources

abbrev pub covers_scopes : List SourceScope → Bool
covers_scopes xs = all (λ x. contains x xs) all_scopes

unfoldable pub scopes_of : List ScopeHealth → List SourceScope
scopes_of scopes = map (λ scope. scope.scope) scopes

-- `_validate_scopes`
unfoldable pub validate_scopes : SourceHealth → Check
unfolding scopes_of
validate_scopes source = if length source.scopes == 0 then ok tt else (do
  fail_if (not (source.source == SourceName.flatpak)) ErrorCode.invalid_envelope
      "only Flatpak supports scoped source health"
  fail_if
      (not (is_unique (scopes_of source.scopes)) || not (covers_scopes (scopes_of source.scopes)))
      ErrorCode.invalid_envelope "Flatpak source scopes are incomplete"
  each (λ scope. validate_cause scope.cause) source.scopes)

-- the body of the loop of `_validate_sources`
unfoldable pub validate_source : SourceHealth → Check
unfolding validate_scopes
validate_source source = do validate_cause source.cause; validate_scopes source

unfoldable pub sources_of : List SourceHealth → List SourceName
sources_of sources = map (λ source. source.source) sources

unfoldable pub validate_sources : List SourceHealth → Check
unfolding sources_of
validate_sources sources = do
  fail_if (not (is_unique (sources_of sources)) || not (covers_sources (sources_of sources)))
      ErrorCode.invalid_envelope "snapshot.sources must contain each source once"
  each validate_source sources

-- the body of the loop of `_validate_items`
unfoldable pub validate_item : NormalizedItem → Check
validate_item item = do
  fail_if (item.watch_armed && not (item.watch_mode == WatchMode.temporary))
      ErrorCode.invalid_envelope "only temporary watches can be armed"
  validate_identifier item.item_id "item.id"
  validate_identifier item.label "item.label"
  validate_optional item.installed_fingerprint "item.installedFingerprint"
  validate_optional item.candidate_fingerprint "item.candidateFingerprint"

unfoldable pub validate_items : List NormalizedItem → Check
validate_items items = do
  fail_if (not (is_unique (map (λ item. item.item_id) items))) ErrorCode.duplicate_item_id
      "item IDs must be unique"
  each validate_item items

-- the body of the loop of `_validate_group`
unfoldable pub validate_finding : String → SecurityFinding → Check
unfolding validate_avg_identifier validate_kev
validate_finding item_id finding = do
  fail_if (not (finding.item_id == item_id)) ErrorCode.invalid_envelope
      "security finding ID does not match its group"
  validate_avg_identifier finding.finding_id "finding.id"
  validate_avg_identifier finding.advisory_id "finding.advisoryId"
  fail_if (not (finding.finding_id == finding.advisory_id)) ErrorCode.invalid_envelope
      "finding.id must equal finding.advisoryId"
  validate_identifier finding.advisory_type "finding.type"
  validate_optional finding.installed_version "finding.installedVersion"
  validate_kev finding.known_exploited finding.kev_status finding.kev_provenance

-- `source is not None and not _is_arch_source(source)`, of the last item with the identifier
is_other_source : Option NormalizedItem → Bool
is_other_source none = false
is_other_source (some item) = not (item.source == ItemSource.arch)

unfoldable pub validate_group : List NormalizedItem → SecurityFindingGroup → Check
unfolding is_other_source
validate_group items group = do
  fail_if (is_other_source (find_last (λ item. item.item_id == group.item_id) items))
      ErrorCode.invalid_envelope "security findings must attach to an Arch item"
  fail_if (not (starts_with group.item_id "arch:")) ErrorCode.invalid_envelope
      "security findings must use an Arch item ID"
  fail_if (length group.findings == 0) ErrorCode.invalid_envelope
      "security finding groups cannot be empty"
  fail_if (not (is_unique (map (λ finding. finding.finding_id) group.findings)))
      ErrorCode.duplicate_finding_id "security finding IDs must be unique"
  each (validate_finding group.item_id) group.findings

unfoldable pub validate_groups : List SecurityFindingGroup → List NormalizedItem → Check
validate_groups groups items = do
  fail_if (not (is_unique (map (λ group. group.item_id) groups))) ErrorCode.invalid_envelope
      "security finding groups must be unique"
  each (validate_group items) groups

unfoldable pub validate_summary : Summary → Check
validate_summary summary = do
  validate_nonnegative summary.total_updates "summary.totalUpdates"
  validate_nonnegative summary.watched_updates "summary.watchedUpdates"
  validate_nonnegative summary.security_findings "summary.securityFindings"
  validate_nonnegative summary.degraded_sources "summary.degradedSources"

unfoldable pub validate_snapshot : SnapshotPayload → Check
unfolding validate_summary
validate_snapshot payload = do
  validate_sources payload.sources
  validate_items payload.items
  validate_groups payload.findings payload.items
  validate_summary payload.summary
