-- ===== src/Scan/Assembly.antt =====
-- helper/opatchy_helper/scan_assembly.py: the parts of a generation, from the resolved outcomes.
-- `sha256` is the hex digest of a text.
pub mod Sources
pub mod Order
pub mod Items
use opatchy.Base.{
  Bool, List, Option, String, [], all, any, contains, count, err, false, filter, flat_map,
  if◌then◌else◌, is_unique, length, map, min, none, not, ok, some, sort_texts, string_eq, text_leb,
  true, ℕ, ℤ, ◌&&◌, ◌+++◌, ◌++◌, ◌+◌, ◌==◌, ◌>>=◌, ◌||◌, ◌∷◌,
}
use opatchy.Models.{
  Datetime, ErrorCode, ErrorInfo, GenerationBundle, InventoryResponse, ItemSource, NormalizedItem,
  Provenance, ScanState, ScopeHealth, SecurityFindingGroup, SourceHealth, SourceName, SourceStatus,
  Summary, WatchMode, item_source_eq, item_source_value, source_name_eq, source_name_value,
  source_status_eq, watch_mode_eq,
}
use opatchy.Scan.Outcomes.{ScanFault, Scanned, is_success, outcome_key, successful}
use opatchy.Scan.Resolution.{Health, ResolvedOutcome, health_status}

abbrev pub is_flatpak : ResolvedOutcome → Bool
is_flatpak value = value.outcome.source == SourceName.flatpak

not_applicable_scope : ScopeHealth → ScopeHealth
not_applicable_scope health =
    if health.status == SourceStatus.missing_dependency
    then record health { status = SourceStatus.not_applicable; cause = none }
    else health

abbrev invalid_envelope : String → ScanFault
invalid_envelope message =
    ScanFault.protocol (record { code = ErrorCode.invalid_envelope; message = message })

-- `_scope_health`
unfoldable pub scope_health_of : Health → Scanned ScopeHealth
unfolding not_applicable_scope
scope_health_of (Health.scope_health health) = ok (not_applicable_scope health)
scope_health_of (Health.source_health health) =
    err (invalid_envelope "Flatpak scope health is invalid")

-- `_source_health`
unfoldable pub source_health_of : Health → Scanned SourceHealth
source_health_of (Health.source_health health) = ok health
source_health_of (Health.scope_health health) = err (invalid_envelope "source health is scoped")

unfoldable pub basic_healths : List ResolvedOutcome → Scanned (List SourceHealth)
unfolding source_health_of
basic_healths [] = ok []
basic_healths (value ∷ values) = do
  health ← source_health_of value.health
  rest ← basic_healths values
  ok (health ∷ rest)

-- `_flatpak_status`; the last `next` always finds a status, since the test before it excludes that
-- both are `not_applicable`
unfoldable pub flatpak_status : SourceStatus → SourceStatus → SourceStatus
flatpak_status user system =
    if user == SourceStatus.stale || system == SourceStatus.stale
    then SourceStatus.stale
    else if (user == SourceStatus.ok || system == SourceStatus.ok)
        && ((user == SourceStatus.ok || user == SourceStatus.not_applicable)
            && (system == SourceStatus.ok || system == SourceStatus.not_applicable))
    then SourceStatus.ok
    else if user == SourceStatus.not_applicable && system == SourceStatus.not_applicable
    then SourceStatus.not_applicable
    else if not (user == SourceStatus.not_applicable)
    then user
    else system

unfoldable pub flatpak_provenance : SourceStatus → SourceStatus → Provenance
flatpak_provenance user system =
    if user == SourceStatus.stale || system == SourceStatus.stale
    then Provenance.last_good
    else Provenance.live

flatpak_cause : Option ErrorInfo → Option ErrorInfo → Option ErrorInfo
flatpak_cause (some cause) other = some cause
flatpak_cause none other = other

unfoldable pub flatpak_health : ScopeHealth → ScopeHealth → Datetime → SourceHealth
unfolding flatpak_status flatpak_provenance flatpak_cause
flatpak_health user system now = record {
  source = SourceName.flatpak;
  status = flatpak_status user.status system.status;
  provenance = flatpak_provenance user.status system.status;
  observed_at = now;
  fresh_until = min user.fresh_until system.fresh_until;
  cause = flatpak_cause user.cause system.cause;
  scopes = user ∷ system ∷ [];
}

unfoldable pub flatpak_pair : List ResolvedOutcome → Datetime → Scanned SourceHealth
unfolding scope_health_of flatpak_health
flatpak_pair (user ∷ system ∷ []) now = do
  user_health ← scope_health_of user.health
  system_health ← scope_health_of system.health
  ok (flatpak_health user_health system_health now)
flatpak_pair values now = err ScanFault.value_error

unfoldable pub insert_health : SourceHealth → List SourceHealth → List SourceHealth
insert_health a [] = a ∷ []
insert_health a (b ∷ bs) =
    if text_leb (source_name_value a.source) (source_name_value b.source)
    then a ∷ b ∷ bs
    else b ∷ insert_health a bs

unfoldable pub sort_healths : List SourceHealth → List SourceHealth
unfolding insert_health
sort_healths [] = []
sort_healths (a ∷ as') = insert_health a (sort_healths as')

unfoldable pub source_healths : List ResolvedOutcome → Datetime → Scanned (List SourceHealth)
source_healths resolved now = do
  basic ← basic_healths (filter (λ value. not (is_flatpak value)) resolved)
  flatpak ← flatpak_pair (filter is_flatpak resolved) now
  ok (sort_healths (basic ++ flatpak ∷ []))

-- `_OMARCHY_SYSTEM_IDS`
abbrev pub omarchy_system_ids : List String
omarchy_system_ids = "arch:omarchy" ∷ "arch:omarchy-dev" ∷ []

unfoldable pub item_fingerprint : (String → String) → NormalizedItem → Option String → Option String
item_fingerprint sha256 item none = none
item_fingerprint sha256 item (some value) =
    some (sha256 (item_source_value item.source +++ "\0" +++ item.item_id +++ "\0" +++ value))

-- `_fingerprinted`
unfoldable pub fingerprinted : (String → String) → NormalizedItem → NormalizedItem
unfolding item_fingerprint
fingerprinted sha256 item = record item {
  installed_fingerprint = item_fingerprint sha256 item item.installed;
  candidate_fingerprint = item_fingerprint sha256 item item.candidate;
}

unfoldable pub insert_item : NormalizedItem → List NormalizedItem → List NormalizedItem
insert_item a [] = a ∷ []
insert_item a (b ∷ bs) = if text_leb a.item_id b.item_id then a ∷ b ∷ bs else b ∷ insert_item a bs

unfoldable pub sort_items : List NormalizedItem → List NormalizedItem
unfolding insert_item
sort_items [] = []
sort_items (a ∷ as') = insert_item a (sort_items as')

abbrev pub item_ids : List NormalizedItem → List String
item_ids items = map (λ item. item.item_id) items

-- the items of the outcomes, in their order and with their fingerprints
unfoldable pub collected_items : (String → String) → List ResolvedOutcome → List NormalizedItem
collected_items sha256 resolved = map (fingerprinted sha256) (
    filter (λ item. not (contains item.item_id omarchy_system_ids))
      (flat_map (λ outcome. outcome.items) resolved))

unfoldable pub normalized_items :
    (String → String) → List ResolvedOutcome → Scanned (List NormalizedItem)
normalized_items sha256 resolved =
    let items = collected_items sha256 resolved in
    if not (is_unique (item_ids items))
    then err (
        ScanFault.protocol
          (record { code = ErrorCode.duplicate_item_id; message = "scan item IDs are duplicated" }))
    else ok (sort_items items)

unfoldable pub insert_group :
    SecurityFindingGroup → List SecurityFindingGroup → List SecurityFindingGroup
insert_group a [] = a ∷ []
insert_group a (b ∷ bs) = if text_leb a.item_id b.item_id then a ∷ b ∷ bs else b ∷ insert_group a bs

unfoldable pub sort_groups : List SecurityFindingGroup → List SecurityFindingGroup
unfolding insert_group
sort_groups [] = []
sort_groups (a ∷ as') = insert_group a (sort_groups as')

unfoldable pub normalized_findings : List ResolvedOutcome → List SecurityFindingGroup
unfolding sort_groups
normalized_findings resolved = sort_groups (flat_map (λ outcome. outcome.findings) resolved)

abbrev pub count_findings : List SecurityFindingGroup → ℕ
count_findings [] = 0
count_findings (group ∷ groups) = length group.findings + count_findings groups

unfoldable pub summary :
    List NormalizedItem → List SecurityFindingGroup → List SourceHealth → Summary
summary items findings sources = record {
  total_updates = ℤ.pos (length items);
  watched_updates = ℤ.pos (count (λ item. not (item.watch_mode == WatchMode.off)) items);
  security_findings = ℤ.pos (count_findings findings);
  degraded_sources = ℤ.pos (count (λ source. not (is_success source.status)) sources);
}

-- membership in `_MANDATORY_SOURCES`
abbrev pub is_mandatory_source : SourceName → Bool
is_mandatory_source SourceName.omarchy = true
is_mandatory_source SourceName.arch = true
is_mandatory_source SourceName.security = true
is_mandatory_source _ = false

abbrev pub is_mandatory : ResolvedOutcome → Bool
is_mandatory value =
    is_mandatory_source value.outcome.source
    || (value.outcome.source == SourceName.aur && value.outcome.applicable)

-- `_is_applicable`
abbrev pub is_applicable : ResolvedOutcome → Bool
is_applicable value =
    value.outcome.applicable
    && not (
        value.outcome.source == SourceName.flatpak
        && value.outcome.status == SourceStatus.missing_dependency)

abbrev pub is_complete : ResolvedOutcome → Bool
is_complete value = successful value.outcome && health_status value.health == SourceStatus.ok

unfoldable pub scan_state : List ResolvedOutcome → ScanState
scan_state resolved =
    let applicable = filter is_applicable resolved in
    if not (any (λ value. value.usable) (filter is_mandatory resolved))
    then ScanState.failed
    else if all is_complete applicable
    then ScanState.complete
    else if any (λ value. value.usable) applicable
    then ScanState.partial
    else ScanState.failed

abbrev pub inventory_sources : List ItemSource
inventory_sources = ItemSource.arch ∷ ItemSource.aur ∷ ItemSource.flatpak ∷ ItemSource.mise ∷ []

unfoldable pub inventory_of :
    Datetime → String → List NormalizedItem → ItemSource → InventoryResponse
inventory_of generated_at generation_id items source =
    let source_items = filter (λ item. item.source == source) items in
    record {
      generated_at = generated_at;
      generation_id = generation_id;
      payload = record {
        source = source;
        total = ℤ.pos (length source_items);
        items = source_items;
      };
      protocol_version = ℤ.pos 1;
    }

unfoldable pub inventories : Datetime → String → List NormalizedItem → List InventoryResponse
inventories generated_at generation_id items =
    map (inventory_of generated_at generation_id items) inventory_sources

-- the members of a set, once each
unfoldable pub distinct : List String → List String
distinct [] = []
distinct (s ∷ ss) = let rest = distinct ss in if contains s rest then rest else s ∷ rest

abbrev pub retained_keys : Option GenerationBundle → List String
retained_keys none = []
retained_keys (some previous) = previous.last_good_keys

unfoldable pub last_good_keys : Option GenerationBundle → List ResolvedOutcome → List String
unfolding distinct
last_good_keys previous resolved = sort_texts (
    distinct (
      retained_keys previous
      ++ map (λ value. outcome_key value.outcome)
          (filter (λ value. successful value.outcome) resolved)))
