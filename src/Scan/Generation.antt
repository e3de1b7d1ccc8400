-- ===== src/Scan/Generation.antt =====
-- helper/opatchy_helper/scan_generation.py, with the metadata of scan_assembly.py: when a source is
-- due, what a scan records of it, and the generation that a scan builds.
pub mod Backoff
pub mod InStep
pub mod Complete
use opatchy.Base.{
  Bool, List, Option, String, [], count, false, filter_map, find, if◌then◌else◌, leb, length, ltb,
  nat_eq, none, not, ok, some, true, ℕ, ℤ, ◌*◌, ◌+◌, ◌==◌, ◌>>=◌, ◌>>◌, ◌∷◌,
}
use opatchy.Models.{
  Datetime, GenerationBundle, NormalizedItem, PersistentState, SnapshotResponse, SourceHealth,
  SourceMetadata, SourceName, SourceScope, source_name_eq,
}
use opatchy.Scan.Assembly.{
  inventories, last_good_keys, normalized_findings, normalized_items, scan_state, source_healths,
  summary,
}
use opatchy.Scan.Outcomes.{Scanned, SourceOutcome, current, successful}
use opatchy.Scan.Resolution.{ResolvedOutcome, freshness, resolve}

abbrev pub minutes : ℕ → ℕ
minutes n = n * 60000000

-- `RETRY_DELAYS[min(count, 4) - 1]`, for a count of at least one
unfoldable pub retry_delay : ℕ → ℕ
retry_delay count =
    if leb count 1
    then minutes 5
    else if leb count 2
    then minutes 15
    else if leb count 3
    then minutes 60
    else minutes 360

unfoldable pub backing_off : Option Datetime → Datetime → Bool
backing_off none now = false
backing_off (some until) now = ltb now until

unfoldable pub has_aged : Option Datetime → Datetime → Bool
has_aged none now = true
has_aged (some last_success) now = leb (last_success + freshness) now

unfoldable pub due : Option SourceMetadata → Datetime → Bool → Bool
unfolding backing_off has_aged
due none now force = true
due (some metadata) now force =
    if force
    then true
    else if backing_off metadata.backoff_until now
    then false
    else has_aged metadata.last_success now

abbrev pub old_metadata : SourceName → Option SourceMetadata → SourceMetadata
old_metadata source none = record {
  source = source;
  last_success = none;
  backoff_until = none;
  failure_count = 0;
  permanent_failure = false;
}
old_metadata source (some metadata) = metadata

-- the outcomes that are not None
abbrev pub attempted : List (Option SourceOutcome) → List SourceOutcome
attempted outcomes = filter_map (λ outcome. outcome) outcomes

-- what is recorded of the first failure, if there is one
unfoldable pub after_failure :
    SourceName → SourceMetadata → Datetime → Option SourceOutcome → SourceMetadata
unfolding retry_delay
after_failure source old now none = record {
  source = source;
  last_success = some now;
  backoff_until = none;
  failure_count = 0;
  permanent_failure = false;
}
after_failure source old now (some failed) =
    let count = old.failure_count + 1 in
    if failed.permanent
    then record {
      source = source;
      last_success = old.last_success;
      backoff_until = some (now + minutes 360);
      failure_count = count;
      permanent_failure = true;
    }
    else record {
      source = source;
      last_success = old.last_success;
      backoff_until = some (now + retry_delay count);
      failure_count = count;
      permanent_failure = false;
    }

-- `_next_metadata`; all outcomes are successful exactly when no first failure is found
unfoldable pub next_metadata :
    SourceName → List (Option SourceOutcome) → Option SourceMetadata → Datetime → SourceMetadata
unfolding after_failure
next_metadata source current previous now =
    let old = old_metadata source previous in
    if length (attempted current) == 0
    then old
    else after_failure source old now
        (find (λ outcome. not (successful outcome)) (attempted current))

abbrev pub SourceOutcomeGroups : Type 0
SourceOutcomeGroups = List (SourceName × List (Option SourceOutcome))

abbrev pub find_metadata : SourceName → List SourceMetadata → Option SourceMetadata
find_metadata source metadata = find (λ entry. entry.source == source) metadata

unfoldable pub metadata : List SourceMetadata → SourceOutcomeGroups → Datetime → List SourceMetadata
metadata previous [] now = []
metadata previous ((source, current) ∷ groups) now =
    next_metadata source current (find_metadata source previous) now ∷ metadata previous groups now

pub record ScanInputs : Type 0 where
  pub omarchy : Option SourceOutcome
  pub arch : Option SourceOutcome
  pub aur : Option SourceOutcome
  pub flatpak_user : Option SourceOutcome
  pub flatpak_system : Option SourceOutcome
  pub mise : Option SourceOutcome
  pub security : Option SourceOutcome
  pub cisa_kev : Option SourceOutcome

-- `ScanInputs.source_outcomes`
abbrev pub source_outcomes : ScanInputs → SourceOutcomeGroups
source_outcomes inputs =
    (SourceName.omarchy, inputs.omarchy ∷ [])
    ∷ (SourceName.arch, inputs.arch ∷ [])
    ∷ (SourceName.aur, inputs.aur ∷ [])
    ∷ (SourceName.flatpak, inputs.flatpak_user ∷ inputs.flatpak_system ∷ [])
    ∷ (SourceName.mise, inputs.mise ∷ [])
    ∷ (SourceName.security, inputs.security ∷ [])
    ∷ (SourceName.cisa_kev, inputs.cisa_kev ∷ [])
    ∷ []

-- `ScanInputs.outcomes`, zipped with the identities of `resolve_all`
abbrev pub identified_outcomes :
    ScanInputs → List (Option SourceOutcome × SourceName × Option SourceScope)
identified_outcomes inputs =
    (inputs.omarchy, SourceName.omarchy, none)
    ∷ (inputs.arch, SourceName.arch, none)
    ∷ (inputs.aur, SourceName.aur, none)
    ∷ (inputs.flatpak_user, SourceName.flatpak, some SourceScope.user)
    ∷ (inputs.flatpak_system, SourceName.flatpak, some SourceScope.system)
    ∷ (inputs.mise, SourceName.mise, none)
    ∷ (inputs.security, SourceName.security, none)
    ∷ (inputs.cisa_kev, SourceName.cisa_kev, none)
    ∷ []

unfoldable pub resolve_each :
    List (Option SourceOutcome × SourceName × Option SourceScope)
    → Option GenerationBundle
    → Datetime
    → Scanned (List ResolvedOutcome)
resolve_each [] previous now = ok []
resolve_each ((current, source, scope) ∷ rest) previous now = do
  value ← resolve current source scope previous now
  values ← resolve_each rest previous now
  ok (value ∷ values)

-- `resolve_all(inputs.outcomes(), previous, now)`
unfoldable pub resolve_all :
    ScanInputs → Option GenerationBundle → Datetime → Scanned (List ResolvedOutcome)
unfolding resolve_each
resolve_all inputs previous now = resolve_each (identified_outcomes inputs) previous now

-- the bundle that `build_generation` returns
abbrev pub new_generation :
    String
    → ℕ
    → ScanInputs
    → Option GenerationBundle
    → PersistentState
    → Datetime
    → List ResolvedOutcome
    → List SourceHealth
    → List NormalizedItem
    → GenerationBundle
new_generation generation_id order inputs previous state now resolved sources items =
    let findings = normalized_findings resolved in
    let snapshot : SnapshotResponse = record {
      generated_at = now;
      generation_id = generation_id;
      payload = record {
        scan_state = scan_state resolved;
        sources = sources;
        summary = summary items findings sources;
        items = items;
        findings = findings;
        notifications = [];
      };
      protocol_version = ℤ.pos 1;
    } in
    record {
      order = order;
      snapshot = snapshot;
      inventories = inventories now generation_id items;
      state = record state { sources = metadata state.sources (source_outcomes inputs) now };
      last_good = snapshot;
      last_good_keys = last_good_keys previous resolved;
    }

unfoldable pub build_generation :
    (String → String)
    → String
    → ℕ
    → ScanInputs
    → Option GenerationBundle
    → PersistentState
    → Datetime
    → Scanned GenerationBundle
build_generation sha256 generation_id order inputs previous state now = do
  resolved ← resolve_all inputs previous now
  sources ← source_healths resolved now
  items ← normalized_items sha256 resolved
  ok (new_generation generation_id order inputs previous state now resolved sources items)
