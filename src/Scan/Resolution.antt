-- ===== src/Scan/Resolution.antt =====
-- helper/opatchy_helper/scan_resolution.py: each source's outcome, or what the previous generation
-- still knows of it.
pub mod Stale
use opatchy.Base.{
  Bool, List, Option, String, [], contains, err, false, filter, find, if◌then◌else◌, map, none, not,
  ok, some, starts_with, string_eq, true, ℕ, ◌&&◌, ◌+++◌, ◌+◌, ◌==◌, ◌>>=◌,
}
use opatchy.Models.{
  Datetime, ErrorCode, ErrorInfo, GenerationBundle, ItemSource, NormalizedItem, Provenance,
  ScopeHealth, SecurityFindingGroup, SnapshotResponse, SourceHealth, SourceName, SourceScope,
  SourceStatus, item_source_eq, source_name_eq, source_scope_eq, source_scope_value,
  source_status_eq,
}
use opatchy.Scan.Outcomes.{ScanFault, Scanned, SourceOutcome, outcome_key, source_key, successful}

-- six hours, in microseconds
abbrev pub freshness : ℕ
freshness = 21600000000

-- `SourceHealth | ScopeHealth`
pub data Health : Type 0 where
  source_health : SourceHealth → Health
  scope_health : ScopeHealth → Health

pub record ResolvedOutcome : Type 0 where
  pub outcome : SourceOutcome
  pub health : Health
  pub items : List NormalizedItem
  pub findings : List SecurityFindingGroup
  pub usable : Bool

abbrev pub health_status : Health → SourceStatus
health_status (Health.source_health h) = h.status
health_status (Health.scope_health h) = h.status

abbrev pub health_provenance : Health → Provenance
health_provenance (Health.source_health h) = h.provenance
health_provenance (Health.scope_health h) = h.provenance

abbrev pub health_cause : Health → Option ErrorInfo
health_cause (Health.source_health h) = h.cause
health_cause (Health.scope_health h) = h.cause

abbrev pub health_observed_at : Health → Datetime
health_observed_at (Health.source_health h) = h.observed_at
health_observed_at (Health.scope_health h) = h.observed_at

abbrev pub health_fresh_until : Health → Datetime
health_fresh_until (Health.source_health h) = h.fresh_until
health_fresh_until (Health.scope_health h) = h.fresh_until

-- a health of the source or of the scope, as the outcome has one
unfoldable pub make_health :
    SourceName
    → Option SourceScope
    → SourceStatus
    → Provenance
    → Datetime
    → Datetime
    → Option ErrorInfo
    → Health
make_health source none status provenance observed_at fresh_until cause =
    Health.source_health (record {
      source = source;
      status = status;
      provenance = provenance;
      observed_at = observed_at;
      fresh_until = fresh_until;
      cause = cause;
      scopes = [];
    })
make_health source (some scope) status provenance observed_at fresh_until cause =
    Health.scope_health (record {
      scope = scope;
      status = status;
      provenance = provenance;
      observed_at = observed_at;
      fresh_until = fresh_until;
      cause = cause;
    })

unfoldable pub fresh_health : SourceOutcome → Datetime → Health
unfolding make_health
fresh_health outcome now =
    make_health outcome.source outcome.scope outcome.status outcome.provenance now (now + freshness)
      none

unfoldable pub failed_health : SourceOutcome → Datetime → Health
unfolding make_health
failed_health outcome now =
    make_health outcome.source outcome.scope outcome.status Provenance.live now now outcome.cause

unfoldable pub stale_health : SourceOutcome → Health → Health
unfolding make_health
stale_health outcome previous =
    make_health outcome.source outcome.scope SourceStatus.stale Provenance.last_good
      (health_observed_at previous) (health_fresh_until previous) outcome.cause

abbrev pub missing_scope : SourceScope → Datetime → ScopeHealth
missing_scope scope now = record {
  scope = scope;
  status = SourceStatus.error;
  provenance = Provenance.live;
  observed_at = now;
  fresh_until = now;
  cause = some (record {
    code = ErrorCode.source_unavailable;
    message = "source scope has no cached evidence";
  });
}

abbrev pub scope_or : Option ScopeHealth → ScopeHealth → ScopeHealth
scope_or none other = other
scope_or (some health) other = health

-- the health of a scope, or of the source itself
scoped_health : SourceHealth → Option SourceScope → Datetime → Health
scoped_health health none now = Health.source_health health
scoped_health health (some scope) now =
    Health.scope_health
      (scope_or (find (λ value. value.scope == scope) health.scopes) (missing_scope scope now))

located_health : Option SourceHealth → Option SourceScope → Datetime → Scanned Health
unfolding scoped_health
located_health none scope now = err ScanFault.runtime_error
located_health (some health) scope now = ok (scoped_health health scope now)

-- `_previous_health`; its `next` has no default
unfoldable pub previous_health :
    SnapshotResponse → SourceName → Option SourceScope → Datetime → Scanned Health
unfolding located_health
previous_health snapshot source scope now =
    located_health (find (λ value. value.source == source) snapshot.payload.sources) scope now

abbrev pub scope_text : Option SourceScope → String
scope_text none = "None"
scope_text (some scope) = source_scope_value scope

unfoldable pub belongs_to : NormalizedItem → SourceName → Option SourceScope → Bool
belongs_to item source scope = elim source [
  | SourceName.omarchy ↦ item.source == ItemSource.omarchy
  | SourceName.arch ↦ item.source == ItemSource.arch
  | SourceName.aur ↦ item.source == ItemSource.aur
  | SourceName.flatpak ↦
      item.source == ItemSource.flatpak
      && starts_with item.item_id ("flatpak:" +++ scope_text scope +++ ":")
  | SourceName.mise ↦ item.source == ItemSource.mise
  | _ ↦ false
]

abbrev pub as_last_good : NormalizedItem → NormalizedItem
as_last_good item = record item { provenance = Provenance.last_good }

unfoldable pub last_good_items :
    SnapshotResponse → SourceName → Option SourceScope → List NormalizedItem
last_good_items snapshot source scope =
    map as_last_good (filter (λ item. belongs_to item source scope) snapshot.payload.items)

unfoldable pub last_good_findings : SnapshotResponse → SourceName → List SecurityFindingGroup
last_good_findings snapshot source =
    if source == SourceName.security then snapshot.payload.findings else []

-- the outcome of a source that no generation knows
unfoldable pub uncached_outcome : SourceName → Option SourceScope → SourceOutcome
uncached_outcome source scope = record {
  source = source;
  scope = scope;
  status = SourceStatus.error;
  provenance = Provenance.live;
  items = [];
  findings = [];
  cause =
      some
        (record { code = ErrorCode.source_unavailable; message = "source has no cached evidence" });
  permanent = false;
  applicable = source == SourceName.aur;
}

-- the outcome that repeats a cached health
unfoldable pub cached_outcome : SourceName → Option SourceScope → Health → SourceOutcome
cached_outcome source scope health = record {
  source = source;
  scope = scope;
  status = health_status health;
  provenance = health_provenance health;
  items = [];
  findings = [];
  cause = health_cause health;
  permanent = false;
  applicable = not (health_status health == SourceStatus.not_applicable);
}

-- `_cached`
unfoldable pub cached :
    SourceName → Option SourceScope → Option GenerationBundle → Datetime → Scanned ResolvedOutcome
cached source scope none now =
    let outcome = uncached_outcome source scope in
    ok (record {
      outcome = outcome;
      health = failed_health outcome now;
      items = [];
      findings = [];
      usable = false;
    })
cached source scope (some previous) now = do
  health ← previous_health previous.snapshot source scope now
  ok (record {
    outcome = cached_outcome source scope health;
    health = health;
    items = last_good_items previous.snapshot source scope;
    findings = last_good_findings previous.snapshot source;
    usable = contains (source_key source scope) previous.last_good_keys;
  })

-- the end of `resolve`: a failure that nothing replaces
abbrev pub unusable : SourceOutcome → Datetime → ResolvedOutcome
unusable outcome now = record {
  outcome = outcome;
  health = failed_health outcome now;
  items = [];
  findings = [];
  usable = false;
}

-- a failure, and the last good evidence of the source
unfoldable pub resolve_failure :
    SourceOutcome
    → SourceName
    → Option SourceScope
    → Option GenerationBundle
    → Datetime
    → Scanned ResolvedOutcome
resolve_failure outcome source scope none now = ok (unusable outcome now)
resolve_failure outcome source scope (some previous) now =
    if contains (outcome_key outcome) previous.last_good_keys
    then (do
      health ← previous_health previous.last_good source scope now
      ok (record {
        outcome = outcome;
        health = stale_health outcome health;
        items = last_good_items previous.last_good source scope;
        findings = last_good_findings previous.last_good source;
        usable = true;
      }))
    else ok (unusable outcome now)

unfoldable pub resolve :
    Option SourceOutcome
    → SourceName
    → Option SourceScope
    → Option GenerationBundle
    → Datetime
    → Scanned ResolvedOutcome
resolve none source scope previous now = cached source scope previous now
resolve (some outcome) source scope previous now =
    if successful outcome
    then ok (record {
      outcome = outcome;
      health = fresh_health outcome now;
      items = outcome.items;
      findings = outcome.findings;
      usable = true;
    })
    else resolve_failure outcome source scope previous now
