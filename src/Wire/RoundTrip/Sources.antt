-- ===== src/Wire/RoundTrip/Sources.antt =====
-- Reading back the health of sources, the summary and the payloads: helper/opatchy_helper/wire.py
-- and payload_parser.py.
use opatchy.Base.{
  >>=-eq-ok, All, List, String, [], arith, bool_eq, list_eq, map, nat_eq, ok, option_eq, refl,
  string_eq, ◌+++◌, ◌∷◌, ◌≡◌,
}
use opatchy.Base.Members.{All-each, All-of}
use opatchy.Models.{
  InventoryPayload, ScopeHealth, SnapshotPayload, SourceHealth, StarResultPayload, Summary,
  arch_status_eq, condition_eq, item_source_eq, provenance_eq, severity_eq, source_name_eq,
  source_scope_eq, source_status_eq, watch_eq, watch_mode_eq,
}
use opatchy.Scan.Assembly.{summary}
use opatchy.Validation.{
  validate_cause, validate_inventory, validate_nonnegative, validate_scopes, validate_snapshot,
  validate_source, validate_sources, validate_summary,
}
use opatchy.Wire.Enums.{
  arch_status_enum, error_code_enum, item_source_enum, kev_status_enum, notification_status_enum,
  provenance_enum, response_kind_enum, scan_state_enum, severity_enum, source_name_enum,
  source_scope_enum, source_status_enum, watch_mode_enum,
}
use opatchy.Wire.Fields.{enum-value, field, read_all, read_all-map, reader, timestamp-text}
use opatchy.Wire.Items.{parse_group, parse_item, parse_notification}
use opatchy.Wire.Json.{items_of, list_of}
use opatchy.Wire.Payloads.{
  parse_inventory, parse_scope, parse_scopes, parse_snapshot, parse_source, parse_star_result,
  parse_summary,
}
use opatchy.Wire.RoundTrip.Values.{
  parse_cause-value, parse_group-value, parse_item-value, parse_notification-value,
}
use opatchy.Wire.Timestamps.{Calendar, IsIso}
use opatchy.Wire.Values.{
  group_value, inventory_value, item_value, notification_value, scope_value, snapshot_value,
  source_value, star_result_value, summary_value,
}

pub parse_summary-value :
    (summary : Summary)
    → validate_summary summary ≡ ok tt
    → parse_summary (summary_value summary) ≡ ok summary
unfolding parse_summary summary_value reader field validate_summary validate_nonnegative
parse_summary-value summary h = ground arith

pub parse_star_result-value :
    (payload : StarResultPayload) → parse_star_result (star_result_value payload) ≡ ok payload
unfolding parse_star_result star_result_value reader field
parse_star_result-value payload = rw (enum-value payload.mode "star-result.mode") refl

pub parse_inventory-value :
    (payload : InventoryPayload)
    → validate_inventory payload ≡ ok tt
    → parse_inventory (inventory_value payload) ≡ ok payload
unfolding parse_inventory inventory_value reader field validate_inventory validate_nonnegative
parse_inventory-value payload h = ground (
  arith,
  read_all-map (λ entry. parse_item entry "inventory.items") item_value payload.items
      (All-of payload.items (λ item. parse_item-value item "inventory.items")),
  enum-value payload.source "inventory.source",
)

-- the datetimes of a scope and of a source have an ISO text
abbrev pub IsIsoScope : Calendar → ScopeHealth → Type 0
IsIsoScope calendar scope = IsIso calendar scope.observed_at × IsIso calendar scope.fresh_until

abbrev pub IsIsoSource : Calendar → SourceHealth → Type 0
IsIsoSource calendar source =
    IsIso calendar source.observed_at
    × IsIso calendar source.fresh_until
    × All (IsIsoScope calendar) source.scopes

module _ (calendar : Calendar) where
  pub parse_scope-value :
      (scope : ScopeHealth) (path : String)
      → validate_cause scope.cause ≡ ok tt
      → IsIsoScope calendar scope
      → parse_scope calendar (scope_value calendar scope) path ≡ ok scope
  unfolding parse_scope scope_value reader field
  parse_scope-value scope path h iso =
      rw
        (
          parse_cause-value scope.cause (path +++ ".cause") h,
          enum-value scope.scope (path +++ ".scope"),
          enum-value scope.status (path +++ ".status"),
          enum-value scope.provenance (path +++ ".provenance"),
          timestamp-text calendar scope.observed_at (path +++ ".observedAt") iso.0,
          timestamp-text calendar scope.fresh_until (path +++ ".freshUntil") iso.1,
        )
        refl

  parse_scopes-value :
      (scopes : List ScopeHealth) (path : String)
      → All (λ scope. validate_cause scope.cause ≡ ok tt) scopes
      → All (IsIsoScope calendar) scopes
      → read_all
          (λ entry. parse_scope calendar entry path)
          (list_of (items_of (map (scope_value calendar) scopes)))
        ≡ ok scopes
  unfolding read_all
  parse_scopes-value [] path hs isos = refl
  parse_scopes-value (scope ∷ scopes) path (h, hs) (iso, isos) =
      rw (parse_scope-value scope path h iso, parse_scopes-value scopes path hs isos) refl

  causes_of :
      (source : SourceHealth)
      → validate_scopes source ≡ ok tt
      → All (λ scope. validate_cause scope.cause ≡ ok tt) source.scopes
  unfolding validate_scopes
  causes_of source h =
      (elim source.scopes
          as (λ scopes.
            source.scopes ≡ scopes → All (λ scope. validate_cause scope.cause ≡ ok tt) scopes) [
              | [] ↦ λ e. tt
              | ◌∷◌ scope scopes ↦ λ e.
                  All-each (λ scope. validate_cause scope.cause) (scope ∷ scopes) (ground arith)
            ])
        refl

  pub parse_source-value :
      (source : SourceHealth) (path : String)
      → validate_source source ≡ ok tt
      → IsIsoSource calendar source
      → parse_source calendar (source_value calendar source) path ≡ ok source
  unfolding parse_source parse_scopes source_value reader field validate_source
  parse_source-value source path h (observed, fresh, isos) =
      let step = >>=-eq-ok (validate_cause source.cause) (λ _. validate_scopes source) h in
      ground (
        arith,
        parse_cause-value source.cause (path +++ ".cause") step.1,
        parse_scopes-value source.scopes (path +++ ".scopes") (causes_of source step.2) isos,
        enum-value source.source (path +++ ".source"),
        enum-value source.status (path +++ ".status"),
        enum-value source.provenance (path +++ ".provenance"),
        timestamp-text calendar source.observed_at (path +++ ".observedAt") observed,
        timestamp-text calendar source.fresh_until (path +++ ".freshUntil") fresh,
      )

  -- what a valid snapshot has, of what its reader checks
  validate_snapshot-parts :
      (payload : SnapshotPayload)
      → validate_snapshot payload ≡ ok tt
      → All (λ source. validate_source source ≡ ok tt) payload.sources
        × (validate_summary payload.summary ≡ ok tt)
  unfolding validate_snapshot validate_sources
  validate_snapshot-parts payload h =
      (All-each validate_source payload.sources (ground arith), ground arith)

  read_sources :
      (sources : List SourceHealth)
      → All (λ source. validate_source source ≡ ok tt) sources
      → All (IsIsoSource calendar) sources
      → All
          (λ source.
            parse_source calendar (source_value calendar source) "snapshot.sources" ≡ ok source)
          sources
  read_sources [] hs isos = tt
  read_sources (source ∷ sources) (h, hs) (iso, isos) =
      (parse_source-value source "snapshot.sources" h iso, read_sources sources hs isos)

  pub parse_snapshot-value :
      (payload : SnapshotPayload)
      → validate_snapshot payload ≡ ok tt
      → All (IsIsoSource calendar) payload.sources
      → parse_snapshot calendar (snapshot_value calendar payload) ≡ ok payload
  unfolding parse_snapshot snapshot_value reader field
  parse_snapshot-value payload h isos =
      let valid = validate_snapshot-parts payload h in
      rw
        (
          read_all-map (λ entry. parse_source calendar entry "snapshot.sources")
              (source_value calendar) payload.sources (read_sources payload.sources valid.0 isos),
          read_all-map (λ entry. parse_item entry "snapshot.items") item_value payload.items
              (All-of payload.items (λ item. parse_item-value item "snapshot.items")),
          read_all-map (λ entry. parse_group entry "snapshot.findings") group_value payload.findings
              (All-of payload.findings (λ group. parse_group-value group "snapshot.findings")),
          read_all-map (λ entry. parse_notification entry "snapshot.notifications")
              notification_value payload.notifications
              (All-of payload.notifications
                (λ outcome. parse_notification-value outcome "snapshot.notifications")),
          enum-value payload.scan_state "snapshot.scanState",
          parse_summary-value payload.summary valid.1,
        )
        refl
