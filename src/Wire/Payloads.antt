-- ===== src/Wire/Payloads.antt =====
-- helper/opatchy_helper/payload_parser.py: the readers of the health of sources and of payloads.
use opatchy.Base.{
  List, Option, String, [], bool_eq, list_eq, nat_eq, none, ok, option_eq, some, string_eq, ◌+++◌,
  ◌>>=◌, ◌∷◌,
}
use opatchy.Models.{
  InventoryPayload, ScopeHealth, SnapshotPayload, SourceHealth, StarResultPayload, Summary,
  arch_status_eq, condition_eq, item_source_eq, provenance_eq, severity_eq, source_name_eq,
  source_scope_eq, source_status_eq, watch_eq, watch_mode_eq,
}
use opatchy.Scan.Assembly.{scan_state, summary}
use opatchy.Validation.{Validated}
use opatchy.Wire.Enums.{
  arch_status_enum, error_code_enum, item_source_enum, kev_status_enum, notification_status_enum,
  provenance_enum, response_kind_enum, scan_state_enum, severity_enum, source_name_enum,
  source_scope_enum, source_status_enum, watch_mode_enum,
}
use opatchy.Wire.Fields.{
  enum, field, identifier, list_value, nonnegative_int, read_all, read_boolean, reader, timestamp,
}
use opatchy.Wire.Items.{parse_cause, parse_error, parse_group, parse_item, parse_notification}
use opatchy.Wire.Json.{JsonValue, get_field}
use opatchy.Wire.Timestamps.{Calendar}

unfoldable pub parse_summary : JsonValue → Validated Summary
unfolding reader field
parse_summary value = do
  r ←
      reader value "summary"
        ("totalUpdates" ∷ "watchedUpdates" ∷ "securityFindings" ∷ "degradedSources" ∷ [])
  total_field ← field r "totalUpdates"
  total ← nonnegative_int total_field "summary.totalUpdates"
  watched_field ← field r "watchedUpdates"
  watched ← nonnegative_int watched_field "summary.watchedUpdates"
  findings_field ← field r "securityFindings"
  findings ← nonnegative_int findings_field "summary.securityFindings"
  degraded_field ← field r "degradedSources"
  degraded ← nonnegative_int degraded_field "summary.degradedSources"
  ok (record {
    total_updates = total;
    watched_updates = watched;
    security_findings = findings;
    degraded_sources = degraded;
  })

unfoldable pub parse_star_result : JsonValue → Validated StarResultPayload
unfolding reader field enum
parse_star_result value = do
  r ← reader value "star-result" ("itemId" ∷ "mode" ∷ "watchArmed" ∷ [])
  item_id_field ← field r "itemId"
  item_id ← identifier item_id_field "star-result.itemId"
  mode_field ← field r "mode"
  mode ← enum mode_field "star-result.mode"
  watch_armed_field ← field r "watchArmed"
  watch_armed ← read_boolean watch_armed_field "star-result.watchArmed"
  ok (record { item_id = item_id; mode = mode; watch_armed = watch_armed })

unfoldable pub parse_inventory : JsonValue → Validated InventoryPayload
unfolding reader field enum read_all parse_item
parse_inventory value = do
  r ← reader value "inventory" ("source" ∷ "total" ∷ "items" ∷ [])
  items_field ← field r "items"
  entries ← list_value items_field "inventory.items"
  items ← read_all (λ entry. parse_item entry "inventory.items") entries
  source_field ← field r "source"
  source ← enum source_field "inventory.source"
  total_field ← field r "total"
  total ← nonnegative_int total_field "inventory.total"
  ok (record { source = source; total = total; items = items })

abbrev scope_fields : List String
scope_fields = "scope" ∷ "status" ∷ "provenance" ∷ "observedAt" ∷ "freshUntil" ∷ "cause" ∷ []

module _ (calendar : Calendar) where
  unfoldable pub parse_scope : JsonValue → String → Validated ScopeHealth
  unfolding reader field enum timestamp parse_error
  parse_scope value path = do
    r ← reader value path scope_fields
    cause_field ← field r "cause"
    cause ← parse_cause cause_field (path +++ ".cause")
    scope_field ← field r "scope"
    scope ← enum scope_field (path +++ ".scope")
    status_field ← field r "status"
    status ← enum status_field (path +++ ".status")
    provenance_field ← field r "provenance"
    provenance ← enum provenance_field (path +++ ".provenance")
    observed_field ← field r "observedAt"
    observed_at ← timestamp calendar observed_field (path +++ ".observedAt")
    fresh_field ← field r "freshUntil"
    fresh_until ← timestamp calendar fresh_field (path +++ ".freshUntil")
    ok (record {
      scope = scope;
      status = status;
      provenance = provenance;
      observed_at = observed_at;
      fresh_until = fresh_until;
      cause = cause;
    })

  -- `() if "scopes" not in reader.value else tuple(...)`
  unfoldable pub parse_scopes : Option JsonValue → String → Validated (List ScopeHealth)
  unfolding read_all parse_scope
  parse_scopes none path = ok []
  parse_scopes (some value) path = do
    entries ← list_value value path
    read_all (λ entry. parse_scope entry path) entries

  unfoldable pub parse_source : JsonValue → String → Validated SourceHealth
  unfolding reader field enum timestamp parse_error parse_scopes
  parse_source value path = do
    r ←
        reader value path (
          "source" ∷ "status" ∷ "provenance" ∷ "observedAt" ∷ "freshUntil" ∷ "cause" ∷ "scopes"
          ∷ [])
    cause_field ← field r "cause"
    cause ← parse_cause cause_field (path +++ ".cause")
    scopes ← parse_scopes (get_field "scopes" r.value) (path +++ ".scopes")
    source_field ← field r "source"
    source ← enum source_field (path +++ ".source")
    status_field ← field r "status"
    status ← enum status_field (path +++ ".status")
    provenance_field ← field r "provenance"
    provenance ← enum provenance_field (path +++ ".provenance")
    observed_field ← field r "observedAt"
    observed_at ← timestamp calendar observed_field (path +++ ".observedAt")
    fresh_field ← field r "freshUntil"
    fresh_until ← timestamp calendar fresh_field (path +++ ".freshUntil")
    ok (record {
      source = source;
      status = status;
      provenance = provenance;
      observed_at = observed_at;
      fresh_until = fresh_until;
      cause = cause;
      scopes = scopes;
    })

  unfoldable pub parse_snapshot : JsonValue → Validated SnapshotPayload
  unfolding reader field enum read_all parse_source parse_item parse_group parse_notification
      parse_summary
  parse_snapshot value = do
    r ←
        reader value "snapshot"
          ("scanState" ∷ "sources" ∷ "summary" ∷ "items" ∷ "findings" ∷ "notifications" ∷ [])
    sources_field ← field r "sources"
    source_entries ← list_value sources_field "snapshot.sources"
    sources ← read_all (λ entry. parse_source entry "snapshot.sources") source_entries
    items_field ← field r "items"
    item_entries ← list_value items_field "snapshot.items"
    items ← read_all (λ entry. parse_item entry "snapshot.items") item_entries
    findings_field ← field r "findings"
    group_entries ← list_value findings_field "snapshot.findings"
    findings ← read_all (λ entry. parse_group entry "snapshot.findings") group_entries
    notifications_field ← field r "notifications"
    outcome_entries ← list_value notifications_field "snapshot.notifications"
    notifications ←
        read_all (λ entry. parse_notification entry "snapshot.notifications") outcome_entries
    state_field ← field r "scanState"
    scan_state ← enum state_field "snapshot.scanState"
    summary_field ← field r "summary"
    summary ← parse_summary summary_field
    ok (record {
      scan_state = scan_state;
      sources = sources;
      summary = summary;
      items = items;
      findings = findings;
      notifications = notifications;
    })
