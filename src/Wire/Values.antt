-- ===== src/Wire/Values.antt =====
-- helper/opatchy_helper/wire.py: responses as JSON. The entries of a dict are in the order of its
-- keys, where the source adds the optional ones last.
use opatchy.Base.{
  List, Option, String, [], bool_eq, list_eq, nat_eq, none, ok, option_eq, some, string_eq, ℤ, ◌>>◌,
  ◌∷◌,
}
use opatchy.Models.{
  Datetime, ErrorInfo, InventoryPayload, NormalizedItem, NotificationOutcome, Provenance, Response,
  ScopeHealth, SecurityFinding, SecurityFindingGroup, SnapshotPayload, SourceHealth,
  StarResultPayload, Summary, arch_status_eq, condition_eq, item_source_eq, provenance_eq,
  severity_eq, source_name_eq, source_scope_eq, source_status_eq, watch_eq, watch_mode_eq,
}
use opatchy.Scan.Assembly.{summary}
use opatchy.Validation.{Validated, validate_response}
use opatchy.Wire.Enums.{
  ResponseKind, arch_status_enum, error_code_enum, item_source_enum, kev_status_enum,
  notification_status_enum, provenance_enum, response_kind_enum, scan_state_enum, severity_enum,
  source_name_enum, source_scope_enum, source_status_enum, text_of, watch_mode_enum,
}
use opatchy.Wire.Json.{JsonValue, array_of, optional_text, record_of}
use opatchy.Wire.Timestamps.{Calendar, timestamp_text}

unfoldable pub error_value : ErrorInfo → JsonValue
error_value error =
    record_of (("code", text_of error.code) ∷ ("message", JsonValue.text error.message) ∷ [])

abbrev pub cause_value : Option ErrorInfo → JsonValue
cause_value none = JsonValue.null
cause_value (some cause) = error_value cause

unfoldable pub notification_value : NotificationOutcome → JsonValue
notification_value outcome =
    record_of (
      ("fingerprint", JsonValue.text outcome.fingerprint) ∷ ("status", text_of outcome.status) ∷ [])

-- `null`, or the value of a member
abbrev pub optional_member : Option Provenance → JsonValue
optional_member none = JsonValue.null
optional_member (some member) = text_of member

unfoldable pub finding_value : SecurityFinding → JsonValue
finding_value finding = record_of (
    ("advisoryId", JsonValue.text finding.advisory_id)
    ∷ ("cveIds", array_of JsonValue.text finding.cve_ids)
    ∷ ("fixedVersion", optional_text finding.fixed_version)
    ∷ ("id", JsonValue.text finding.finding_id)
    ∷ ("installedVersion", optional_text finding.installed_version)
    ∷ ("itemId", JsonValue.text finding.item_id)
    ∷ ("kevProvenance", optional_member finding.kev_provenance)
    ∷ ("kevStatus", text_of finding.kev_status)
    ∷ ("knownExploited", JsonValue.boolean finding.known_exploited)
    ∷ ("provenance", text_of finding.provenance)
    ∷ ("severity", text_of finding.severity)
    ∷ ("status", text_of finding.status)
    ∷ ("type", JsonValue.text finding.advisory_type)
    ∷ [])

unfoldable pub group_value : SecurityFindingGroup → JsonValue
unfolding finding_value
group_value group = record_of (
    ("findings", array_of finding_value group.findings)
    ∷ ("itemId", JsonValue.text group.item_id)
    ∷ [])

-- `if value is not None: document[name] = value`
abbrev pub with_text :
    String → Option String → List (String × JsonValue) → List (String × JsonValue)
with_text name none rest = rest
with_text name (some value) rest = (name, JsonValue.text value) ∷ rest

unfoldable pub item_value : NormalizedItem → JsonValue
item_value item = record_of (
    ("candidate", optional_text item.candidate)
    ∷ with_text "candidateFingerprint" item.candidate_fingerprint (
        ("id", JsonValue.text item.item_id)
        ∷ ("installed", optional_text item.installed)
        ∷ with_text "installedFingerprint" item.installed_fingerprint (
            ("label", JsonValue.text item.label)
            ∷ ("provenance", text_of item.provenance)
            ∷ ("source", text_of item.source)
            ∷ ("watchArmed", JsonValue.boolean item.watch_armed)
            ∷ ("watchMode", text_of item.watch_mode)
            ∷ ("watchable", JsonValue.boolean item.watchable)
            ∷ [])))

unfoldable pub summary_value : Summary → JsonValue
summary_value summary = record_of (
    ("degradedSources", JsonValue.integer summary.degraded_sources)
    ∷ ("securityFindings", JsonValue.integer summary.security_findings)
    ∷ ("totalUpdates", JsonValue.integer summary.total_updates)
    ∷ ("watchedUpdates", JsonValue.integer summary.watched_updates)
    ∷ [])

unfoldable pub star_result_value : StarResultPayload → JsonValue
star_result_value payload = record_of (
    ("itemId", JsonValue.text payload.item_id)
    ∷ ("mode", text_of payload.mode)
    ∷ ("watchArmed", JsonValue.boolean payload.watch_armed)
    ∷ [])

unfoldable pub inventory_value : InventoryPayload → JsonValue
unfolding item_value
inventory_value payload = record_of (
    ("items", array_of item_value payload.items)
    ∷ ("source", text_of payload.source)
    ∷ ("total", JsonValue.integer payload.total)
    ∷ [])

module _ (calendar : Calendar) where
  abbrev pub moment_value : Datetime → JsonValue
  moment_value moment = JsonValue.text (timestamp_text calendar moment)

  unfoldable pub scope_value : ScopeHealth → JsonValue
  unfolding timestamp_text error_value
  scope_value scope = record_of (
      ("cause", cause_value scope.cause)
      ∷ ("freshUntil", moment_value scope.fresh_until)
      ∷ ("observedAt", moment_value scope.observed_at)
      ∷ ("provenance", text_of scope.provenance)
      ∷ ("scope", text_of scope.scope)
      ∷ ("status", text_of scope.status)
      ∷ [])

  -- `if source.scopes: value["scopes"] = [...]`
  abbrev pub with_scopes : List ScopeHealth → List (String × JsonValue) → List (String × JsonValue)
  with_scopes [] rest = rest
  with_scopes (scope ∷ scopes) rest = ("scopes", array_of scope_value (scope ∷ scopes)) ∷ rest

  unfoldable pub source_value : SourceHealth → JsonValue
  unfolding timestamp_text error_value scope_value
  source_value source = record_of (
      ("cause", cause_value source.cause)
      ∷ ("freshUntil", moment_value source.fresh_until)
      ∷ ("observedAt", moment_value source.observed_at)
      ∷ ("provenance", text_of source.provenance)
      ∷ with_scopes source.scopes
          (("source", text_of source.source) ∷ ("status", text_of source.status) ∷ []))

  unfoldable pub snapshot_value : SnapshotPayload → JsonValue
  unfolding source_value group_value item_value notification_value summary_value
  snapshot_value payload = record_of (
      ("findings", array_of group_value payload.findings)
      ∷ ("items", array_of item_value payload.items)
      ∷ ("notifications", array_of notification_value payload.notifications)
      ∷ ("scanState", text_of payload.scan_state)
      ∷ ("sources", array_of source_value payload.sources)
      ∷ ("summary", summary_value payload.summary)
      ∷ [])

  -- `_envelope`
  unfoldable pub envelope : Datetime → String → ResponseKind → JsonValue → ℤ → JsonValue
  unfolding timestamp_text
  envelope generated_at generation_id kind payload version = record_of (
      ("generatedAt", moment_value generated_at)
      ∷ ("generationId", JsonValue.text generation_id)
      ∷ ("kind", text_of kind)
      ∷ ("payload", payload)
      ∷ ("protocolVersion", JsonValue.integer version)
      ∷ [])

  unfoldable pub error_envelope : Datetime → String → ErrorInfo → ℤ → JsonValue
  unfolding timestamp_text error_value
  error_envelope generated_at generation_id error version = record_of (
      ("error", error_value error)
      ∷ ("generatedAt", moment_value generated_at)
      ∷ ("generationId", JsonValue.text generation_id)
      ∷ ("kind", text_of ResponseKind.error)
      ∷ ("protocolVersion", JsonValue.integer version)
      ∷ [])

  -- `response_value` below its call of `validate_response`
  unfoldable pub envelope_of : Response → JsonValue
  unfolding envelope error_envelope snapshot_value inventory_value star_result_value
  envelope_of (Response.snapshot_response r) =
      envelope r.generated_at r.generation_id ResponseKind.snapshot (snapshot_value r.payload)
        r.protocol_version
  envelope_of (Response.inventory_response r) =
      envelope r.generated_at r.generation_id ResponseKind.inventory (inventory_value r.payload)
        r.protocol_version
  envelope_of (Response.star_result_response r) =
      envelope r.generated_at r.generation_id ResponseKind.star_result (star_result_value r.payload)
        r.protocol_version
  envelope_of (Response.error_response r) =
      error_envelope r.generated_at r.generation_id r.error r.protocol_version

  unfoldable pub response_value : Response → Validated JsonValue
  unfolding envelope_of validate_response
  response_value response = do validate_response response; ok (envelope_of response)
